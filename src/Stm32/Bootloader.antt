-- ===== src/Stm32/Bootloader.antt =====
-- The boot loader client: stm32/stm32_bootloader.cc with stm32/include/stm32/stm32_bl.h and
-- `stm32Ota_firmwareUpdate` of stm32/stm32_flash.cc. The state is the history of the calls of the serial
-- line, the last one first; what a read returns is a function of the history and of the number of bytes
-- asked for. A read is taken to return no negative number, and the locks are left out.
use components_mcu.Prelude.{
  ℕ, zero, suc, ◌+◌, ◌-◌, ◌*◌, ◌/◌, ◌%◌, ◌^◌, Bool, false, not, Option, none, some, List, [], ◌∷◌,
  Bytes, ◌==◌, if◌then◌else◌, take, drop, length,
}

pub data LineEvent : Type 0 where
  wrote : Bytes → LineEvent
  got : Bytes → LineEvent
  delayed : ℕ → LineEvent
  ran_boot_loader : LineEvent
  ran_firmware : LineEvent

abbrev pub stm32_ack : ℕ
stm32_ack = 0x79

abbrev pub stm32_init : ℕ
stm32_init = 0x7f

abbrev pub stm32_wr : ℕ
stm32_wr = 0x31

abbrev pub stm32_erase : ℕ
stm32_erase = 0x43

abbrev pub stm32_erasen : ℕ
stm32_erasen = 0x44

abbrev pub stm32_get : ℕ
stm32_get = 0x00

abbrev pub stm32_gid : ℕ
stm32_gid = 0x02

-- The exclusive or of the low bits.
abbrev pub xor_bits : ℕ → ℕ → ℕ → ℕ
xor_bits zero a b = 0
xor_bits (suc k) a b = (a % 2 + b % 2) % 2 + 2 * xor_bits k (a / 2) (b / 2)

unfoldable pub xor : ℕ → ℕ → ℕ
xor a b = xor_bits 8 a b

-- `chksum ^= c` for every byte.
abbrev pub xor_all : ℕ → Bytes → ℕ
xor_all chksum [] = chksum
xor_all chksum (c ∷ cs) = xor_all (xor chksum c) cs

abbrev pub get_byte : ℕ → ℕ → ℕ
get_byte k src = (src / 256 ^ k) % 256

-- The buffer of `stm32Bl_sendAddress`.
abbrev pub address_bytes : ℕ → Bytes
address_bytes addr =
    let b3 = get_byte 3 addr in
    let b2 = get_byte 2 addr in
    let b1 = get_byte 1 addr in
    let b0 = get_byte 0 addr in b3 ∷ b2 ∷ b1 ∷ b0 ∷ xor (xor (xor b3 b2) b1) b0 ∷ []

abbrev pub inv_cmd : ℕ → ℕ
inv_cmd cmd = 255 - cmd

abbrev pub write_bl : Bytes → List LineEvent → List LineEvent
write_bl bs h = wrote bs ∷ h

abbrev pub send_start : List LineEvent → List LineEvent
send_start h = write_bl (stm32_init ∷ []) h

abbrev pub send_command : ℕ → List LineEvent → List LineEvent
send_command cmd h = write_bl (cmd ∷ inv_cmd cmd ∷ []) h

abbrev pub send_address : ℕ → List LineEvent → List LineEvent
send_address addr h = write_bl (address_bytes addr) h

-- The writes of the page numbers in `stm32Bl_doEraseFlash`.
abbrev pub send_pages : ℕ → ℕ → List LineEvent → List LineEvent
send_pages page zero h = h
send_pages page (suc n) h = send_pages (page + 1) n (write_bl (page % 256 ∷ []) h)

-- The page numbers as they are sent, `n` from `page` on.
abbrev pub page_bytes : ℕ → ℕ → Bytes
page_bytes page zero = []
page_bytes page (suc n) = page % 256 ∷ page_bytes (page + 1) n

abbrev pub wide_page : ℕ → Bytes
wide_page page = get_byte 1 page ∷ get_byte 0 page ∷ []

-- The writes of the page numbers in `stm32Bl_doExtEraseFlash`, with the checksum.
abbrev pub send_wide_pages : ℕ → ℕ → ℕ → List LineEvent → ℕ × List LineEvent
send_wide_pages page zero chksum h = (chksum, h)
send_wide_pages page (suc n) chksum h =
    send_wide_pages (page + 1) n (xor_all chksum (wide_page page)) (write_bl (wide_page page) h)

abbrev pub flash_page_size : ℕ
flash_page_size = 1024

abbrev pub flash_start_address : ℕ
flash_start_address = 0x8000000

-- `a - b` of unsigned 32 bit numbers.
abbrev pub sub32 : ℕ → ℕ → ℕ
sub32 a b = (a + (4294967296 - b)) % 4294967296

abbrev pub start_page : ℕ → ℕ
start_page start_addr = sub32 start_addr flash_start_address / flash_page_size

-- `nPages` as `stm32Bl_doEraseFlash` takes it.
abbrev pub page_count : ℕ → ℕ → ℕ
page_count start_addr size =
    let end_addr = (start_addr + size) % 4294967296 in
    let end_page =
      ((sub32 end_addr flash_start_address + (flash_page_size - 1)) % 4294967296)
      / flash_page_size in
    sub32 end_page (start_page start_addr) % 256

-- `answer h n` is what a read of at most `n` bytes yields.
module _ (answer : List LineEvent → ℕ → Bytes) where
  abbrev pub read_bl : ℕ → List LineEvent → Bytes × List LineEvent
  read_bl n h = (answer h n, got (answer h n) ∷ h)

  -- The loop of `stm32Bl_recv`.
  unfoldable pub recv_rounds : ℕ → ℕ → List LineEvent → Bytes × List LineEvent
  recv_rounds zero buf_size h = ([], h)
  recv_rounds (suc k) buf_size h =
      let (bs, h') = read_bl (buf_size - 1) (delayed 50 ∷ h) in
      let rest = recv_rounds k buf_size h' in if length bs == 0 then rest else (bs, h')

  -- `stm32Bl_recv`: the bytes that were received.
  unfoldable pub recv : ℕ → ℕ → List LineEvent → Bytes × List LineEvent
  recv buf_size wait_ms h = recv_rounds (wait_ms / 50) buf_size h

  -- The test that one byte was received and which.
  abbrev pub is_reply : ℕ → Bytes → Bool
  is_reply cmd [] = false
  is_reply cmd (c ∷ []) = c == cmd
  is_reply cmd (c ∷ d ∷ cs) = false

  unfoldable pub expect : ℕ → ℕ → List LineEvent → Bool × List LineEvent
  expect cmd wait_ms h = let (bs, h') = recv 16 wait_ms h in (is_reply cmd bs, h')

  unfoldable pub expect_ack : List LineEvent → Bool × List LineEvent
  expect_ack h = expect stm32_ack 100 h

  unfoldable pub do_start : List LineEvent → Bool × List LineEvent
  do_start h = expect_ack (send_start h)

  -- `stm32Bl_getId` and `stm32Bl_get`: the bytes that are logged.
  unfoldable pub get_id : List LineEvent → Bytes × List LineEvent
  get_id h = recv 16 100 (send_command stm32_gid h)

  unfoldable pub log_get : List LineEvent → Bytes × List LineEvent
  log_get h = recv 16 100 (send_command stm32_get h)

  -- The part of `stm32Bl_doWriteMemory` behind the address.
  unfoldable pub write_data : Bytes → List LineEvent → Bool × List LineEvent
  write_data data' h =
      let n = (length data' + 255) % 256 in
      let (bs, h') =
        recv 16 20000 (write_bl (xor_all n data' ∷ []) (write_bl data' (write_bl (n ∷ []) h))) in
      (is_reply stm32_ack bs, h')

  unfoldable pub do_write_memory : ℕ → Bytes → List LineEvent → Bool × List LineEvent
  do_write_memory dst_addr data' h =
      let (acked, h1) = expect_ack (send_command stm32_wr h) in
      let (acked', h2) = expect_ack (send_address dst_addr h1) in
      if not acked then (false, h1) else if not acked' then (false, h2) else write_data data' h2

  -- The part of `stm32Bl_doEraseFlash` behind the command.
  unfoldable pub erase_pages : ℕ → ℕ → List LineEvent → Bool × List LineEvent
  erase_pages page count h =
      let n = (count + 255) % 256 in
      let (bs, h') = recv 16 60000 (
        write_bl (xor_all n (page_bytes page count) ∷ [])
          (send_pages page count (write_bl (n ∷ []) h))) in
      (is_reply stm32_ack bs, h')

  unfoldable pub do_erase_flash : ℕ → ℕ → List LineEvent → Bool × List LineEvent
  do_erase_flash page count h =
      let (acked, h1) = expect_ack (send_command stm32_erase h) in
      if not acked then (false, h1) else erase_pages page count h1

  -- The part of `stm32Bl_doExtEraseFlash` behind the command.
  unfoldable pub erase_wide_pages : ℕ → ℕ → List LineEvent → Bool × List LineEvent
  erase_wide_pages page count h =
      let n = wide_page ((count + 65535) % 65536) in
      let (chksum, h1) = send_wide_pages page count (xor_all 0 n) (write_bl n h) in
      let (bs, h2) = recv 1 60000 (write_bl (chksum ∷ []) h1) in (is_reply stm32_ack bs, h2)

  unfoldable pub do_ext_erase_flash : ℕ → ℕ → List LineEvent → Bool × List LineEvent
  do_ext_erase_flash page count h =
      let (bs, h1) = recv 16 100 (send_command stm32_erasen h) in
      let (acked, h2) = expect_ack h1 in
      if not acked then (false, h2) else erase_wide_pages page count h2

  unfoldable pub erase_flash_by_file_size : ℕ → ℕ → List LineEvent → Bool × List LineEvent
  erase_flash_by_file_size start_addr size h =
      do_erase_flash (start_page start_addr) (page_count start_addr size) h

  -- The loop of `stm32Bl_writeMemoryFromBinFile` over what is left of the file: the number of bytes
  -- written.
  unfoldable pub write_chunks : ℕ → Bytes → ℕ → ℕ → List LineEvent → ℕ × List LineEvent
  write_chunks zero left addr bytes_written h = (bytes_written, h)
  write_chunks (suc fuel) left addr bytes_written h =
      let buf = take 256 left in
      let n = length buf in
      let (ok, h') = do_write_memory addr buf h in
      let rest =
        write_chunks fuel (drop 256 left) ((addr + n) % 4294967296)
          ((bytes_written + n) % 4294967296) h' in
      if n == 0 then (bytes_written, h) else if not ok then (bytes_written, h') else rest

  -- `stm32Bl_writeMemoryFromBinFile`: no file cannot be opened, and the size is that of fstat(2), if
  -- it succeeds.
  unfoldable pub write_memory_from_bin_file :
      Option (Option ℕ × Bytes) → ℕ → List LineEvent → Bool × List LineEvent
  write_memory_from_bin_file none addr h = (0 == 0, h)
  write_memory_from_bin_file (some (none, contents)) addr h = (0 == 0, h)
  write_memory_from_bin_file (some (some size, contents)) addr h =
      let file_size = size % 4294967296 in
      let (erased, h1) = erase_flash_by_file_size flash_start_address size h in
      let (bytes_written, h2) = write_chunks (suc (length contents)) contents addr 0 h1 in
      if erased then (bytes_written == file_size, h2) else (0 == file_size, h1)

  -- `stm32Ota_firmwareUpdate`.
  unfoldable pub firmware_update :
      Option (Option ℕ × Bytes) → List LineEvent → Bool × List LineEvent
  firmware_update file h =
      let (started, h1) = do_start (delayed 2000 ∷ ran_boot_loader ∷ h) in
      let (written, h2) = write_memory_from_bin_file file flash_start_address h1 in
      if not started
      then (false, delayed 2000 ∷ ran_firmware ∷ h1)
      else (written, delayed 2000 ∷ ran_firmware ∷ h2)
