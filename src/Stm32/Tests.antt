-- ===== src/Stm32/Tests.antt =====
-- The boot loader client at concrete devices.
use components_mcu.Prelude.{
  ℕ, zero, suc, ◌+◌, ◌/◌, ◌%◌, ◌≤◌, ◌<◌, true, false, none, some, List, [], ◌∷◌, Bytes, length,
  length-take, take, ◌≡◌, refl, arith,
}
use components_mcu.Stm32.Bootloader.{
  LineEvent, wrote, got, delayed, ran_boot_loader, ran_firmware, stm32_ack, stm32_init,
  flash_start_address, page_count, address_bytes, xor, do_start, expect_ack, expect, recv,
  recv_rounds, do_ext_erase_flash, write_memory_from_bin_file, firmware_update,
}
use components_mcu.Stm32.Scripts.{send, await, upload_script, perform}
use components_mcu.Stm32.Upload.{firmware_update-perform}
use components_mcu.Stm32.Replies.{
  page_count_truncated, do_ext_erase_flash_fails, firmware_update_acked,
}

-- A device that acknowledges whatever it is sent.
abbrev obedient : List LineEvent → ℕ → Bytes
obedient h n = take n (stm32_ack ∷ [])

obedient_bounded : (h : List LineEvent) (n : ℕ) → length (obedient h n) ≤ n
obedient_bounded h n = omega (arith, length-take n (stm32_ack ∷ []))

take_one : (n : ℕ) → 0 < n → take n (stm32_ack ∷ []) ≡ stm32_ack ∷ []
take_one zero h = absurd (omega (arith, h))
take_one (suc zero) h = refl
take_one (suc (suc n)) h = refl

abbrev image : Bytes
image = 1 ∷ 2 ∷ 3 ∷ []

firmware_update-perform_example : firmware_update obedient (some (some 3, image)) [] ≡ (
    let r =
      perform obedient
        (send (stm32_init ∷ []) ∷ await 100 ∷ upload_script image)
        (delayed 2000 ∷ ran_boot_loader ∷ []) in
    (r.0, delayed 2000 ∷ ran_firmware ∷ r.1))
firmware_update-perform_example =
    firmware_update-perform obedient image [] (omega arith) (omega arith)

firmware_update_acked_example : (firmware_update obedient (some (some 3, image)) []).0 ≡ true
firmware_update_acked_example =
    firmware_update_acked obedient image [] (omega arith) (omega arith) (λ h n p. take_one n p)

page_count_truncated_example :
    page_count flash_start_address 262144 ≡ ((262144 + 1023) / 1024) % 256
page_count_truncated_example = page_count_truncated 262144 (omega arith)

do_ext_erase_flash_fails_example : (do_ext_erase_flash obedient 0 3 []).0 ≡ false
do_ext_erase_flash_fails_example = do_ext_erase_flash_fails obedient 0 3 [] obedient_bounded

address_run : address_bytes 0x8000100 ≡ 8 ∷ 0 ∷ 1 ∷ 0 ∷ 9 ∷ []
unfolding xor
address_run = refl

start_run :
    (do_start obedient []).1 ≡ got (stm32_ack ∷ []) ∷ delayed 50 ∷ wrote (stm32_init ∷ []) ∷ []
unfolding do_start expect_ack expect recv recv_rounds
start_run = refl

-- A file that cannot be opened counts as written.
no_file_run : write_memory_from_bin_file obedient none flash_start_address [] ≡ (true, [])
unfolding write_memory_from_bin_file
no_file_run = refl
