-- ===== src/Stm32/Scripts.antt =====
-- The exchanges of stm32/stm32_bootloader.cc as scripts of bytes to send and of acknowledgements to wait for.
use components_mcu.Prelude.{
  ℕ, zero, suc, ◌+◌, ◌%◌, ◌<◌, Bool, true, false, not, List, [], ◌∷◌, ◌++◌, Bytes, ◌==◌,
  if◌then◌else◌, take, drop, length, Bool-cases, inl, inr, ◌≡◌, refl, sym, ap, ◌∙◌, arith,
}
use components_mcu.Stm32.Bootloader.{
  LineEvent, wrote, stm32_ack, stm32_wr, stm32_erase, inv_cmd, address_bytes, xor_all, page_bytes,
  send_pages, start_page, page_count, flash_start_address, send_command, send_address, recv,
  is_reply, expect, expect_ack, write_data, do_write_memory, erase_pages, do_erase_flash,
  write_chunks,
}

pub data Step : Type 0 where
  send : Bytes → Step
  await : ℕ → Step

abbrev pub send_all : List Bytes → List Step
send_all [] = []
send_all (bs ∷ l) = send bs ∷ send_all l

-- Each of the pages as a message of its own.
abbrev pub page_messages : ℕ → ℕ → List Step
page_messages page zero = []
page_messages page (suc n) = send (page % 256 ∷ []) ∷ page_messages (page + 1) n

abbrev pub command_script : ℕ → List Step
command_script cmd = send (cmd ∷ inv_cmd cmd ∷ []) ∷ await 100 ∷ []

-- Writing up to 256 bytes.
unfoldable pub write_script : ℕ → Bytes → List Step
write_script dst data' =
    let n = (length data' + 255) % 256 in
    command_script stm32_wr
    ++ (send (address_bytes dst)
        ∷ await 100
        ∷ send (n ∷ [])
        ∷ send data'
        ∷ send (xor_all n data' ∷ [])
        ∷ await 20000
        ∷ [])

-- Erasing `count` pages.
unfoldable pub erase_script : ℕ → ℕ → List Step
erase_script page count =
    let n = (count + 255) % 256 in
    command_script stm32_erase
    ++ (send (n ∷ [])
        ∷ (page_messages page count
            ++ (send (xor_all n (page_bytes page count) ∷ []) ∷ await 60000 ∷ [])))

-- Writing an image in pieces of 256 bytes, of which there are at most as many as the first argument.
unfoldable pub image_script : ℕ → ℕ → Bytes → List Step
image_script zero addr image = []
image_script (suc k) addr image =
    let rest = image_script k ((addr + length (take 256 image)) % 4294967296) (drop 256 image) in
    if length image == 0 then [] else write_script addr (take 256 image) ++ rest

-- Erasing the flash and writing an image to it.
abbrev pub upload_script : Bytes → List Step
upload_script image =
    erase_script (start_page flash_start_address) (page_count flash_start_address (length image))
    ++ image_script (suc (length image)) flash_start_address image

length-take-drop :
    {A : Type 0} (n : ℕ) (xs : List A) → length (take n xs) + length (drop n xs) ≡ length xs
length-take-drop zero xs = omega arith
length-take-drop (suc n) [] = refl
length-take-drop (suc n) (x ∷ xs) = omega (arith, length-take-drop n xs)

suc_is_positive : (n : ℕ) → (suc n == 0) ≡ false
suc_is_positive n = ground arith

more_differs : (n k : ℕ) → (n == n + suc k) ≡ false
more_differs n k = ground arith

none_more : (n : ℕ) → (n == n + 0) ≡ true
none_more n = ground arith

-- Early returns as nested tests.
two_replies :
    {A : Type 0} (b c : Bool) (x y : A)
    → ◌≡◌ {A = Bool × A}
        (if not b then (false, x) else (c, y))
        (if b then (if c then (true, y) else (false, y)) else (false, x))
two_replies true true x y = refl
two_replies true false x y = refl
two_replies false c x y = refl

three_replies :
    {A : Type 0} (b c d : Bool) (x y z : A)
    → ◌≡◌ {A = Bool × A} (if not b then (false, x) else if not c then (false, y) else (d, z)) (
        if b then (if c then (if d then (true, z) else (false, z)) else (false, y)) else (false, x))
three_replies true c d x y z = two_replies c d y z
three_replies false c d x y z = refl

module _ (answer : List LineEvent → ℕ → Bytes) where
  -- A script stops at the first acknowledgement that does not come.
  unfoldable pub perform : List Step → List LineEvent → Bool × List LineEvent
  perform [] h = (true, h)
  perform (send bs ∷ steps) h = perform steps (wrote bs ∷ h)
  perform (await ms ∷ steps) h =
      let (acked, h') = expect answer stm32_ack ms h in
      let rest = perform steps h' in if acked then rest else (false, h')

  -- One script after the other.
  abbrev pub and_then : (Bool × List LineEvent) → List Step → Bool × List LineEvent
  and_then r steps = if r.0 then perform steps r.1 else (false, r.1)

  pub perform-append :
      (a b : List Step) (h : List LineEvent) → perform (a ++ b) h ≡ and_then (perform a h) b
  unfolding perform
  perform-append [] b h = refl
  perform-append (send bs ∷ a) b h = perform-append a b (wrote bs ∷ h)
  perform-append (await ms ∷ a) b h = elim (Bool-cases (expect answer stm32_ack ms h).0) [
    | inl yes' ↦ rw yes' (perform-append a b (expect answer stm32_ack ms h).1)
    | inr no' ↦ rw no' refl
  ]

  pub do_write_memory-perform :
      (dst : ℕ) (data' : Bytes) (h : List LineEvent)
      → do_write_memory answer dst data' h ≡ perform (write_script dst data') h
  unfolding perform write_script do_write_memory expect_ack write_data expect
  do_write_memory-perform dst data' h =
      let r1 = recv answer 16 100 (send_command stm32_wr h) in
      let r2 = recv answer 16 100 (send_address dst r1.1) in
      let r3 = write_data answer data' r2.1 in
      three_replies (is_reply answer stm32_ack r1.0) (is_reply answer stm32_ack r2.0) r3.0 r1.1 r2.1
        r3.1

  perform-page_messages :
      (page n : ℕ) (rest : List Step) (h : List LineEvent)
      → perform (page_messages page n ++ rest) h ≡ perform rest (send_pages page n h)
  unfolding perform
  perform-page_messages page zero rest h = refl
  perform-page_messages page (suc n) rest h = perform-page_messages (page + 1) n rest _

  pub do_erase_flash-perform :
      (page count : ℕ) (h : List LineEvent)
      → do_erase_flash answer page count h ≡ perform (erase_script page count) h
  unfolding perform erase_script do_erase_flash expect_ack erase_pages expect
  do_erase_flash-perform page count h =
      let r1 = recv answer 16 100 (send_command stm32_erase h) in
      let n = (count + 255) % 256 in
      let r2 = erase_pages answer page count r1.1 in
      two_replies (is_reply answer stm32_ack r1.0) r2.0 r1.1 r2.1
      ∙ ap (λ r. if is_reply answer stm32_ack r1.0 then r else (false, r1.1))
          (sym (
            perform-page_messages page count
              (send (xor_all n (page_bytes page count) ∷ []) ∷ await 60000 ∷ [])
              (wrote (n ∷ []) ∷ r1.1)))

  -- Writing chunks is the script for the image: it says whether every byte was written.
  pub write_chunks-perform :
      (fuel : ℕ) (left : Bytes) (addr done : ℕ) (h : List LineEvent)
      → length left < fuel
      → done + length left < 4294967296
      → ((write_chunks answer fuel left addr done h).1
          ≡ (perform (image_script fuel addr left) h).1)
        × (((write_chunks answer fuel left addr done h).0 == done + length left)
            ≡ (perform (image_script fuel addr left) h).0)
  unfolding write_chunks image_script perform
  write_chunks-perform zero left addr done h f small = absurd (omega (arith, f))
  write_chunks-perform (suc fuel) [] addr done h f small = (refl, none_more done)
  write_chunks-perform (suc fuel) (c ∷ left) addr done h f small =
      let buf = take 256 (c ∷ left) in
      let rest = image_script fuel ((addr + length buf) % 4294967296) (drop 256 (c ∷ left)) in
      let w = do_write_memory answer addr buf h in
      let line =
        perform-append (write_script addr buf) rest h
        ∙ ap (λ r. and_then r rest) (sym (do_write_memory-perform addr buf h)) in
      let some_left : (length (c ∷ left) == 0) ≡ false = suc_is_positive (length left) in
      let some_read : (length buf == 0) ≡ false = suc_is_positive (length (take 255 left)) in
      let split = length-take-drop 256 (c ∷ left) in
      elim (Bool-cases w.0) [
        | inr no' ↦ rw (some_left, some_read, line, no') (refl, more_differs done (length left))
        | inl yes' ↦
            let (trace, count) =
              write_chunks-perform fuel (drop 256 (c ∷ left)) ((addr + length buf) % 4294967296)
                ((done + length buf) % 4294967296) w.1 (omega (arith, split, f))
                (omega (arith, split, small)) in
            let all : (done + length buf) % 4294967296 + length (drop 256 (c ∷ left))
                ≡ done + length (c ∷ left) =
              omega (arith, split, small) in
            rw (some_left, some_read, line, yes')
              (
                trace,
                ap
                      (λ n.
                        (write_chunks answer fuel (drop 256 (c ∷ left))
                          ((addr + length buf) % 4294967296) ((done + length buf) % 4294967296)
                          w.1).0
                        == n)
                      (sym all)
                    ∙ count,
              )
      ]
