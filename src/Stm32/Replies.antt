-- ===== src/Stm32/Replies.antt =====
-- What the replies mean for the boot loader client of stm32/stm32_bootloader.cc.
use components_mcu.Prelude.{
  ℕ, zero, suc, ◌+◌, ◌-◌, ◌*◌, ◌/◌, ◌%◌, ◌≤◌, ◌<◌, Bool, true, false, some, List, [], ◌∷◌, ◌++◌,
  Bytes, ◌==◌, drop, length, Bool-cases, inl, inr, ◌≡◌, refl, ap, ◌∙◌, arith,
}
use components_mcu.Stm32.Bootloader.{
  LineEvent, send_command, stm32_erasen, delayed, ran_boot_loader, stm32_ack, stm32_init,
  start_page, page_count, flash_start_address, recv_rounds, recv, is_reply, expect, expect_ack,
  erase_wide_pages, do_ext_erase_flash, firmware_update,
}
use components_mcu.Stm32.Scripts.{
  Step, send, await, page_messages, write_script, erase_script, image_script, upload_script,
  perform,
}
use components_mcu.Stm32.Upload.{firmware_update-perform}

-- The pages that are erased for an image of up to 255 KB are as many as it needs: they cover the image, and one page
-- less would not.
pub page_count_covers :
    (size : ℕ)
    → size ≤ 261120
    → (size ≤ 1024 * page_count flash_start_address size)
      × (1024 * page_count flash_start_address size < size + 1024)
page_count_covers size h = (omega (arith, h), omega (arith, h))

-- The count of the pages is kept in 8 bits: the pages that are erased for an image of less than 3.8 GB are the needed
-- ones modulo 256, thus none for an image of 256 KB.
pub page_count_truncated :
    (size : ℕ)
    → size < 4000000000
    → page_count flash_start_address size ≡ ((size + 1023) / 1024) % 256
page_count_truncated size h = omega (arith, h)

no_bytes : (bs : Bytes) → length bs ≤ 0 → bs ≡ []
no_bytes [] h = refl
no_bytes (c ∷ bs) h = absurd (omega (arith, h))

module _ (answer : List LineEvent → ℕ → Bytes) where
  recv_rounds_empty :
      ((h : List LineEvent) (n : ℕ) → length (answer h n) ≤ n)
      → (k : ℕ) (h : List LineEvent) → (recv_rounds answer k 1 h).0 ≡ []
  unfolding recv_rounds
  recv_rounds_empty bounded zero h = refl
  recv_rounds_empty bounded (suc k) h =
      rw (no_bytes (answer (delayed 50 ∷ h) 0) (bounded _ 0)) (recv_rounds_empty bounded k _)

  erase_wide_pages_fails :
      ((h : List LineEvent) (n : ℕ) → length (answer h n) ≤ n)
      → (page count : ℕ) (h : List LineEvent) → (erase_wide_pages answer page count h).0 ≡ false
  unfolding erase_wide_pages recv
  erase_wide_pages_fails bounded page count h =
      ap (is_reply answer stm32_ack) (recv_rounds_empty bounded 1200 _)

  -- Erasing with 16 bit page numbers never succeeds where a read returns at most as many bytes as were asked for: the
  -- last reply is read into a buffer of one byte, of which `stm32Bl_recv` leaves out the last.
  pub do_ext_erase_flash_fails :
      (page count : ℕ) (h : List LineEvent)
      → ((h : List LineEvent) (n : ℕ) → length (answer h n) ≤ n)
      → (do_ext_erase_flash answer page count h).0 ≡ false
  unfolding do_ext_erase_flash
  do_ext_erase_flash_fails page count h bounded =
      let acked = expect_ack answer (recv answer 16 100 (send_command stm32_erasen h)).1 in
      elim (Bool-cases acked.0) [
        | inl yes' ↦ rw yes' (erase_wide_pages_fails bounded page count acked.1)
        | inr no' ↦ rw no' refl
      ]

  -- Every wait is at least one round of `stm32Bl_recv`.
  abbrev AllPatient : List Step → Type 0
  AllPatient [] = Unit {0}
  AllPatient (send bs ∷ steps) = AllPatient steps
  AllPatient (await ms ∷ steps) = (50 ≤ ms) × AllPatient steps

  AllPatient-append : (a b : List Step) → AllPatient a → AllPatient b → AllPatient (a ++ b)
  AllPatient-append [] b p q = q
  AllPatient-append (send bs ∷ a) b p q = AllPatient-append a b p q
  AllPatient-append (await ms ∷ a) b p q = (p.0, AllPatient-append a b p.1 q)

  AllPatient-page_messages :
      (page n : ℕ) (b : List Step) → AllPatient b → AllPatient (page_messages page n ++ b)
  AllPatient-page_messages page zero b q = q
  AllPatient-page_messages page (suc n) b q = AllPatient-page_messages (page + 1) n b q

  AllPatient-image_script : (k addr : ℕ) (image : Bytes) → AllPatient (image_script k addr image)
  unfolding image_script write_script
  AllPatient-image_script zero addr image = tt
  AllPatient-image_script (suc k) addr image = elim (Bool-cases (length image == 0)) [
    | inl yes' ↦ rw yes' tt
    | inr no' ↦
        rw no'
          (omega arith, (omega arith, (omega arith, AllPatient-image_script k _ (drop 256 image))))
  ]

  recv_rounds_acked :
      ((h : List LineEvent) (n : ℕ) → 0 < n → answer h n ≡ stm32_ack ∷ [])
      → (k : ℕ) (h : List LineEvent) → (recv_rounds answer (suc k) 16 h).0 ≡ stm32_ack ∷ []
  unfolding recv_rounds
  recv_rounds_acked acks k h = rw (acks (delayed 50 ∷ h) 15 (omega arith)) refl

  expect_acked :
      ((h : List LineEvent) (n : ℕ) → 0 < n → answer h n ≡ stm32_ack ∷ [])
      → (ms : ℕ) (h : List LineEvent) → 50 ≤ ms
      → (expect answer stm32_ack ms h).0 ≡ true
  unfolding expect recv
  expect_acked acks ms h patient =
      let rounds : ms / 50 ≡ suc (ms / 50 - 1) = omega (arith, patient) in
      rw rounds (ap (is_reply answer stm32_ack) (recv_rounds_acked acks (ms / 50 - 1) h))

  perform_acked :
      ((h : List LineEvent) (n : ℕ) → 0 < n → answer h n ≡ stm32_ack ∷ [])
      → (steps : List Step) (h : List LineEvent) → AllPatient steps
      → (perform answer steps h).0 ≡ true
  unfolding perform
  perform_acked acks [] h p = refl
  perform_acked acks (send bs ∷ steps) h p = perform_acked acks steps _ p
  perform_acked acks (await ms ∷ steps) h p =
      rw (expect_acked acks ms h p.0) (perform_acked acks steps _ p.1)

  -- Where the boot loader acknowledges within each round of reading, updating the firmware from a file whose size is
  -- that of its contents, which is positive and less than 4 GB, returns true.
  pub firmware_update_acked :
      (image : Bytes) (h : List LineEvent)
      → 0 < length image
      → length image < 4294967296
      → ((h : List LineEvent) (n : ℕ) → 0 < n → answer h n ≡ stm32_ack ∷ [])
      → (firmware_update answer (some (some (length image), image)) h).0 ≡ true
  unfolding erase_script
  firmware_update_acked image h some_bytes small acks =
      let count = page_count flash_start_address (length image) in
      ap (λ (r : Bool × List LineEvent). r.0)
        (firmware_update-perform answer image h some_bytes small)
      ∙ perform_acked acks (send (stm32_init ∷ []) ∷ await 100 ∷ upload_script image)
          (delayed 2000 ∷ ran_boot_loader ∷ h)
          (
            omega arith,
            AllPatient-append (erase_script (start_page flash_start_address) count) _
                (
                  omega arith,
                  AllPatient-page_messages (start_page flash_start_address) count _
                      (omega arith, tt),
                )
                (AllPatient-image_script (suc (length image)) flash_start_address image),
          )
