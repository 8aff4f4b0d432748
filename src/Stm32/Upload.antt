-- ===== src/Stm32/Upload.antt =====
-- Updating the firmware: `stm32Bl_writeMemoryFromBinFile` of stm32/stm32_bootloader.cc and
-- `stm32Ota_firmwareUpdate` of stm32/stm32_flash.cc.
use components_mcu.Prelude.{
  ℕ, suc, ◌%◌, ◌<◌, Bool, false, some, List, [], ◌∷◌, Bytes, ◌==◌, length, Bool-cases, inl, inr,
  ◌≡◌, refl, sym, ap, ◌∙◌, arith,
}
use components_mcu.Stm32.Bootloader.{
  LineEvent, delayed, ran_boot_loader, ran_firmware, stm32_ack, stm32_init, start_page, page_count,
  flash_start_address, send_start, expect, expect_ack, do_start, do_erase_flash,
  erase_flash_by_file_size, write_chunks, write_memory_from_bin_file, firmware_update,
}
use components_mcu.Stm32.Scripts.{
  send, await, erase_script, image_script, upload_script, perform, and_then, perform-append,
  do_erase_flash-perform, write_chunks-perform,
}

module _ (answer : List LineEvent → ℕ → Bytes) where
  write_memory_from_bin_file-perform :
      (image : Bytes) (h : List LineEvent)
      → 0 < length image
      → length image < 4294967296
      → write_memory_from_bin_file answer (some (some (length image), image)) flash_start_address h
        ≡ perform answer (upload_script image) h
  unfolding write_memory_from_bin_file erase_flash_by_file_size
  write_memory_from_bin_file-perform image h some_bytes small =
      let page = start_page flash_start_address in
      let count = page_count flash_start_address (length image) in
      let body = image_script (suc (length image)) flash_start_address image in
      let e = do_erase_flash answer page count h in
      let line =
        perform-append answer (erase_script page count) body h
        ∙ ap (λ r. and_then answer r body) (sym (do_erase_flash-perform answer page count h)) in
      let size : length image % 4294967296 ≡ length image = omega (arith, small) in
      let nonempty : (0 == length image % 4294967296) ≡ false = ground arith in
      elim (Bool-cases e.0) [
        | inr no' ↦ rw (line, no') (ap (λ b. (b, e.1)) nonempty)
        | inl yes' ↦
            let (trace, count') =
              write_chunks-perform answer (suc (length image)) image flash_start_address 0 e.1
                (omega arith) (omega (arith, small)) in
            let written =
              (write_chunks answer (suc (length image)) image flash_start_address 0 e.1).0 in
            rw (line, yes')
              (λ i. ((ap (λ n. written == n) (size ∙ omega arith) ∙ count') i, trace i))
      ]

  -- For a file whose size is that of its contents, which is positive and less than 4 GB, the whole update is one
  -- script: connecting, erasing the pages and writing the image in pieces of up to 256 bytes, each part
  -- sent only if everything before was acknowledged. The result is true exactly if all was
  -- acknowledged, and in either case the firmware is started at the end.
  pub firmware_update-perform :
      (image : Bytes) (h : List LineEvent)
      → 0 < length image
      → length image < 4294967296
      → firmware_update answer (some (some (length image), image)) h ≡ (
          let r =
            perform answer
              (send (stm32_init ∷ []) ∷ await 100 ∷ upload_script image)
              (delayed 2000 ∷ ran_boot_loader ∷ h) in
          (r.0, delayed 2000 ∷ ran_firmware ∷ r.1))
  unfolding firmware_update do_start expect_ack perform
  firmware_update-perform image h some_bytes small =
      let h0 = delayed 2000 ∷ ran_boot_loader ∷ h in
      let s = expect answer stm32_ack 100 (send_start h0) in
      elim (Bool-cases s.0) [
        | inr no' ↦ rw no' refl
        | inl yes' ↦ rw (yes') (
            ap (λ (r : Bool × List LineEvent). (r.0, delayed 2000 ∷ ran_firmware ∷ r.1))
              (write_memory_from_bin_file-perform image s.1 some_bytes small))
      ]
