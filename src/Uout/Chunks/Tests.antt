-- ===== src/Uout/Chunks/Tests.antt =====
-- Runs of the writer of chunks, and its theorem at an input.
use components_mcu.Prelude.{List, [], ◌∷◌, ◌++◌, Bytes, codes, length, ℤ, pos, negsuc, ◌≡◌, refl}
use components_mcu.Uout.Chunks.{
  Chunk, new_writer, Numbered, statuses, write_message, write_message-Numbered,
}

-- A callback that takes no chunk of less than two bytes.
abbrev picky : List Chunk → Bytes → ℤ → ℤ
picky cs [] s = pos 0
picky cs (c ∷ []) s = pos 0
picky cs (c ∷ d ∷ src) s = pos (length (c ∷ d ∷ src))

abbrev pieces : List Bytes
pieces = codes "ab" ∷ codes "c" ∷ codes "cd" ∷ []

four_chunks :
    statuses (write_message picky pieces (codes "ef") new_writer).chunks
    ≡ negsuc 0 ∷ negsuc 1 ∷ negsuc 1 ∷ pos 3 ∷ []
unfolding write_message
four_chunks = refl

write_message-Numbered_example :
    (cs : List Chunk) × ((write_message picky pieces (codes "ef") new_writer).chunks ≡ [] ++ cs)
    × Numbered 0 cs pieces (codes "ef")
    × ((write_message picky pieces (codes "ef") new_writer).nmb_chunks_written ≡ 0)
write_message-Numbered_example = write_message-Numbered picky pieces (codes "ef") new_writer refl
