-- ===== src/Uout/Chunks.antt =====
-- Writing in numbered chunks: class `UoutWriterFunction` of uout/include/uout/uout_writer.hh, with
-- `write` of uout/so_target_desc.cc for a length that is given. The callback is a parameter that is
-- asked with all the chunks it had before; what it got is kept with the number it came with and the
-- result. The range of `int` is left out: a message has fewer than 2 ^ 31 chunks.
mod Tests
use components_mcu.Prelude.{
  ℕ, zero, suc, ◌+◌, Bool, true, false, not, ◌&&◌, List, [], ◌∷◌, ◌++◌, append-nil, append_assoc,
  Bytes, ◌==◌, if◌then◌else◌, ℤ, pos, negsuc, positive, Bool-cases, inl, inr, ◌≡◌, refl, ap, ap₂,
  subst, ◌∙◌, arith,
}

pub record Chunk : Type 0 where
  pub src : Bytes
  pub chunk_status : ℤ
  pub written : ℤ

pub record Writer : Type 0 where
  pub nmb_chunks_written : ℕ
  pub chunks : List Chunk

abbrev pub new_writer : Writer
new_writer = record { nmb_chunks_written = 0; chunks = [] }

-- 0 for a message of one chunk, -(n + 1) for one that others follow, and n + 1 for the last one.
abbrev pub status : Bool → ℕ → ℤ
status is_final nmb =
    if is_final && (nmb == 0) then pos 0 else if is_final then pos (nmb + 1) else negsuc nmb

module _ (write_callback : List Chunk → Bytes → ℤ → ℤ) where
  unfoldable pub priv_write : Bytes → Bool → Writer → ℤ × Writer
  priv_write src is_final w =
      let s = status is_final w.nmb_chunks_written in
      let n = write_callback w.chunks src s in
      (
        n,
        record {
          nmb_chunks_written =
              if is_final
              then 0
              else if positive n
              then w.nmb_chunks_written + 1
              else w.nmb_chunks_written;
          chunks = w.chunks ++ record { src = src; chunk_status = s; written = n } ∷ [];
        },
      )

  -- The pieces of a message, one after the other, and its last piece.
  unfoldable pub write_message : List Bytes → Bytes → Writer → Writer
  unfolding priv_write
  write_message [] last w = (priv_write last true w).1
  write_message (s ∷ ss) last w = write_message ss last (priv_write s false w).1

-- The chunks that were taken.
abbrev pub taken : List Chunk → List Chunk
taken [] = []
taken (c ∷ cs) = if positive c.written then c ∷ taken cs else taken cs

-- The numbers -(n + 1), -(n + 2), ... of so many chunks.
abbrev pub fragments : ℕ → ℕ → List ℤ
fragments n zero = []
fragments n (suc k) = negsuc n ∷ fragments (n + 1) k

abbrev pub statuses : List Chunk → List ℤ
statuses [] = []
statuses (c ∷ cs) = c.chunk_status ∷ statuses cs

abbrev pub sources : List Chunk → List Bytes
sources [] = []
sources (c ∷ cs) = c.src ∷ sources cs

-- What a message of chunks looks like to the callback, from the number `n` on: `k` chunks are taken
-- with the numbers -(n + 1) to -(n + k), among them others are offered in vain, all in their order, and then the last
-- chunk comes, with the number 0 just if none was taken before it.
pub record Numbered (n : ℕ) (cs : List Chunk) (ss : List Bytes) (last : Bytes) : Type 0 where
  pub offered : List Chunk
  pub end_chunk : Chunk
  pub count : ℕ
  pub all_chunks : cs ≡ offered ++ end_chunk ∷ []
  pub numbers : statuses (taken offered) ≡ fragments n count
  pub all_offered : sources offered ≡ ss
  pub end_src : end_chunk.src ≡ last
  pub end_status : end_chunk.chunk_status ≡ status true (n + count)

Numbered-cons :
    (n : ℕ) (c : Chunk) (cs : List Chunk) (ss : List Bytes) (last : Bytes)
    → c.chunk_status ≡ negsuc n
    → Numbered (if positive c.written then n + 1 else n) cs ss last
    → Numbered n (c ∷ cs) (c.src ∷ ss) last
Numbered-cons n c cs ss last e h = elim (Bool-cases (positive c.written)) [
  | inl hit ↦
      let numbers : statuses (taken h.offered) ≡ fragments (n + 1) h.count =
        h.numbers ∙ rw hit refl in
      let at_end : h.end_chunk.chunk_status ≡ status true (n + 1 + h.count) =
        h.end_status ∙ rw hit refl in
      record {
        offered = c ∷ h.offered;
        end_chunk = h.end_chunk;
        count = suc h.count;
        all_chunks = ap (◌∷◌ c) h.all_chunks;
        numbers = rw hit (ap₂ ◌∷◌ e numbers);
        all_offered = ap (◌∷◌ c.src) h.all_offered;
        end_src = h.end_src;
        end_status = at_end ∙ ap (status true) (omega arith);
      }
  | inr miss ↦ record {
    offered = c ∷ h.offered;
    end_chunk = h.end_chunk;
    count = h.count;
    all_chunks = ap (◌∷◌ c) h.all_chunks;
    numbers = rw miss (h.numbers ∙ rw miss refl);
    all_offered = ap (◌∷◌ c.src) h.all_offered;
    end_src = h.end_src;
    end_status = h.end_status ∙ rw miss refl;
  }
]

module _ (write_callback : List Chunk → Bytes → ℤ → ℤ) where
  message_from :
      (ss : List Bytes) (last : Bytes) (w : Writer)
      → (cs : List Chunk) × ((write_message write_callback ss last w).chunks ≡ w.chunks ++ cs)
        × Numbered w.nmb_chunks_written cs ss last
        × ((write_message write_callback ss last w).nmb_chunks_written ≡ 0)
  unfolding write_message priv_write
  message_from [] last w = (
    _,
    refl,
    record {
      offered = [];
      end_chunk = _;
      count = 0;
      all_chunks = refl;
      numbers = refl;
      all_offered = refl;
      end_src = refl;
      end_status = ap (status true) (omega arith);
    },
    refl,
  )
  message_from (s ∷ ss) last w =
      let (cs, e, numbered, reset) = message_from ss last (priv_write write_callback s false w).1 in
      (
        _ ∷ cs,
        e ∙ append_assoc w.chunks (_ ∷ []) cs,
        Numbered-cons w.nmb_chunks_written _ cs ss last refl numbered,
        reset,
      )

  -- Whatever the callback returns, a message that is written in pieces by a new writer, or by one whose
  -- last message is done, reaches it as this: all pieces are offered in their order; those that it
  -- takes, with a result above 0, come with the numbers -1, -2, and so on without a gap, where a piece
  -- that is not taken does not use up its number; the last piece comes with 0 where no other was taken
  -- before it, and else with the number of all chunks; and the writer is ready for the next message.
  pub write_message-Numbered :
      (ss : List Bytes) (last : Bytes) (w : Writer)
      → w.nmb_chunks_written ≡ 0
      → (cs : List Chunk) × ((write_message write_callback ss last w).chunks ≡ w.chunks ++ cs)
        × Numbered 0 cs ss last
        × ((write_message write_callback ss last w).nmb_chunks_written ≡ 0)
  write_message-Numbered ss last w e =
      let (cs, all, numbered, reset) = message_from ss last w in
      (cs, all, subst (λ n. Numbered n cs ss last) e numbered, reset)
