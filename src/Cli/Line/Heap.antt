-- ===== src/Cli/Line/Heap.antt =====
-- A `realloc` that meets what cli/cmdline_set.cc relies on.
use components_mcu.Prelude.{
  ℕ, zero, suc, ◌≤◌, Option, none, some, [], ◌∷◌, ◌++◌, Bytes, length, take, replicate,
  length-append, length-take, length-replicate, take-append, ◌≡◌, ◌≢◌, refl, sym, ap, ◌∙◌, arith,
}
use components_mcu.Cli.Line.Session.{ReallocLaws}

-- A heap that never runs out and clears new blocks.
abbrev pub resize : Bytes → ℕ → Option Bytes
resize m n = some (take n (m ++ replicate n 0))

some_bytes : {m n : Bytes} → some m ≡ some n → m ≡ n
some_bytes e = ground arith

take-take : (k n : ℕ) (m : Bytes) → k ≤ n → take k (take n m) ≡ take k m
take-take zero n m h = refl
take-take (suc k) zero m h = absurd (omega arith)
take-take (suc k) (suc n) [] h = refl
take-take (suc k) (suc n) (c ∷ m) h = ap (◌∷◌ c) (take-take k n m (omega arith))

pub resize-ReallocLaws : ReallocLaws resize
resize-ReallocLaws = record {
  has_size = λ m n m' e. omega (
    arith,
    ap length (some_bytes e),
    length-take n (m ++ replicate n 0),
    length-append m (replicate n 0),
    length-replicate {A = ℕ} n 0,
  );
  keeps = λ m n m' k e short fits.
      sym (ap (take k) (some_bytes e)) ∙ take-take k n _ fits ∙ take-append k m _ short;
}

pub resize-ne-none : (m : Bytes) (n : ℕ) → resize m n ≢ none
resize-ne-none m n e = cc
