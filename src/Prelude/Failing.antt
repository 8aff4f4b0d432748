-- ===== src/Prelude/Failing.antt =====
-- Operations that may abort the program; assertions are on.
-- `aborted`, `unfinished` where the fuel of a loop ran out, or the value.
pub data Aborts (A : Type 0) : Type 0 where
  aborted : Aborts A
  unfinished : Aborts A
  returns : A → Aborts A

infixl 5 ◌>>=◌
abbrev pub ◌>>=◌ : {A B : Type 0} → Aborts A → (A → Aborts B) → Aborts B
aborted >>= f = aborted
unfinished >>= f = unfinished
returns a >>= f = f a
