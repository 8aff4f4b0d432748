-- ===== src/Cli/Line/Rest.antt =====
-- What the reader of cli/cmdline_get.cc leaves of its input.
use components_mcu.Prelude.{
  ℕ, Bool, true, false, List, [], ◌∷◌, ◌++◌, Bool-cases, ◌⊎◌, inl, inr, ◌≡◌, refl, ap, arith,
}
use components_mcu.Cli.Line.{
  CliBuf, Status, done, error, incomplete, line_buf_full, Outcome, again, returned, accept,
  accept_counted, is_full, read, cli_get_commandline,
}

-- The reader makes one call more than it has characters where it ran out of them.
abbrev pub ran_out : Status → ℕ
ran_out done = 0
ran_out error = 1
ran_out incomplete = 1
ran_out line_buf_full = 0

-- It leaves the end of its input, and nothing where it ran out of characters.
abbrev pub Leaves : List ℕ → Status × CliBuf × List ℕ → Type 0
Leaves cs (status, b, rest) =
    (pre : List ℕ) × (cs ≡ pre ++ rest) × ((ran_out status ≡ 0) ⊎ (rest ≡ []))

abbrev Settled : Outcome → Type 0
Settled (again err b) = Unit {0}
Settled (returned s b) = s ≡ done

accept-Settled : (allow_lf err : Bool) (b : CliBuf) (c : ℕ) → Settled (accept allow_lf err b c)
unfolding accept accept_counted
accept-Settled allow_lf err b c = ground arith

Leaves-next :
    (allow_lf : Bool) (c : ℕ) (cs : List ℕ)
    → ((err : Bool) (b : CliBuf) → Leaves cs (read allow_lf err b cs))
    → (o : Outcome) → Settled o
    → Leaves (c ∷ cs) (elim o [
      | returned s b' ↦ (s, b', cs)
      | again err' b' ↦ elim (is_full b') [
        | true ↦ (line_buf_full, b', cs)
        | false ↦ read allow_lf err' b' cs
      ]
    ])
Leaves-next allow_lf c cs ih (returned s b) is_done = (c ∷ [], refl, inl (rw is_done refl))
Leaves-next allow_lf c cs ih (again err b) t = elim (Bool-cases (is_full b)) [
  | inl full ↦ rw full (c ∷ [], refl, inl refl)
  | inr free ↦ let (pre, e, at_end) = ih err b in rw free (c ∷ pre, ap (◌∷◌ c) e, at_end)
]

read-Leaves : (allow_lf err : Bool) (b : CliBuf) (cs : List ℕ) → Leaves cs (read allow_lf err b cs)
unfolding read
read-Leaves allow_lf err b [] = ([], refl, inr refl)
read-Leaves allow_lf err b (c ∷ cs) =
    Leaves-next allow_lf c cs (λ err' b'. read-Leaves allow_lf err' b' cs) (accept allow_lf err b c)
      (accept-Settled allow_lf err b c)

pub cli_get_commandline-Leaves :
    (allow_lf : Bool) (b : CliBuf) (cs : List ℕ) → Leaves cs (cli_get_commandline allow_lf b cs)
unfolding cli_get_commandline
cli_get_commandline-Leaves allow_lf b cs = elim (Bool-cases (is_full b)) [
  | inl full ↦ rw full ([], refl, inl refl)
  | inr free ↦ rw free (read-Leaves allow_lf false b cs)
]
