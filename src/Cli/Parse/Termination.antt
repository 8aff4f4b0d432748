-- ===== src/Cli/Parse/Termination.antt =====
-- The parser of cli/cmdline_parse.cc ends and stays inside the line.
use components_mcu.Prelude.{
  ℕ, zero, suc, ◌+◌, ◌%◌, ◌≤◌, ◌<◌, Option, none, some, List, [], ◌∷◌, ◌++◌, Bytes, ltb, length,
  length-append, Bool-cases, ◌⊎◌, inl, inr, ◌≡◌, refl, ◌∙◌, arith,
}
use components_mcu.Cli.Parse.{
  Cursor, Clpar, Round, eol, failed, parm, round, global_option, Parsed, stop, register, settle,
  parse, cli_parse_commandline,
}
use components_mcu.Cli.Parse.Bounds.{Fits, Inside, Fits-weaker, round-Fits}

abbrev pub AllInside : ℕ → List Clpar → Type 0
AllInside n [] = 0 ≤ n
AllInside n (q ∷ qs) = Inside n q × AllInside n qs

AllInside-append :
    (n : ℕ) (par : List Clpar) (q : Clpar)
    → AllInside n par
    → Inside n q
    → AllInside n (par ++ q ∷ [])
AllInside-append n [] q h i = (i, h)
AllInside-append n (p ∷ par) q h i = (h.0, AllInside-append n par q h.1 i)

-- The parser returned: the line has its length, the entries point into it, and what is returned is
-- -1 or the number of the entries, which is less than the size of the array.
abbrev pub Returned : ℕ → ℕ → Parsed → Type 0
Returned n size r =
    (length r.line ≡ n)
    × (AllInside n r.par
        × ((r.result ≡ none) ⊎ ((r.result ≡ some (length r.par)) × (length r.par < size))))

abbrev Ends : ℕ → ℕ → Option Parsed → Type 0
Ends n size o = (r : Parsed) × ((o ≡ some r) × Returned n size r)

module _ (atoi : Bytes → ℕ) (size n : ℕ) where
  register-Ends :
      (continue : List Clpar → ℕ → Bytes → Bytes → Option Parsed) (par : List Clpar) (msgid : ℕ)
      (c : Cursor) (q : Clpar) (o : Option Bytes)
      → ((par' : List Clpar) (msgid' : ℕ)
          → AllInside n par'
          → Ends n size (continue par' msgid' c.before c.rest))
      → Inside n q
      → AllInside n par
      → Ends n size (register atoi continue par msgid c q o)
  unfolding register
  register-Ends continue par msgid c q none ih k i =
      ih (par ++ q ∷ []) msgid (AllInside-append n par q i k)
  register-Ends continue par msgid c q (some v) ih k i = ih par (atoi v % 65_536) i

  settle-Ends :
      (continue : List Clpar → ℕ → Bytes → Bytes → Option Parsed) (par : List Clpar) (msgid m : ℕ)
      (r : Round)
      → Fits n m r
      → AllInside n par
      → length par < size
      → ((par' : List Clpar) (msgid' : ℕ) (c : Cursor)
          → length c.before + length c.rest ≡ n
          → length c.rest ≤ m
          → AllInside n par'
          → Ends n size (continue par' msgid' c.before c.rest))
      → Ends n size (settle atoi continue par msgid r)
  unfolding settle
  settle-Ends continue par msgid m (eol c) f i l ih = (
    stop (some (length par)) par msgid c,
    (refl, (length-append c.before c.rest ∙ f, (i, inr (refl, l)))),
  )
  settle-Ends continue par msgid m (failed c) f i l ih =
      (stop none par msgid c, (refl, (length-append c.before c.rest ∙ f, (i, inl refl))))
  settle-Ends continue par msgid m (parm c q) f i l ih =
      register-Ends continue par msgid c q (global_option (c.before ++ c.rest) q)
        (λ p x j. ih p x c f.0.0 f.0.1 j) f.1 i

  parse-Ends :
      (fuel : ℕ) (par : List Clpar) (msgid : ℕ) (before rest : Bytes)
      → length before + length rest ≡ n
      → length rest < fuel
      → AllInside n par
      → Ends n size (parse atoi fuel size par msgid before rest)
  unfolding parse
  parse-Ends zero par msgid before rest e f i = absurd (omega (arith, f))
  parse-Ends (suc fuel) par msgid before [] e f i =
      let end : Cursor = record { before = before; rest = [] } in
      elim (Bool-cases (ltb (length par) size)) [
        | inl lt ↦ rw lt (
          stop (some (length par)) par msgid end,
          (refl, (length-append before [] ∙ e, (i, inr (refl, ground arith)))),
        )
        | inr full ↦
            rw full (stop none par msgid end, (refl, (length-append before [] ∙ e, (i, inl refl))))
      ]
  parse-Ends (suc fuel) par msgid before (c ∷ cs) e f i =
      let end : Cursor = record { before = before; rest = c ∷ cs } in
      elim (Bool-cases (ltb (length par) size)) [
        | inl lt ↦ rw lt (
            settle-Ends (parse atoi fuel size) par msgid (length cs) (round before (c ∷ cs))
              (Fits-weaker (length before + length (c ∷ cs)) n (length cs) (length cs)
                (round before (c ∷ cs)) e (omega arith)
                (round-Fits before (c ∷ cs) (length cs) (omega arith)))
              i (ground arith)
              (λ p x d k l a. parse-Ends fuel p x d.before d.rest k (omega (arith, l, f)) a))
        | inr full ↦
            rw full
              (stop none par msgid end, (refl, (length-append before (c ∷ cs) ∙ e, (i, inl refl))))
      ]

-- The parser returns on every line. It leaves the length of the line, every key and value of the
-- parameters that it registers points into the line or at its final NUL, and it returns -1 or the number
-- of the parameters, which is less than the size of the array.
pub cli_parse_commandline-Returned :
    (atoi : Bytes → ℕ) (size : ℕ) (line : Bytes)
    → (r : Parsed) × ((cli_parse_commandline atoi size line ≡ some r)
        × Returned (length line) size r)
unfolding cli_parse_commandline
cli_parse_commandline-Returned atoi size line =
    parse-Ends atoi size (length line) (suc (length line)) [] 0 [] line (omega arith) (omega arith)
      (omega arith)
