-- ===== src/Cli/Parse/Bounds.antt =====
-- One round of the parser of cli/cmdline_parse.cc stays inside the line and reads a character.
use components_mcu.Prelude.{
  ℕ, suc, ◌+◌, ◌≤◌, ◌<◌, false, ◌||◌, Option, none, some, [], ◌∷◌, ◌++◌, Bytes, ◌==◌, if◌then◌else◌,
  get_or, length, length-append, Bool-cases, ◌⊎◌, inl, inr, ◌≡◌, refl, arith,
}
use components_mcu.Cli.Parse.{
  Cursor, Clpar, Round, eol, failed, parm, is_eol, skip_leading_whitespace, ends_word,
  find_next_space_eq_eol, find_quote, terminate, terminated, value, after_key, round,
}

-- The cursor is in a line of the same length, and not before a point.
abbrev Keeps : Bytes → Bytes → Cursor → Type 0
Keeps before rest c =
    (length c.before + length c.rest ≡ length before + length rest) × (length c.rest ≤ length rest)

-- An offset of the line, its end included.
abbrev pub ValInside : ℕ → Option ℕ → Type 0
ValInside n none = 0 ≤ n
ValInside n (some v) = v ≤ n

abbrev pub Inside : ℕ → Clpar → Type 0
Inside n q = (q.key ≤ n) × ValInside n q.val

skip-Keeps : (before rest : Bytes) → Keeps before rest (skip_leading_whitespace before rest)
unfolding skip_leading_whitespace
skip-Keeps before [] = (refl, omega arith)
skip-Keeps before (c ∷ cs) =
    let ih = skip-Keeps (before ++ 0 ∷ []) cs in
    let n = length-append before (0 ∷ []) in
    elim (Bool-cases (c == b' ')) [
      | inl sp ↦ rw sp (omega (arith, ih.0, n), omega (arith, ih.1))
      | inr other ↦ rw other (refl, omega arith)
    ]

find-Keeps : (before rest : Bytes) → Keeps before rest (find_next_space_eq_eol before rest)
unfolding find_next_space_eq_eol
find-Keeps before [] = (refl, omega arith)
find-Keeps before (c ∷ cs) =
    let ih = find-Keeps (before ++ c ∷ []) cs in
    let n = length-append before (c ∷ []) in
    elim (Bool-cases (ends_word c)) [
      | inl end ↦ rw end (refl, omega arith)
      | inr on ↦ rw on (omega (arith, ih.0, n), omega (arith, ih.1))
    ]

-- The same of a cursor that may be missing.
abbrev KeepsSome : Bytes → Bytes → Option Cursor → Type 0
KeepsSome before rest none = 0 ≤ length rest
KeepsSome before rest (some c) = Keeps before rest c

KeepsSome-later :
    (before rest : Bytes) (x : ℕ) (o : Option Cursor)
    → KeepsSome (before ++ x ∷ []) rest o
    → KeepsSome before (x ∷ rest) o
KeepsSome-later before rest x none h = omega arith
KeepsSome-later before rest x (some c) h =
    (omega (arith, h.0, length-append before (x ∷ [])), omega (arith, h.1))

find_quote-Keeps : (before rest : Bytes) → KeepsSome before rest (find_quote before rest)
unfolding find_quote
find_quote-Keeps before [] = omega arith
find_quote-Keeps before (c ∷ cs) = elim (Bool-cases (c == 0)) [
  | inl nul ↦ rw nul (omega arith)
  | inr other ↦ rw other (elim (Bool-cases (c == b'"')) [
    | inl q ↦ rw q (refl, omega arith)
    | inr on ↦ rw on (
        KeepsSome-later before cs c (find_quote (before ++ c ∷ []) cs)
          (find_quote-Keeps (before ++ c ∷ []) cs))
  ])
]

terminate-Keeps : (before rest : Bytes) → Keeps before rest (terminate before rest)
unfolding terminate
terminate-Keeps before [] = (refl, omega arith)
terminate-Keeps before (c ∷ cs) = elim (Bool-cases (c == 0)) [
  | inl nul ↦ rw nul (refl, omega arith)
  | inr on ↦ rw on (omega (arith, length-append before (0 ∷ [])), omega arith)
]

-- A round whose start has `n` characters in its line and `m` from the cursor on.
abbrev pub Fits : ℕ → ℕ → Round → Type 0
Fits n m (eol c) = length c.before + length c.rest ≡ n
Fits n m (failed c) = length c.before + length c.rest ≡ n
Fits n m (parm c q) = ((length c.before + length c.rest ≡ n) × (length c.rest ≤ m)) × Inside n q

terminated-Fits :
    (key n m : ℕ) (val : Cursor) (end : Option Cursor)
    → key ≤ n
    → length val.before + length val.rest ≡ n
    → length val.rest ≤ m
    → KeepsSome val.before val.rest end
    → Fits n m (terminated key val end)
unfolding terminated
terminated-Fits key n m val none k e l h = e
terminated-Fits key n m val (some c) k e l h =
    let t = terminate-Keeps c.before c.rest in
    ((omega (arith, e, h.0, t.0), omega (arith, t.1, h.1, l)), (k, omega (arith, e)))

word-Fits :
    (key : ℕ) (before rest : Bytes)
    → key ≤ length before + length rest
    → Fits (length before + length rest) (length rest) (
        if is_eol rest
        then failed (record { before = before; rest = rest })
        else terminated key
            (record { before = before; rest = rest })
            (some (find_next_space_eq_eol before rest)))
word-Fits key before rest k = elim (Bool-cases (is_eol rest)) [
  | inl e ↦ rw e refl
  | inr more ↦ rw more (
      terminated-Fits key (length before + length rest) (length rest)
        (record { before = before; rest = rest }) (some (find_next_space_eq_eol before rest)) k refl
        (omega arith) (find-Keeps before rest))
]

value-Fits :
    (key : ℕ) (before rest : Bytes)
    → key ≤ length before + length rest
    → Fits (length before + length rest) (length rest) (value key before rest)
unfolding value
value-Fits key before [] k = refl
value-Fits key before (c ∷ cs) k =
    let n = length-append before (b'"' ∷ []) in
    let before' = before ++ b'"' ∷ [] in
    elim (Bool-cases ((c == b';') || (c == b' '))) [
      | inl bad ↦ rw bad refl
      | inr fine ↦ rw fine (elim (Bool-cases (c == b'"')) [
        | inl q ↦ rw q (elim (Bool-cases (is_eol cs)) [
          | inl e ↦ rw e (omega (arith, n))
          | inr more ↦ rw more (
              terminated-Fits key (length before + length (c ∷ cs)) (length (c ∷ cs))
                (record { before = before'; rest = cs }) (find_quote before' cs) k
                (omega (arith, n)) (omega arith) (find_quote-Keeps before' cs))
        ])
        | inr plain ↦ rw plain (word-Fits key before (c ∷ cs) k)
      ])
    ]

ValInside-same : (n n' : ℕ) (v : Option ℕ) → n ≡ n' → ValInside n v → ValInside n' v
ValInside-same n n' none e h = omega arith
ValInside-same n n' (some v) e h = omega (arith, e, h)

pub Fits-weaker : (n n' m m' : ℕ) (r : Round) → n ≡ n' → m ≤ m' → Fits n m r → Fits n' m' r
Fits-weaker n n' m m' (eol c) e l h = omega (arith, e, h)
Fits-weaker n n' m m' (failed c) e l h = omega (arith, e, h)
Fits-weaker n n' m m' (parm c q) e l h = (
  (omega (arith, e, h.0.0), omega (arith, l, h.0.1)),
  (omega (arith, e, h.1.0), ValInside-same n n' q.val e h.1.1),
)

-- Behind the key an equals sign is read.
after_key-Fits :
    (key : ℕ) (before rest : Bytes) (m : ℕ)
    → key ≤ length before + length rest
    → length rest ≤ suc m
    → (length rest ≤ m) ⊎ (get_or rest 0 0 ≡ b'=')
    → Fits (length before + length rest) m (after_key key before rest)
unfolding after_key
after_key-Fits key before [] m k l h = ((refl, omega arith), (k, omega arith))
after_key-Fits key before (c ∷ cs) m k l h =
    let n = length-append before (0 ∷ []) in
    elim (Bool-cases (c == b'=')) [
      | inl eq ↦ rw eq (
          Fits-weaker (length (before ++ 0 ∷ []) + length cs) (length before + length (c ∷ cs))
            (length cs) m (value key (before ++ 0 ∷ []) cs) (omega (arith, n)) (omega (arith, l))
            (value-Fits key (before ++ 0 ∷ []) cs (omega (arith, k, n))))
      | inr other ↦
          rw other (
            (refl, elim h [ inl short ↦ short | inr eq ↦ absurd (ground arith) ]),
            (k, omega arith),
          )
    ]

-- The skipping of spaces stops at a character that is not one.
skip_no_space :
    (before rest : Bytes) → (get_or (skip_leading_whitespace before rest).rest 0 0 == b' ') ≡ false
unfolding skip_leading_whitespace
skip_no_space before [] = refl
skip_no_space before (c ∷ cs) = elim (Bool-cases (c == b' ')) [
  | inl sp ↦ rw sp (skip_no_space (before ++ 0 ∷ []) cs)
  | inr other ↦ rw (other, other) refl
]

-- Behind the spaces there is a key of a character at least, or an equals sign.
find_moves :
    (before rest : Bytes)
    → is_eol rest ≡ false
    → (get_or rest 0 0 == b' ') ≡ false
    → (length (find_next_space_eq_eol before rest).rest < length rest)
      ⊎ (get_or (find_next_space_eq_eol before rest).rest 0 0 ≡ b'=')
unfolding find_next_space_eq_eol
find_moves before [] e sp = absurd (ground arith)
find_moves before (c ∷ cs) e sp = elim (Bool-cases (c == b'=')) [
  | inl eq ↦ rw (e, sp, eq) (inr (ground arith))
  | inr other ↦ rw (e, sp, other) (inl (omega (arith, (find-Keeps (before ++ c ∷ []) cs).1)))
]

-- A round that finds a key reads a character.
pub round-Fits :
    (before rest : Bytes) (m : ℕ)
    → length rest ≤ suc m
    → Fits (length before + length rest) m (round before rest)
unfolding round
round-Fits before rest m l =
    let start = skip_leading_whitespace before rest in
    let end = find_next_space_eq_eol start.before start.rest in
    let s = skip-Keeps before rest in
    let f = find-Keeps start.before start.rest in
    elim (Bool-cases (is_eol start.rest)) [
      | inl e ↦ rw e s.0
      | inr more ↦
          let moved = find_moves start.before start.rest more (skip_no_space before rest) in
          rw more (
            Fits-weaker (length end.before + length end.rest) (length before + length rest) m m
              (after_key (length start.before) end.before end.rest) (omega (arith, s.0, f.0))
              (omega arith)
              (after_key-Fits (length start.before) end.before end.rest m (omega (arith, f.0))
                (omega (arith, l, s.1, f.1))
                (elim moved [ inl short ↦ inl (omega (arith, l, s.1, short)) | inr eq ↦ inr eq ])))
    ]
