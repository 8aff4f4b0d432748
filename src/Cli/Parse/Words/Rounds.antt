-- ===== src/Cli/Parse/Words/Rounds.antt =====
-- One round of the parser of cli/cmdline_parse.cc on a printed word.
use components_mcu.Prelude.{
  ℕ, zero, suc, Bool, true, false, not, ◌&&◌, ◌||◌, none, some, [], ◌∷◌, ◌++◌, append-nil,
  append_assoc, Bytes, ◌==◌, if◌then◌else◌, length, replicate, ◌≡◌, refl, sym, ap, ◌∙◌, arith,
}
use components_mcu.Cli.Parse.{
  Cursor, failed, parm, is_eol, skip_leading_whitespace, ends_word, find_next_space_eq_eol,
  find_quote, terminate, terminated, value, after_key, round,
}
use components_mcu.Cli.Parse.Words.{is_clean, is_quotable, starts_value}

abbrev cursor : Bytes → Bytes → Cursor
cursor b r = record { before = b; rest = r }

-- Neither the end of a line nor a space.
abbrev pub starts_word : Bytes → Bool
starts_word [] = false
starts_word (c ∷ cs) = not ((c == 0) || (c == b' '))

abbrev pub stops : Bytes → Bool
stops [] = true
stops (c ∷ cs) = ends_word c

-- The end of the line or a space.
abbrev pub is_gap : Bytes → Bool
is_gap [] = true
is_gap (c ∷ cs) = c == b' '

skip_word :
    (before s : Bytes) → starts_word s ≡ true → skip_leading_whitespace before s ≡ cursor before s
unfolding skip_leading_whitespace
skip_word before [] h = refl
skip_word before (c ∷ cs) h = let other : (c == b' ') ≡ false = ground arith in rw other refl

skip_spaces :
    (before : Bytes) (n : ℕ) (s : Bytes)
    → starts_word s ≡ true
    → skip_leading_whitespace before (replicate n b' ' ++ s) ≡ cursor (before ++ replicate n 0) s
unfolding skip_leading_whitespace
skip_spaces before zero s h = skip_word before s h ∙ ap (λ b. cursor b s) (sym (append-nil before))
skip_spaces before (suc n) s h =
    skip_spaces (before ++ 0 ∷ []) n s h
    ∙ ap (λ b. cursor b s) (append_assoc before (0 ∷ []) (replicate n 0))

pub and_true : (x y : Bool) → (x && y) ≡ true → (x ≡ true) × (y ≡ true)
and_true x y h = ground arith

find_clean :
    (before k s : Bytes)
    → is_clean k ≡ true
    → stops s ≡ true
    → find_next_space_eq_eol before (k ++ s) ≡ cursor (before ++ k) s
unfolding find_next_space_eq_eol
find_clean before [] [] h t = ap (λ b. cursor b []) (sym (append-nil before))
find_clean before [] (d ∷ s) h t = rw t (ap (λ b. cursor b (d ∷ s)) (sym (append-nil before)))
find_clean before (c ∷ k) s h t =
    let both = and_true (not (ends_word c)) (is_clean k) h in
    let on : ends_word c ≡ false = ground arith in
    rw on (
      find_clean (before ++ c ∷ []) k s both.1 t
      ∙ ap (λ b. cursor b s) (append_assoc before (c ∷ []) k))

find_quote_quotable :
    (before v s : Bytes)
    → is_quotable v ≡ true
    → find_quote before (v ++ b'"' ∷ s) ≡ some (cursor (before ++ v) (b'"' ∷ s))
unfolding find_quote
find_quote_quotable before [] s h = ap (λ b. some (cursor b (b'"' ∷ s))) (sym (append-nil before))
find_quote_quotable before (c ∷ v) s h =
    let both = and_true (not ((c == 0) || (c == b'"'))) (is_quotable v) h in
    let no_nul : (c == 0) ≡ false = ground arith in
    let no_quote : (c == b'"') ≡ false = ground arith in
    rw (no_nul, no_quote)
      (find_quote_quotable (before ++ c ∷ []) v s both.1
        ∙ ap (λ b. some (cursor b (b'"' ∷ s))) (append_assoc before (c ∷ []) v))

starts_word-is_eol : (s : Bytes) → starts_word s ≡ true → is_eol s ≡ false
starts_word-is_eol [] h = absurd (ground arith)
starts_word-is_eol (c ∷ cs) h = ground arith

-- A round reads the spaces and the key.
pub round_key :
    (before : Bytes) (n : ℕ) (k s : Bytes)
    → is_clean k ≡ true
    → stops s ≡ true
    → starts_word (k ++ s) ≡ true
    → round before (replicate n b' ' ++ (k ++ s))
      ≡ after_key (length (before ++ replicate n 0)) ((before ++ replicate n 0) ++ k) s
unfolding round
round_key before n k s h t w =
    rw
      (
        skip_spaces before n (k ++ s) w,
        starts_word-is_eol (k ++ s) w,
        find_clean (before ++ replicate n 0) k s h t,
      )
      refl

-- Behind a key alone.
pub after_key_flag :
    (key : ℕ) (before s : Bytes)
    → is_gap s ≡ true
    → after_key key before s ≡ parm (cursor before s) (record { key = key; val = none })
unfolding after_key
after_key_flag key before [] h = refl
after_key_flag key before (c ∷ cs) h =
    let other : (c == b'=') ≡ false = ground arith in rw other refl

pub is_gap-stops : (s : Bytes) → is_gap s ≡ true → stops s ≡ true
is_gap-stops [] h = refl
is_gap-stops (c ∷ cs) h = ground arith

value_word :
    (key : ℕ) (before v s : Bytes)
    → is_clean v ≡ true
    → is_gap s ≡ true
    → is_eol (v ++ s) ≡ false
    → (if is_eol (v ++ s)
        then failed (cursor before (v ++ s))
        else terminated key
            (cursor before (v ++ s))
            (some (find_next_space_eq_eol before (v ++ s))))
      ≡ parm (terminate (before ++ v) s) (record { key = key; val = some (length before) })
unfolding terminated
value_word key before v s h g e = rw (e, find_clean before v s h (is_gap-stops s g)) refl

-- Behind an equals sign, a value without quotes.
pub value_plain :
    (key : ℕ) (before v s : Bytes)
    → is_clean v ≡ true
    → starts_value v ≡ true
    → is_gap s ≡ true
    → value key before (v ++ s)
      ≡ parm (terminate (before ++ v) s) (record { key = key; val = some (length before) })
unfolding value terminated
value_plain key before [] s h w g = absurd (ground arith)
value_plain key before (c ∷ v) s h w g =
    let start : ((c == b';') || (c == b' ')) ≡ false = ground arith in
    let no_quote : (c == b'"') ≡ false = ground arith in
    rw (start, no_quote) (value_word key before (c ∷ v) s h g (ground arith))

quotable_more : (v s : Bytes) → is_quotable v ≡ true → is_eol (v ++ b'"' ∷ s) ≡ false
quotable_more [] s h = refl
quotable_more (c ∷ v) s h = ground arith

-- Behind an equals sign, a quoted value.
pub value_quoted :
    (key : ℕ) (before v s : Bytes)
    → is_quotable v ≡ true
    → value key before (b'"' ∷ (v ++ b'"' ∷ s))
      ≡ parm
          (cursor (((before ++ b'"' ∷ []) ++ v) ++ 0 ∷ []) s)
          (record { key = key; val = some (length (before ++ b'"' ∷ [])) })
unfolding value terminated terminate
value_quoted key before v s h =
    rw (quotable_more v s h, find_quote_quotable (before ++ b'"' ∷ []) v s h) refl
