-- ===== src/Cli/Parse/Words/Reading.antt =====
-- A round of the parser that reads a whole printed word: cli/cmdline_parse.cc.
use components_mcu.Prelude.{
  ℕ, ◌+◌, true, not, ◌&&◌, some, [], ◌∷◌, ◌++◌, Bytes, ◌==◌, length, length-append, replicate, ◌≡◌,
  refl, ap, ◌∙◌, arith,
}
use components_mcu.Cli.Parse.{Cursor, parm, terminate, round, after_key}
use components_mcu.Cli.Parse.Words.{
  Word, flag, plain, quoted, print, is_clean, is_quotable, is_printable, starts_value, is_global,
  entry,
}
use components_mcu.Cli.Parse.Words.Rounds.{
  starts_word, is_gap, is_gap-stops, and_true, round_key, after_key_flag, value_plain, value_quoted,
}

abbrev pub cursor : Bytes → Bytes → Cursor
cursor b r = record { before = b; rest = r }

-- Where a round stops that began a word behind `t`.
abbrev pub end : Bytes → Word → Bytes → Cursor
end t (flag k) r = cursor (t ++ k) r
end t (plain k v) r = terminate (((t ++ k) ++ 0 ∷ []) ++ v) r
end t (quoted k v) r = cursor (((((t ++ k) ++ 0 ∷ []) ++ b'"' ∷ []) ++ v) ++ 0 ∷ []) r

starts_word_flag :
    (k r : Bytes) → (is_clean k && not (length k == 0)) ≡ true → starts_word (k ++ r) ≡ true
starts_word_flag [] r h = absurd (ground arith)
starts_word_flag (c ∷ k) r h = ground arith

starts_word_key : (k r : Bytes) → is_clean k ≡ true → starts_word (k ++ b'=' ∷ r) ≡ true
starts_word_key [] r h = refl
starts_word_key (c ∷ k) r h = ground arith

val_at :
    (i j : ℕ) (key : ℕ) (c : Cursor)
    → i ≡ j
    → parm c (record { key = key; val = some i }) ≡ parm c (record { key = key; val = some j })
val_at i j key c e = ap (λ x. parm c (record { key = key; val = some x })) e

-- One round reads a printed word and the spaces before it.
pub round_word :
    (before : Bytes) (n : ℕ) (w : Word) (r : Bytes)
    → is_printable w ≡ true
    → is_gap r ≡ true
    → round before (replicate n b' ' ++ print w r)
      ≡ parm (end (before ++ replicate n 0) w r) (entry (length (before ++ replicate n 0)) w)
unfolding print after_key
round_word before n (flag k) r p g =
    let t = before ++ replicate n 0 in
    let both = and_true (is_clean k) (not (length k == 0)) p in
    round_key before n k r both.0 (is_gap-stops r g) (starts_word_flag k r p)
    ∙ after_key_flag (length t) (t ++ k) r g
round_word before n (plain k v) r p g =
    let t = before ++ replicate n 0 in
    let both = and_true (is_clean k) (not (is_global k) && (is_clean v && starts_value v)) p in
    let more = and_true (not (is_global k)) (is_clean v && starts_value v) both.1 in
    let val = and_true (is_clean v) (starts_value v) more.1 in
    let b = (t ++ k) ++ 0 ∷ [] in
    round_key before n k (b'=' ∷ (v ++ r)) both.0 refl (starts_word_key k (v ++ r) both.0)
    ∙ (value_plain (length t) b v r val.0 val.1 g
        ∙ val_at (length b) (length t + (length k + 1)) (length t) (end t (plain k v) r)
            (omega (arith, length-append (t ++ k) (0 ∷ []), length-append t k)))
round_word before n (quoted k v) r p g =
    let t = before ++ replicate n 0 in
    let both = and_true (is_clean k) (not (is_global k) && is_quotable v) p in
    let more = and_true (not (is_global k)) (is_quotable v) both.1 in
    let b = (t ++ k) ++ 0 ∷ [] in
    round_key before n k (b'=' ∷ b'"' ∷ (v ++ b'"' ∷ r)) both.0 refl
      (starts_word_key k (b'"' ∷ (v ++ b'"' ∷ r)) both.0)
    ∙ (value_quoted (length t) b v r more.1
        ∙ val_at (length (b ++ b'"' ∷ [])) (length t + (length k + 2)) (length t)
            (end t (quoted k v) r)
            (omega (
              arith,
              length-append b (b'"' ∷ []),
              length-append (t ++ k) (0 ∷ []),
              length-append t k,
            )))
