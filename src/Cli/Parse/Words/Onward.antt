-- ===== src/Cli/Parse/Words/Onward.antt =====
-- Between two words of a printed command line: where the parser of cli/cmdline_parse.cc goes on, and
-- that it takes no key for the global option.
use components_mcu.Prelude.{
  ℕ, suc, ◌+◌, ◌≤◌, ◌<◌, Bool, true, false, not, ◌&&◌, ◌||◌, Option, none, List, [], ◌∷◌, ◌++◌,
  append_assoc, Bytes, c_str, ◌==◌, length, drop, length-append, replicate, ◌≡◌, refl, ap, ◌∙◌,
  arith, Bool-cases, inl, inr,
}
use components_mcu.Cli.Parse.{global_option, string_at, terminate, ends_word}
use components_mcu.Cli.Parse.Words.{
  Word, flag, plain, quoted, print, print_line, is_clean, is_quotable, is_printable, are_printable,
  starts_value, is_global, blank, blank_line, entry, word_length, all_of,
}
use components_mcu.Cli.Parse.Words.Rounds.{is_gap, and_true}
use components_mcu.Cli.Parse.Words.Reading.{end}

pub gap_print_line : (g : ℕ) (ws : List (Word × ℕ)) → is_gap (print_line (suc g) ws) ≡ true
unfolding print_line
gap_print_line g [] = refl
gap_print_line g ((w, h) ∷ ws) = refl

pub drop_front : (t r : Bytes) → drop (length t) (t ++ r) ≡ r
drop_front [] r = refl
drop_front (c ∷ t) r = drop_front t r

abbrev pub has_no_nul : Bytes → Bool
has_no_nul = all_of (λ c. not (c == 0))

pub c_str_whole : (k : Bytes) → has_no_nul k ≡ true → c_str k ≡ k
c_str_whole [] h = refl
c_str_whole (c ∷ k) h =
    let both = and_true (not (c == 0)) (has_no_nul k) h in
    let on : (c == 0) ≡ false = ground arith in rw on (ap (◌∷◌ c) (c_str_whole k both.1))

pub c_str_ended : (k r : Bytes) → has_no_nul k ≡ true → c_str (k ++ 0 ∷ r) ≡ k
c_str_ended [] r h = refl
c_str_ended (c ∷ k) r h =
    let both = and_true (not (c == 0)) (has_no_nul k) h in
    let on : (c == 0) ≡ false = ground arith in rw on (ap (◌∷◌ c) (c_str_ended k r both.1))

pub clean_no_nul : (k : Bytes) → is_clean k ≡ true → has_no_nul k ≡ true
clean_no_nul [] h = refl
clean_no_nul (c ∷ k) h =
    let both = and_true (not (ends_word c)) (is_clean k) h in
    let ih = clean_no_nul k both.1 in ground arith

pub quotable_no_nul : (k : Bytes) → is_quotable k ≡ true → has_no_nul k ≡ true
quotable_no_nul [] h = refl
quotable_no_nul (c ∷ k) h =
    let both = and_true (not ((c == 0) || (c == b'"'))) (is_quotable k) h in
    let ih = quotable_no_nul k both.1 in ground arith

-- A string that a NUL ends is read back at its offset.
string_at_ended :
    (t k r : Bytes) → has_no_nul k ≡ true → string_at (t ++ (k ++ 0 ∷ r)) (length t) ≡ k
string_at_ended t k r h = ap c_str (drop_front t (k ++ 0 ∷ r)) ∙ c_str_ended k r h

-- Where the next word is looked for.
pub onward :
    (t : Bytes) (w : Word) (g : ℕ) (ws : List (Word × ℕ))
    → (m : ℕ) × (((end t w (print_line (suc g) ws)).rest ≡ print_line m ws)
        × (((end t w (print_line (suc g) ws)).before ++ blank_line m ws
              ≡ t ++ blank w (blank_line (suc g) ws))
            × (length (end t w (print_line (suc g) ws)).before + m
                ≡ length t + (word_length w + suc g))))
unfolding print_line blank_line terminate blank
onward t (flag k) g ws =
    (suc g, (refl, (append_assoc t k (blank_line (suc g) ws), omega (arith, length-append t k))))
onward t (quoted k v) g ws = (
  suc g,
  (
    refl,
    (
      simp append_assoc,
      omega (
        arith,
        length-append ((((t ++ k) ++ 0 ∷ []) ++ b'"' ∷ []) ++ v) (0 ∷ []),
        length-append (((t ++ k) ++ 0 ∷ []) ++ b'"' ∷ []) v,
        length-append ((t ++ k) ++ 0 ∷ []) (b'"' ∷ []),
        length-append (t ++ k) (0 ∷ []),
        length-append t k,
      ),
    ),
  ),
)
onward t (plain k v) g [] = (
  suc g,
  (
    refl,
    (
      simp append_assoc,
      omega (
        arith,
        length-append ((t ++ k) ++ 0 ∷ []) v,
        length-append (t ++ k) (0 ∷ []),
        length-append t k,
      ),
    ),
  ),
)
onward t (plain k v) g (x ∷ ws) = (
  g,
  (
    refl,
    (
      simp append_assoc,
      omega (
        arith,
        length-append (((t ++ k) ++ 0 ∷ []) ++ v) (0 ∷ []),
        length-append ((t ++ k) ++ 0 ∷ []) v,
        length-append (t ++ k) (0 ∷ []),
        length-append t k,
      ),
    ),
  ),
)

-- The key of a printed word is not "mid".
global_key :
    (t k r line : Bytes) (v : Option ℕ)
    → is_clean k ≡ true
    → not (is_global k) ≡ true
    → line ≡ t ++ (k ++ 0 ∷ r)
    → global_option line (record { key = length t; val = v }) ≡ none
unfolding global_option
global_key t k r line v c g e =
    let at : string_at line (length t) ≡ k =
      ap (λ l. string_at l (length t)) e ∙ string_at_ended t k r (clean_no_nul k c) in
    let local : is_global k ≡ false = ground arith in rw (at, local) refl

no_value : (line : Bytes) (key : ℕ) → global_option line (record { key = key; val = none }) ≡ none
unfolding global_option
no_value line key = elim (Bool-cases (is_global (string_at line key))) [
  | inl mid ↦ rw mid refl
  | inr other ↦ rw other refl
]

pub global_word :
    (t : Bytes) (w : Word) (g : ℕ) (ws : List (Word × ℕ))
    → is_printable w ≡ true
    → global_option
        ((end t w (print_line (suc g) ws)).before ++ (end t w (print_line (suc g) ws)).rest)
        (entry (length t) w)
      ≡ none
unfolding print_line terminate
global_word t (flag k) g ws h = no_value ((t ++ k) ++ print_line (suc g) ws) (length t)
global_word t (quoted k v) g ws h =
    let both = and_true (is_clean k) (not (is_global k) && is_quotable v) h in
    let more = and_true (not (is_global k)) (is_quotable v) both.1 in
    global_key t k (b'"' ∷ (v ++ 0 ∷ print_line (suc g) ws)) _ _ both.0 more.0 (simp append_assoc)
global_word t (plain k v) g [] h =
    let both = and_true (is_clean k) (not (is_global k) && (is_clean v && starts_value v)) h in
    let more = and_true (not (is_global k)) (is_clean v && starts_value v) both.1 in
    global_key t k (v ++ []) _ _ both.0 more.0 (simp append_assoc)
global_word t (plain k v) g (x ∷ ws) h =
    let both = and_true (is_clean k) (not (is_global k) && (is_clean v && starts_value v)) h in
    let more = and_true (not (is_global k)) (is_clean v && starts_value v) both.1 in
    global_key t k (v ++ 0 ∷ print_line g (x ∷ ws)) _ _ both.0 more.0 (simp append_assoc)

word_fits : (w : Word) (r : Bytes) → is_printable w ≡ true → length r < length (print w r)
unfolding print
word_fits (flag []) r h = absurd (ground arith)
word_fits (flag (c ∷ k)) r h = omega (arith, length-append k r)
word_fits (plain k v) r h = omega (arith, length-append k (b'=' ∷ (v ++ r)), length-append v r)
word_fits (quoted k v) r h =
    omega (arith, length-append k (b'=' ∷ b'"' ∷ (v ++ b'"' ∷ r)), length-append v (b'"' ∷ r))

pub words_fit :
    (n : ℕ) (ws : List (Word × ℕ)) → are_printable ws ≡ true → length ws ≤ length (print_line n ws)
unfolding print_line print
words_fit n [] h = omega arith
words_fit n ((w, g) ∷ ws) h =
    let both = and_true (is_printable w) (are_printable ws) h in
    omega (
      arith,
      words_fit (suc g) ws both.1,
      word_fits w (print_line (suc g) ws) both.0,
      length-append (replicate n b' ') (print w (print_line (suc g) ws)),
    )
