-- ===== src/Cli/Parse/Words/Strings.antt =====
-- The strings that the parser of cli/cmdline_parse.cc leaves in a printed line.
use components_mcu.Prelude.{
  ℕ, suc, ◌+◌, ◌<◌, Bool, true, not, ◌&&◌, none, some, List, [], ◌∷◌, ◌++◌, append-nil,
  append_assoc, Bytes, c_str, ◌==◌, length, length-append, length-replicate, replicate, ◌≡◌, refl,
  sym, ap, ap₂, ◌∙◌, arith, map, get_or,
}
use components_mcu.Cli.Parse.{Parsed, cli_parse_commandline, string_at}
use components_mcu.Cli.Parse.Words.{
  Word, flag, plain, quoted, print_line, is_clean, is_quotable, is_printable, are_printable,
  starts_value, is_global, blank, blank_line, entry, entries, word_length, meaning, meanings,
  strings,
}
use components_mcu.Cli.Parse.Words.Rounds.{and_true}
use components_mcu.Cli.Parse.Words.Onward.{
  drop_front, has_no_nul, c_str_whole, c_str_ended, clean_no_nul, quotable_no_nul, words_fit,
}
use components_mcu.Cli.Parse.Words.RoundTrip.{parsed, parse_words}

-- The end of the line or a NUL.
abbrev is_end : Bytes → Bool
is_end r = get_or r 0 0 == 0

is_end-blank_line : (g : ℕ) (ws : List (Word × ℕ)) → is_end (blank_line (suc g) ws) ≡ true
unfolding blank_line
is_end-blank_line g [] = refl
is_end-blank_line g ((w, h) ∷ ws) = refl

c_str_at_end : (k r : Bytes) → has_no_nul k ≡ true → is_end r ≡ true → c_str (k ++ r) ≡ k
c_str_at_end k [] h e = ap c_str (append-nil k) ∙ c_str_whole k h
c_str_at_end k (c ∷ r) h e =
    let nul : c ≡ 0 = ground arith in ap (λ x. c_str (k ++ x ∷ r)) nul ∙ c_str_ended k r h

read_string :
    (line : Bytes) (i : ℕ) (t k r : Bytes)
    → has_no_nul k ≡ true
    → is_end r ≡ true
    → line ≡ t ++ (k ++ r)
    → i ≡ length t
    → string_at line i ≡ k
read_string line i t k r h e l p =
    ap₂ string_at l p ∙ (ap c_str (drop_front t (k ++ r)) ∙ c_str_at_end k r h e)

strings_word :
    (t : Bytes) (w : Word) (r : Bytes)
    → is_printable w ≡ true
    → is_end r ≡ true
    → strings (t ++ blank w r) (entry (length t) w) ≡ meaning w
unfolding blank
strings_word t (flag k) r h e =
    let clean = (and_true (is_clean k) (not (length k == 0)) h).0 in
    ap (λ x. (x, none))
      (read_string (t ++ (k ++ r)) (length t) t k r (clean_no_nul k clean) e refl refl)
strings_word t (plain k v) r h e =
    let both = and_true (is_clean k) (not (is_global k) && (is_clean v && starts_value v)) h in
    let more = and_true (not (is_global k)) (is_clean v && starts_value v) both.1 in
    let val = and_true (is_clean v) (starts_value v) more.1 in
    let line = t ++ (k ++ 0 ∷ (v ++ r)) in
    ap₂ (λ x y. (x, some y))
      (read_string line (length t) t k (0 ∷ (v ++ r)) (clean_no_nul k both.0) refl refl refl)
      (read_string line (length t + (length k + 1)) ((t ++ k) ++ 0 ∷ []) v r (clean_no_nul v val.0)
        e (simp append_assoc) (omega (arith, length-append (t ++ k) (0 ∷ []), length-append t k)))
strings_word t (quoted k v) r h e =
    let both = and_true (is_clean k) (not (is_global k) && is_quotable v) h in
    let more = and_true (not (is_global k)) (is_quotable v) both.1 in
    let line = t ++ (k ++ 0 ∷ b'"' ∷ (v ++ 0 ∷ r)) in
    ap₂ (λ x y. (x, some y))
      (read_string line (length t) t k (0 ∷ b'"' ∷ (v ++ 0 ∷ r)) (clean_no_nul k both.0) refl refl
        refl)
      (read_string line (length t + (length k + 2)) ((t ++ k) ++ 0 ∷ b'"' ∷ []) v (0 ∷ r)
        (quotable_no_nul v more.1) refl (simp append_assoc)
        (omega (arith, length-append (t ++ k) (0 ∷ b'"' ∷ []), length-append t k)))

blank_nil : (w : Word) (r : Bytes) → blank w [] ++ r ≡ blank w r
unfolding blank
blank_nil (flag k) r = simp append_assoc
blank_nil (plain k v) r = simp append_assoc
blank_nil (quoted k v) r = simp append_assoc

length-blank : (w : Word) → length (blank w []) ≡ word_length w
unfolding blank
length-blank (flag k) = ap length (append-nil k)
length-blank (plain k v) = omega (arith, length-append k (0 ∷ (v ++ [])), length-append v [])
length-blank (quoted k v) =
    omega (arith, length-append k (0 ∷ b'"' ∷ (v ++ 0 ∷ [])), length-append v (0 ∷ []))

strings_line :
    (ws : List (Word × ℕ)) (before : Bytes) (n : ℕ)
    → are_printable ws ≡ true
    → map (strings (before ++ blank_line n ws)) (entries (length before + n) ws) ≡ meanings ws
unfolding blank_line
strings_line [] before n h = refl
strings_line ((w, g) ∷ ws) before n h =
    let both = and_true (is_printable w) (are_printable ws) h in
    let t = before ++ replicate n 0 in
    let rest = blank_line (suc g) ws in
    let start : length before + n ≡ length t =
      sym (
        length-append before (replicate n 0)
        ∙ ap (λ k. length before + k) (length-replicate n 0)) in
    let line : before ++ (replicate n 0 ++ blank w rest) ≡ t ++ blank w rest =
      sym (append_assoc before (replicate n 0) (blank w rest)) in
    let next : before ++ (replicate n 0 ++ blank w rest) ≡ (t ++ blank w []) ++ rest =
      line ∙ (ap (◌++◌ t) (sym (blank_nil w rest)) ∙ sym (append_assoc t (blank w []) rest)) in
    let place : (length before + n) + (word_length w + suc g) ≡ length (t ++ blank w []) + suc g =
      omega (arith, start, length-append t (blank w []), length-blank w) in
    ap₂ (◌∷◌)
      (ap₂ (λ l i. strings l (entry i w)) line start
        ∙ strings_word t w rest both.0 (is_end-blank_line g ws))
      (ap₂ (λ l i. map (strings l) (entries i ws)) next place
        ∙ strings_line ws (t ++ blank w []) (suc g) both.1)

length-entries : (i : ℕ) (ws : List (Word × ℕ)) → length (entries i ws) ≡ length ws
length-entries i [] = refl
length-entries i ((w, g) ∷ ws) = ap suc (length-entries (i + (word_length w + suc g)) ws)

-- Parsing a printed command line of fewer words than the array has entries, none of them the global
-- option "mid", gives back the words: the result is their number, and the strings that the
-- entries point to in the line are the keys and the values.
pub cli_parse_commandline-print_line :
    (atoi : Bytes → ℕ) (size n : ℕ) (ws : List (Word × ℕ))
    → are_printable ws ≡ true
    → length ws < size
    → (r : Parsed) × ((cli_parse_commandline atoi size (print_line n ws) ≡ some r)
        × ((r.result ≡ some (length ws))
            × ((r.msgid ≡ 0) × (map (strings r.line) r.par ≡ meanings ws))))
unfolding cli_parse_commandline
cli_parse_commandline-print_line atoi size n ws h l = (
  parsed (entries (0 + n) ws) 0 (blank_line n ws),
  (
    parse_words atoi size ws (suc (length (print_line n ws))) [] 0 [] n h
        (omega (arith, words_fit n ws h)) (omega (arith, l)),
    (ap some (length-entries (0 + n) ws), (refl, strings_line ws [] n h)),
  ),
)
