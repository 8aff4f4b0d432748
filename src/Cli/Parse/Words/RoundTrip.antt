-- ===== src/Cli/Parse/Words/RoundTrip.antt =====
-- Parsing a printed command line gives back its words: cli/cmdline_parse.cc.
use components_mcu.Prelude.{
  ℕ, zero, suc, ◌+◌, ◌≤◌, ◌<◌, true, false, none, some, List, [], ◌∷◌, ◌++◌, append-nil,
  append_assoc, Bytes, ltb, length, length-append, length-replicate, replicate, ◌≡◌, refl, ap, ap₂,
  ◌∙◌, arith, Bool-cases, inl, inr,
}
use components_mcu.Cli.Parse.{Clpar, Parsed, stop, register, settle, parse, cli_parse_commandline}
use components_mcu.Cli.Parse.Words.{
  Word, print_line, is_printable, are_printable, blank, blank_line, entry, entries,
}
use components_mcu.Cli.Parse.Words.Rounds.{and_true}
use components_mcu.Cli.Parse.Words.Reading.{cursor, end, round_word}
use components_mcu.Cli.Parse.Words.Onward.{gap_print_line, onward, global_word, words_fit}

abbrev pub parsed : List Clpar → ℕ → Bytes → Parsed
parsed par msgid line = record { result = some (length par); par = par; line = line; msgid = msgid }

module _ (atoi : Bytes → ℕ) (size : ℕ) where
  -- A round takes a printed word into the array.
  parse_word :
      (fuel : ℕ) (par : List Clpar) (msgid : ℕ) (before : Bytes) (n g : ℕ) (w : Word)
      (ws : List (Word × ℕ))
      → is_printable w ≡ true
      → length par < size
      → parse atoi (suc fuel) size par msgid before (print_line n ((w, g) ∷ ws))
        ≡ parse atoi fuel size
            (par ++ entry (length (before ++ replicate n 0)) w ∷ [])
            msgid
            (end (before ++ replicate n 0) w (print_line (suc g) ws)).before
            (end (before ++ replicate n 0) w (print_line (suc g) ws)).rest
  unfolding parse print_line settle register
  parse_word fuel par msgid before n g w ws h l =
      let t = before ++ replicate n 0 in
      let lt : ltb (length par) size ≡ true = ground arith in
      rw
        (
          lt,
          round_word before n w (print_line (suc g) ws) h (gap_print_line g ws),
          global_word t w g ws h,
        )
        refl

  pub parse_words :
      (ws : List (Word × ℕ)) (fuel : ℕ) (par : List Clpar) (msgid : ℕ) (before : Bytes) (n : ℕ)
      → are_printable ws ≡ true
      → length ws < fuel
      → length par + length ws < size
      → parse atoi fuel size par msgid before (print_line n ws)
        ≡ some (parsed (par ++ entries (length before + n) ws) msgid (before ++ blank_line n ws))
  unfolding print_line blank_line parse settle
  parse_words ws zero par msgid before n h f l = absurd (omega (arith, f))
  parse_words [] (suc fuel) par msgid before n h f l =
      let lt : ltb (length par) size ≡ true = ground arith in rw (lt, append-nil par) refl
  parse_words ((w, g) ∷ ws) (suc fuel) par msgid before n h f l =
      let both = and_true (is_printable w) (are_printable ws) h in
      let t = before ++ replicate n 0 in
      let q = entry (length t) w in
      let c = end t w (print_line (suc g) ws) in
      let (m, (rest, (line, place))) = onward t w g ws in
      let start : length t ≡ length before + n =
        length-append before (replicate n 0) ∙ ap (λ k. length before + k) (length-replicate n 0) in
      let all : (par ++ q ∷ []) ++ entries (length c.before + m) ws
          ≡ par ++ entries (length before + n) ((w, g) ∷ ws) =
        append_assoc par (q ∷ []) (entries (length c.before + m) ws)
        ∙ (ap (λ i. par ++ q ∷ entries i ws) place
            ∙ ap (λ i. par ++ entries i ((w, g) ∷ ws)) start) in
      parse_word fuel par msgid before n g w ws both.0 (omega (arith, l))
      ∙ (ap (parse atoi fuel size (par ++ q ∷ []) msgid c.before) rest
          ∙ (parse_words ws fuel (par ++ q ∷ []) msgid c.before m both.1 (omega (arith, f))
                (omega (arith, l, length-append par (q ∷ [])))
              ∙ ap₂ (λ p b. some (parsed p msgid b)) all
                  (line ∙ append_assoc before (replicate n 0) (blank w (blank_line (suc g) ws)))))

  -- The array is full before the words are at an end.
  parse_full :
      (ws : List (Word × ℕ)) (fuel : ℕ) (par : List Clpar) (msgid : ℕ) (before : Bytes) (n : ℕ)
      → are_printable ws ≡ true
      → length ws < fuel
      → length par ≤ size
      → size ≤ length par + length ws
      → (r : Parsed) × ((parse atoi fuel size par msgid before (print_line n ws) ≡ some r)
          × (r.result ≡ none))
  unfolding print_line parse
  parse_full ws zero par msgid before n h f l m = absurd (omega (arith, f))
  parse_full [] (suc fuel) par msgid before n h f l m =
      let full : ltb (length par) size ≡ false = ground arith in
      rw full (stop none par msgid (cursor before []), (refl, refl))
  parse_full ((w, g) ∷ ws) (suc fuel) par msgid before n h f l m =
      let both = and_true (is_printable w) (are_printable ws) h in
      let t = before ++ replicate n 0 in
      let q = entry (length t) w in
      let c = end t w (print_line (suc g) ws) in
      let (k, (rest, (line, place))) = onward t w g ws in
      elim (Bool-cases (ltb (length par) size)) [
        | inl lt ↦
            let (r, (returns, result)) =
              parse_full ws fuel (par ++ q ∷ []) msgid c.before k both.1 (omega (arith, f))
                (let e = length-append par (q ∷ []) in ground arith)
                (omega (arith, m, length-append par (q ∷ []))) in
            (
              r,
              (
                parse_word fuel par msgid before n g w ws both.0 (ground arith)
                    ∙ (ap (parse atoi fuel size (par ++ q ∷ []) msgid c.before) rest ∙ returns),
                result,
              ),
            )
        | inr full ↦
            rw full (stop none par msgid (cursor before (print_line n ((w, g) ∷ ws))), (refl, refl))
      ]

-- A printed command line with as many words as the array has entries, or more, is refused.
pub cli_parse_commandline_full :
    (atoi : Bytes → ℕ) (size n : ℕ) (ws : List (Word × ℕ))
    → are_printable ws ≡ true
    → size ≤ length ws
    → (r : Parsed) × ((cli_parse_commandline atoi size (print_line n ws) ≡ some r)
        × (r.result ≡ none))
unfolding cli_parse_commandline
cli_parse_commandline_full atoi size n ws h l =
    parse_full atoi size ws (suc (length (print_line n ws))) [] 0 [] n h
      (omega (arith, words_fit n ws h)) (omega arith) (omega (arith, l))
