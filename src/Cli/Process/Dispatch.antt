-- ===== src/Cli/Process/Dispatch.antt =====
-- What a printed command line makes cli/cmdline_process.cc do.
use components_mcu.Prelude.{
  ℕ, ◌≤◌, ◌<◌, true, Option, some, List, [], ◌∷◌, Bytes, if◌then◌else◌, length, map, ◌≡◌, refl, ap,
  arith,
}
use components_mcu.Cli.Parse.{Clpar}
use components_mcu.Cli.Parse.Words.{
  Word, print_line, are_printable, meanings, meaning, strings, Entry,
}
use components_mcu.Cli.Parse.Words.RoundTrip.{cli_parse_commandline_full}
use components_mcu.Cli.Parse.Words.Strings.{cli_parse_commandline-print_line}
use components_mcu.Cli.Process.{
  replied_failure, opened, closed, published, processed, Setup, refused, respond, respond_parsed,
  cli_process_cmdline, cli_process_parameters, run_handler,
}

-- A printed line of 20 words or more is answered with a failure, and nothing is processed.
cli_process_cmdline_full :
    (atoi : Bytes → ℕ) (setup : Setup) (n : ℕ) (ws : List (Word × ℕ))
    → are_printable ws ≡ true
    → 20 ≤ length ws
    → cli_process_cmdline atoi setup (print_line n ws) ≡ replied_failure ∷ []
unfolding cli_process_cmdline respond_parsed respond
cli_process_cmdline_full atoi setup n ws h l =
    let (r, (parses, fails)) = cli_parse_commandline_full atoi 20 n ws h l in
    rw (parses, fails) refl

-- A printed line of one word or more, none of them the global option. With up to 19 words, the password
-- hook gets the line with an array whose strings are the words: where it refuses these, nothing
-- happens, and where it does not, they are processed once, between the opening and the closing of
-- the output, and what is sent to a web socket follows, if the output opens. With 20 words or more
-- the answer is a failure, and nothing is processed.
pub cli_process_cmdline-print_line :
    (atoi : Bytes → ℕ) (setup : Setup) (n : ℕ) (w : Word × ℕ) (ws : List (Word × ℕ))
    → are_printable (w ∷ ws) ≡ true
    → (length (w ∷ ws) < 20
        → (line : Bytes) × ((par : List Clpar) × ((map (strings line) par ≡ meanings (w ∷ ws))
              × (cli_process_cmdline atoi setup (print_line n (w ∷ ws)) ≡ (
                  if refused setup line par
                  then []
                  else if setup.root_open
                  then opened
                    ∷ processed line par
                    ∷ closed
                    ∷ (if setup.to_ws then published ∷ [] else [])
                  else [])))))
      × (20 ≤ length (w ∷ ws)
          → cli_process_cmdline atoi setup (print_line n (w ∷ ws)) ≡ replied_failure ∷ [])
unfolding cli_process_cmdline respond_parsed respond
cli_process_cmdline-print_line atoi setup n w ws h = (
  λ l.
      let (r, (parses, (result, (id, words)))) =
        cli_parse_commandline-print_line atoi 20 n (w ∷ ws) h l in
      (r.line, (r.par, (words, rw (parses, result) refl))),
  λ l. cli_process_cmdline_full atoi setup n (w ∷ ws) h l,
)

abbrev first_key : List Entry → Bytes
first_key [] = []
first_key (e ∷ es) = e.0

-- Parameters whose strings are the words of a line are given to the handler that is found for the key of
-- the first word, and the result is what that handler returns, or -1 where none is found.
pub cli_process_parameters-meanings :
    {R : Type 0} (failed : R) (find : Bytes → Option (Bytes → List Clpar → R)) (line : Bytes)
    (par : List Clpar) (w : Word × ℕ) (ws : List (Word × ℕ))
    → map (strings line) par ≡ meanings (w ∷ ws)
    → cli_process_parameters failed (some find) line par
      ≡ run_handler failed (find (meaning w.0).0) line par
unfolding cli_process_parameters
cli_process_parameters-meanings failed find line [] w ws h = absurd (omega (arith, ap length h))
cli_process_parameters-meanings failed find line (p ∷ par) w ws h =
    ap (λ k. run_handler failed (find k) line (p ∷ par)) (ap first_key h)
