-- ===== src/Cli/Process/Tests.antt =====
-- Concrete command lines for cli/cmdline_process.cc.
use components_mcu.Prelude.{
  length, ◌≤◌, ◌<◌, ◌==◌, ℕ, true, none, some, List, [], ◌∷◌, Bytes, codes, if◌then◌else◌, map, ◌≡◌,
  refl,
}
use components_mcu.Cli.Parse.{Clpar}
use components_mcu.Cli.Parse.Words.{Word, flag, plain, print_line, meanings, strings}
use components_mcu.Cli.Process.{
  refused, replied_failure, opened, closed, published, processed, Setup, cli_process_cmdline,
  asc2bool,
}
use components_mcu.Cli.Process.Dispatch.{cli_process_cmdline-print_line}

abbrev atoi : Bytes → ℕ
atoi s = 7

abbrev setup : Setup
setup = record {
  check_password = some (λ line par. length par == 2);
  root_open = true;
  to_ws = true;
}

abbrev first_word : Word × ℕ
first_word = (flag (codes "send"), 0)

abbrev later_words : List (Word × ℕ)
later_words = (plain (codes "g") (codes "1"), 0) ∷ []

keys_without_value : asc2bool none ≡ some true
unfolding asc2bool
keys_without_value = refl

cli_process_cmdline-print_line_example :
    (length (first_word ∷ later_words) < 20
      → (line : Bytes) × ((par : List Clpar) × ((map (strings line) par
              ≡ meanings (first_word ∷ later_words))
            × (cli_process_cmdline atoi setup (print_line 0 (first_word ∷ later_words)) ≡ (
                if refused setup line par
                then []
                else if setup.root_open
                then opened
                  ∷ processed line par
                  ∷ closed
                  ∷ (if setup.to_ws then published ∷ [] else [])
                else [])))))
    × (20 ≤ length (first_word ∷ later_words)
        → cli_process_cmdline atoi setup (print_line 0 (first_word ∷ later_words))
          ≡ replied_failure ∷ [])
cli_process_cmdline-print_line_example =
    cli_process_cmdline-print_line atoi setup 0 first_word later_words refl
