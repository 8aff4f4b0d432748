-- ===== src/Cli/Parse/Tests.antt =====
-- Concrete command lines for cli/cmdline_parse.cc.
use components_mcu.Prelude.{
  ℕ, none, some, List, [], ◌∷◌, Bytes, codes, length, map, ◌≡◌, refl, arith,
}
use components_mcu.Cli.Parse.{Parsed, cli_parse_commandline}
use components_mcu.Cli.Parse.Termination.{Returned, cli_parse_commandline-Returned}
use components_mcu.Cli.Parse.Words.{Word, flag, plain, quoted, print_line, meanings, strings}
use components_mcu.Cli.Parse.Words.Strings.{cli_parse_commandline-print_line}

abbrev atoi : Bytes → ℕ
atoi s = 7

abbrev shutter : List (Word × ℕ)
shutter =
    (flag (codes "send"), 0)
    ∷ (plain (codes "g") (codes "1"), 1)
    ∷ (quoted (codes "name") (codes "a b;"), 0)
    ∷ []

printed : print_line 1 shutter ≡ codes " send g=1  name=\"a b;\""
unfolding print_line
printed = refl

-- A value without quotes ends at an equals sign, and what follows is a new key.
second_equals :
    cli_parse_commandline atoi 20 (codes "a=b=c")
    ≡ some (record {
      result = some 2;
      par = record { key = 0; val = some 2 } ∷ record { key = 4; val = none } ∷ [];
      line = 97 ∷ 0 ∷ 98 ∷ 0 ∷ 99 ∷ [];
      msgid = 0;
    })
unfolding cli_parse_commandline
second_equals = refl

global_option_read :
    cli_parse_commandline atoi 20 (codes "mid=7 a")
    ≡ some (record {
      result = some 1;
      par = record { key = 6; val = none } ∷ [];
      line = 109 ∷ 105 ∷ 100 ∷ 0 ∷ 55 ∷ 0 ∷ 97 ∷ [];
      msgid = 7;
    })
unfolding cli_parse_commandline
global_option_read = refl

cli_parse_commandline-print_line_example :
    (r : Parsed) × ((cli_parse_commandline atoi 20 (print_line 1 shutter) ≡ some r)
      × ((r.result ≡ some 3) × ((r.msgid ≡ 0) × (map (strings r.line) r.par ≡ meanings shutter))))
cli_parse_commandline-print_line_example =
    cli_parse_commandline-print_line atoi 20 1 shutter refl (omega arith)

cli_parse_commandline-Returned_example :
    (r : Parsed) × ((cli_parse_commandline atoi 20 (codes "a=\"b") ≡ some r)
      × Returned (length (codes "a=\"b")) 20 r)
cli_parse_commandline-Returned_example = cli_parse_commandline-Returned atoi 20 (codes "a=\"b")
