-- ===== src/Cli/Line/Tests.antt =====
-- Runs of the reader of cli/, and its theorems at inputs where their hypotheses hold.
use mathlib.Core.Option
use components_mcu.Prelude.{
  ℕ, Bool, true, false, some, [], ◌∷◌, ◌++◌, Bytes, codes, c_str, ltb, ◌==◌, ◌&&◌, not,
  if◌then◌else◌, inr, ◌≡◌, refl, arith,
}
use components_mcu.Cli.Line.{Fetched, null_buf, cli_get_commandline, get_commandline}
use components_mcu.Cli.Line.Editor.{edit}
use components_mcu.Cli.Line.Session.{Ready, Fetches, get_commandline-Fetches}
use components_mcu.Cli.Line.Heap.{resize, resize-ReallocLaws, resize-ne-none}
use components_mcu.Cli.Line.Entering.{IsLine, closed, byte, get_commandline_line}

abbrev may_type : Bool → ℕ → Bool
may_type odd c =
    ltb c 256
    && not (c == 0)
    && not (c == 8)
    && not (c == b'\r')
    && not (c == b'\n')
    && not ((c == b';') && not odd)

typed :
    {l : Bytes} (odd : Bool) (c : ℕ)
    → may_type odd c ≡ true
    → IsLine (if c == b'"' then not odd else odd) l
    → IsLine odd (c ∷ l)
typed odd c h q =
    byte (ground arith) (ground arith) (ground arith) (ground arith) (ground arith) (ground arith) q

abbrev word : Bytes
word = codes "a\";\""

word-IsLine : IsLine false word
word-IsLine = typed false _ refl (typed false _ refl (typed true _ refl (typed true _ refl closed)))

-- The terminator inside of quotes does not end the line, and a backspace takes a byte back.
typed_and_erased :
    Option.map
      (λ (r : Fetched). Option.map c_str r.line)
      (get_commandline resize 12 false null_buf (codes "a\";x" ++ 8 ∷ codes "\";b"))
    ≡ some (some word)
unfolding get_commandline cli_get_commandline
typed_and_erased = refl

get_commandline-Fetches_example :
    (r : Fetched) × (get_commandline resize 12 false null_buf (codes "ab;cd") ≡ some r)
    × Fetches resize resize-ReallocLaws false (edit false [] (codes "ab;cd")) r
get_commandline-Fetches_example =
    get_commandline-Fetches resize resize-ReallocLaws false 12 null_buf [] (codes "ab;cd")
      (inr (refl, refl)) (omega arith) (omega arith) (omega arith)

get_commandline_line_example :
    (r : Fetched) × (get_commandline resize 12 false null_buf (word ++ b';' ∷ codes "c") ≡ some r)
    × (Option.map c_str r.line ≡ some word)
    × (r.rest ≡ codes "c")
    × Ready r.buf []
get_commandline_line_example =
    get_commandline_line resize resize-ReallocLaws resize-ne-none false 12 null_buf word (codes "c")
      (inr (refl, refl)) word-IsLine (λ e. cc) (omega arith) (omega arith) (omega arith)
