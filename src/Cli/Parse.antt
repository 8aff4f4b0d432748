-- ===== src/Cli/Parse.antt =====
-- Splitting a command line into keys and values in place: cli/cmdline_parse.cc.
-- The pointer `cl` into the line is a pair of what lies before it and what lies from it on; the
-- end of the list is the final NUL of the line, and a read there yields 0. A pointer that is stored
-- is an offset into the line, and a null pointer is `none`. `atoi` is a parameter.
pub mod Bounds
pub mod Termination
pub mod Words
mod Tests
use mathlib.Core.Option
use components_mcu.Prelude.{
  ℕ, zero, suc, ◌+◌, ◌%◌, Bool, true, false, ◌&&◌, ◌||◌, Option, none, some, List, [], ◌∷◌, ◌++◌,
  Bytes, codes, c_str, ltb, ◌==◌, if◌then◌else◌, get_or, drop, length,
}

pub record Cursor : Type 0 where
  pub before : Bytes
  pub rest : Bytes

-- `clpar`.
pub record Clpar : Type 0 where
  pub key : ℕ
  pub val : Option ℕ

-- What one round of the loop over `p` comes to: the end of the line, `return -1`, or a key.
pub data Round : Type 0 where
  eol : Cursor → Round
  failed : Cursor → Round
  parm : Cursor → Clpar → Round

abbrev pub is_eol : Bytes → Bool
is_eol s = get_or s 0 0 == 0

pub skip_leading_whitespace : Bytes → Bytes → Cursor
skip_leading_whitespace before [] = record { before = before; rest = [] }
skip_leading_whitespace before (c ∷ cs) =
    let skipped = skip_leading_whitespace (before ++ 0 ∷ []) cs in
    if c == b' ' then skipped else record { before = before; rest = c ∷ cs }

abbrev pub ends_word : ℕ → Bool
ends_word c = (c == 0) || ((c == b' ') || (c == b'='))

-- Also `find_next_whitespace_or_eol`, which has the same body.
pub find_next_space_eq_eol : Bytes → Bytes → Cursor
find_next_space_eq_eol before [] = record { before = before; rest = [] }
find_next_space_eq_eol before (c ∷ cs) =
    let further = find_next_space_eq_eol (before ++ c ∷ []) cs in
    if ends_word c then record { before = before; rest = c ∷ cs } else further

-- `strchr(cl, '"')`.
pub find_quote : Bytes → Bytes → Option Cursor
find_quote before [] = none
find_quote before (c ∷ cs) =
    let further = find_quote (before ++ c ∷ []) cs in
    if c == 0
    then none
    else if c == b'"'
    then some (record { before = before; rest = c ∷ cs })
    else further

-- The value is terminated, unless it ends at the end of the line.
pub terminate : Bytes → Bytes → Cursor
terminate before [] = record { before = before; rest = [] }
terminate before (c ∷ cs) =
    if c == 0
    then record { before = before; rest = c ∷ cs }
    else record { before = before ++ 0 ∷ []; rest = cs }

pub terminated : ℕ → Cursor → Option Cursor → Round
unfolding terminate
terminated key val none = failed val
terminated key val (some c) =
    parm (terminate c.before c.rest) (record { key = key; val = some (length val.before) })

-- From `if (*cl == ';' || *cl == ' ')` on, behind the equals sign.
pub value : ℕ → Bytes → Bytes → Round
unfolding find_next_space_eq_eol find_quote terminated
value key before rest =
    let c = get_or rest 0 0 in
    let start : Cursor = record { before = before; rest = rest } in
    let inner : Cursor = record { before = before ++ b'"' ∷ []; rest = drop 1 rest } in
    if (c == b';') || (c == b' ')
    then failed start
    else if c == b'"'
    then (if is_eol inner.rest
        then failed inner
        else terminated key inner (find_quote inner.before inner.rest))
    else if is_eol rest
    then failed start
    else terminated key start (some (find_next_space_eq_eol before rest))

-- The switch over the character that ends the key.
pub after_key : ℕ → Bytes → Bytes → Round
unfolding value
after_key key before [] =
    parm (record { before = before; rest = [] }) (record { key = key; val = none })
after_key key before (c ∷ cs) =
    if c == b'='
    then value key (before ++ 0 ∷ []) cs
    else parm (record { before = before; rest = c ∷ cs }) (record { key = key; val = none })

-- The body of the loop up to the test for a global option.
unfoldable pub round : Bytes → Bytes → Round
unfolding skip_leading_whitespace find_next_space_eq_eol after_key
round before rest =
    let start = skip_leading_whitespace before rest in
    let end = find_next_space_eq_eol start.before start.rest in
    if is_eol start.rest then eol start else after_key (length start.before) end.before end.rest

-- The C string at an offset of the line.
abbrev pub string_at : Bytes → ℕ → Bytes
string_at line i = c_str (drop i line)

abbrev pub equal : Bytes → Bytes → Bool
equal [] [] = true
equal [] (d ∷ ds) = false
equal (c ∷ cs) [] = false
equal (c ∷ cs) (d ∷ ds) = (c == d) && equal cs ds

-- A key "mid" with a value is a global option: the string that is its value.
unfoldable pub global_option : Bytes → Clpar → Option Bytes
global_option line q =
    if equal (string_at line q.key) (codes "mid") then Option.map (string_at line) q.val else none

-- The entries of the array that are counted as parameters, the line afterwards, `cli_msgid`, and what is
-- returned, with `none` for -1. What a round stores that ends the parse, or that has a global option,
-- lies behind these entries and is left out.
pub record Parsed : Type 0 where
  pub result : Option ℕ
  pub par : List Clpar
  pub line : Bytes
  pub msgid : ℕ

-- The function returns; the line is what lies before and from the cursor on.
abbrev pub stop : Option ℕ → List Clpar → ℕ → Cursor → Parsed
stop r par msgid c = record { result = r; par = par; line = c.before ++ c.rest; msgid = msgid }

module _ (atoi : Bytes → ℕ) where
  -- A global option is processed and its entry used again.
  pub register :
      (List Clpar → ℕ → Bytes → Bytes → Option Parsed)
      → List Clpar
      → ℕ
      → Cursor
      → Clpar
      → Option Bytes
      → Option Parsed
  register continue par msgid c q (some v) = continue par (atoi v % 65_536) c.before c.rest
  register continue par msgid c q none = continue (par ++ q ∷ []) msgid c.before c.rest

  -- What follows the body of a round.
  pub settle :
      (List Clpar → ℕ → Bytes → Bytes → Option Parsed) → List Clpar → ℕ → Round → Option Parsed
  unfolding global_option register
  settle continue par msgid (eol c) = some (stop (some (length par)) par msgid c)
  settle continue par msgid (failed c) = some (stop none par msgid c)
  settle continue par msgid (parm c q) =
      register continue par msgid c q (global_option (c.before ++ c.rest) q)

  -- The loop over `p`, which is the length of `par`; `none` means that the fuel ran out.
  pub parse : ℕ → ℕ → List Clpar → ℕ → Bytes → Bytes → Option Parsed
  unfolding round global_option settle
  parse zero size par msgid before rest = none
  parse (suc fuel) size par msgid before rest =
      if ltb (length par) size
      then settle (parse fuel size) par msgid (round before rest)
      else some (stop none par msgid (record { before = before; rest = rest }))

  -- The fuel is one more than the characters: each round but the last reads one.
  unfoldable pub cli_parse_commandline : ℕ → Bytes → Option Parsed
  unfolding parse
  cli_parse_commandline size line = parse (suc (length line)) size [] 0 [] line
