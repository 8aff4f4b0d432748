-- ===== src/Cli/Line.antt =====
-- Reading a command line: cli/cmdline_get.cc (`cli_get_commandline`), cli/cmdline_set.cc
-- (`cliBuf_enlarge`, `get_commandline`) and `struct cli_buf` of cli/include/cli/cli_types.h.
-- What `getc_fun` returns is a list of characters, and its end is the -1 of "nothing more now".
-- `realloc` is a parameter: it returns the new block, or `none` for a null pointer.
pub mod Editor
pub mod Simulation
pub mod Session
pub mod Entering
pub mod Rest
pub mod Heap
mod Tests
use components_mcu.Prelude.{
  ℕ, zero, suc, ◌%◌, Bool, true, false, not, ◌&&◌, ◌||◌, Option, none, some, List, [], ◌∷◌, Bytes,
  ltb, ◌==◌, if◌then◌else◌, add32, sub32, get_or, set,
}

-- `buf` holds the allocated bytes, and is empty for the null pointer. The numbers are the bit
-- patterns of `unsigned` and `int`.
pub record CliBuf : Type 0 where
  pub buf : Bytes
  pub buf_size : ℕ
  pub buf_idx : ℕ
  pub quote_count : ℕ

pub data Status : Type 0 where
  done error incomplete line_buf_full : Status

-- One round of the loop: go on with the flag `error` and the buffer, or return.
pub data Outcome : Type 0 where
  again : Bool → CliBuf → Outcome
  returned : Status → CliBuf → Outcome

abbrev pub is_newline : ℕ → Bool
is_newline c = c == b'\r' || c == b'\n'

-- With `allow_lf` (CONFIG_CLI_CMDLINE_ALLOW_LF) a newline ends the line as a semicolon does.
abbrev pub is_terminator : Bool → ℕ → Bool
is_terminator allow_lf c = c == b';' || (allow_lf && is_newline c)

abbrev pub is_full : CliBuf → Bool
is_full b = not (ltb (add32 b.buf_idx 1) b.buf_size)

erase_last : CliBuf → CliBuf
erase_last b =
    let i = sub32 b.buf_idx 1 in
    record b {
      buf_idx = i;
      quote_count = if get_or b.buf i 0 == b'"' then sub32 b.quote_count 1 else b.quote_count;
    }

count_quote : CliBuf → ℕ → CliBuf
count_quote b c = record b {
  quote_count = if c == b'"' then add32 b.quote_count 1 else b.quote_count;
}

store : CliBuf → ℕ → CliBuf
store b c = record b { buf = set b.buf b.buf_idx (c % 256); buf_idx = add32 b.buf_idx 1 }

finish : CliBuf → CliBuf
finish b = record b { buf = set b.buf b.buf_idx 0; buf_idx = 0; quote_count = 0 }

-- From the count of quotes on, `b` has the character counted.
accept_counted : Bool → Bool → CliBuf → ℕ → Outcome
accept_counted allow_lf err b c =
    if err
    then again (not (is_terminator allow_lf c)) b
    else if (b.quote_count % 2 == 0) && is_terminator allow_lf c
    then returned (if err then error else done) (finish b)
    else again err (store b c)

-- The body of the loop, up to the label `loop`.
pub accept : Bool → Bool → CliBuf → ℕ → Outcome
unfolding erase_last count_quote store finish accept_counted
accept allow_lf err b c =
    if not allow_lf && is_newline c
    then again err (record b { buf_idx = 0; quote_count = 0 })
    else if c == 8
    then again err (if b.buf_idx == 0 then b else erase_last b)
    else accept_counted allow_lf err (count_quote b c) c

-- The loop, with the test at the label `loop`.
read : Bool → Bool → CliBuf → List ℕ → Status × CliBuf × List ℕ
read allow_lf err b [] = (if err then error else incomplete, b, [])
read allow_lf err b (c ∷ cs) = elim (accept allow_lf err b c) [
  | returned s b' ↦ (s, b', cs)
  | again err' b' ↦ elim (is_full b') [
    | true ↦ (line_buf_full, b', cs)
    | false ↦ read allow_lf err' b' cs
  ]
]

unfoldable pub cli_get_commandline : Bool → CliBuf → List ℕ → Status × CliBuf × List ℕ
unfolding read accept
cli_get_commandline allow_lf b input =
    let rest = read allow_lf false b input in if is_full b then (line_buf_full, b, input) else rest

abbrev is_null : Bytes → Bool
is_null [] = true
is_null (c ∷ cs) = false

-- What a call of `get_commandline` returns, the static buffer after it, and the unread input.
pub record Fetched : Type 0 where
  pub line : Option Bytes
  pub buf : CliBuf
  pub rest : List ℕ

-- `buf.buf`, unless the line is empty.
finished_line : Bytes → Option Bytes
finished_line m =
    let c = get_or m 0 0 in if c == 0 || c == b'\r' || c == b'\n' then none else some m

-- The buffer after a `realloc` to `new_size` bytes.
grown : CliBuf → ℕ → Option Bytes → Bool × CliBuf
grown b new_size none = (false, b)
grown b new_size (some p) = (true, record b { buf = p; buf_size = new_size })

module _ (realloc : Bytes → ℕ → Option Bytes) where
  unfoldable pub enlarge : CliBuf → Bool × CliBuf
  unfolding grown
  enlarge b =
      let new_size = if b.buf_size == 0 then 64 else add32 b.buf_size 32 in
      grown b new_size (realloc b.buf new_size)

  -- `continue` after a buffer was enlarged, and the return of a null pointer if it was not.
  retry : (CliBuf → List ℕ → Option Fetched) → Bool × CliBuf → CliBuf → List ℕ → Option Fetched
  retry continue (true, bigger) b rest = continue bigger rest
  retry continue (false, _) b rest = some (record { line = none; buf = b; rest = rest })

  -- The switch over what the reader returned.
  conclude : (CliBuf → List ℕ → Option Fetched) → Status → CliBuf → List ℕ → Option Fetched
  unfolding retry
  conclude continue done b rest = some (record { line = finished_line b.buf; buf = b; rest = rest })
  conclude continue line_buf_full b rest = retry continue (enlarge b) b rest
  conclude continue incomplete b rest = some (record { line = none; buf = b; rest = rest })
  conclude continue error b rest = some (record { line = none; buf = b; rest = rest })

  -- `none` means that the fuel ran out.
  fetch : ℕ → Bool → CliBuf → List ℕ → Option Fetched
  fetch zero allow_lf b input = none
  fetch (suc fuel) allow_lf b input =
      let (s, b', rest) = cli_get_commandline allow_lf b input in
      conclude (fetch fuel allow_lf) s b' rest

  unfoldable pub get_commandline : ℕ → Bool → CliBuf → List ℕ → Option Fetched
  unfolding enlarge finished_line fetch retry conclude
  get_commandline fuel allow_lf b input =
      if is_null b.buf
      then retry (fetch fuel allow_lf) (enlarge b) b input
      else fetch fuel allow_lf b input

-- The static buffer before the first call.
abbrev pub null_buf : CliBuf
null_buf = record { buf = []; buf_size = 0; buf_idx = 0; quote_count = 0 }
