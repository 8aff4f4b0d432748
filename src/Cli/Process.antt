-- ===== src/Cli/Process.antt =====
-- From a command line to its handler: `cli_process_cmdline` and `cli_processParameters` of
-- cli/cmdline_process.cc, and `asc2bool` of cli/cli.cc. The entries of the array of parameters point
-- into the line, so a handler gets both. What the functions do with the writer is a list of events.
-- The hook of the password, the handlers and `root_open` are parameters.
pub mod Dispatch
mod Tests
use components_mcu.Prelude.{
  ℕ, zero, suc, Bool, true, false, not, Option, none, some, List, [], ◌∷◌, ◌++◌, Bytes, ◌==◌,
  if◌then◌else◌, get_or,
}
use components_mcu.Cli.Parse.{Clpar, Parsed, string_at, cli_parse_commandline}

-- `none` is -1.
unfoldable pub asc2bool : Option Bytes → Option Bool
asc2bool none = some true
asc2bool (some s) =
    let c = get_or s 0 0 in if c == b'0' then some false else if c == b'1' then some true else none

pub data Event : Type 0 where
  replied_failure opened closed published : Event
  processed : Bytes → List Clpar → Event

-- `to_ws` stands for CONFIG_APP_USE_WS and the target.
pub record Setup : Type 0 where
  pub check_password : Option (Bytes → List Clpar → Bool)
  pub root_open : Bool
  pub to_ws : Bool

abbrev pub refused : Setup → Bytes → List Clpar → Bool
refused setup line par = elim setup.check_password [
  | none ↦ false
  | some check ↦ not (check line par)
]

-- What follows the call of the parser.
pub respond : Setup → Bytes → List Clpar → Option ℕ → List Event
respond setup line par none = replied_failure ∷ []
respond setup line par (some zero) = []
respond setup line par (some (suc n)) =
    let reported = if setup.to_ws then published ∷ [] else [] in
    if refused setup line par
    then []
    else if setup.root_open
    then opened ∷ processed line par ∷ closed ∷ reported
    else []

respond_parsed : Setup → Option Parsed → List Event
unfolding respond
respond_parsed setup none = []
respond_parsed setup (some r) = respond setup r.line r.par r.result

unfoldable pub cli_process_cmdline : (Bytes → ℕ) → Setup → Bytes → List Event
unfolding respond_parsed
cli_process_cmdline atoi setup line = respond_parsed setup (cli_parse_commandline atoi 20 line)

-- The handler that was found is run; `failed` is -1.
abbrev pub run_handler : {R : Type 0} → R → Option (Bytes → List Clpar → R) → Bytes → List Clpar → R
run_handler failed none line par = failed
run_handler failed (some handler) line par = handler line par

-- `find` is the callback that finds a handler, if one is set. An array without entries is ruled out by
-- an assertion.
unfoldable pub cli_process_parameters :
    {R : Type 0} → R → Option (Bytes → Option (Bytes → List Clpar → R)) → Bytes → List Clpar → R
cli_process_parameters failed none line par = failed
cli_process_parameters failed (some find) line [] = failed
cli_process_parameters failed (some find) line (p ∷ par) =
    run_handler failed (find (string_at line p.key)) line (p ∷ par)
