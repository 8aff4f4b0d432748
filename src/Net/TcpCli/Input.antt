-- ===== src/Net/TcpCli/Input.antt =====
-- The input of the clients: `tcps_getc` and `handle_input` of net/esp32/tcp_cli_server_task.cc, with
-- the reader of cli/cmdline_get.cc. There is one line buffer for all clients. A command line is kept
-- in `executed`; what its handlers do, which run under `cli_mutex`, is not part of this model.
use components_mcu.Prelude.{
  ℕ, zero, suc, ◌+◌, ◌-◌, Bool, true, false, Option, none, some, List, [], ◌∷◌, ◌++◌, Bytes, ◌==◌,
  if◌then◌else◌, get_or, length, c_str,
}
use components_mcu.Cli.Line.{
  CliBuf, Status, done, error, incomplete, line_buf_full, cli_get_commandline, enlarge,
}
use components_mcu.Cli.Line.Rest.{ran_out}
use components_mcu.Uout.Callbacks.{Flags}
use components_mcu.Net.TcpCli.{
  Server, Sockets, Recv, byte, closed, no_data, failed, rm_fd, tcps_close_cconn,
}

-- What is left of the incoming bytes of a socket.
abbrev pub left : ℕ → List Recv → Server → Server
left fd q s = record s { incoming = λ i. if i == fd then q else s.incoming i }

module _ (pct_change_cb : ℕ) (user : Flags) (net : Sockets) where
  -- From the result of `lwip_recv` on; `selected` says that this is the first call for the socket.
  unfoldable pub receive : ℕ → Bool → List Recv → Server → Option ℕ × Server
  receive fd selected [] s = (none, s)
  receive fd selected (byte c ∷ q) s = (some c, left fd q s)
  receive fd selected (closed ∷ q) s = (
    none,
    if selected then tcps_close_cconn pct_change_cb user net fd (left fd q s) else left fd q s,
  )
  receive fd selected (no_data ∷ q) s = (none, left fd q s)
  receive fd selected (failed ∷ q) s = (none, rm_fd pct_change_cb user net fd (left fd q s))

  unfoldable pub getc_of : Bool → Option ℕ → Server → Option ℕ × Server
  unfolding receive
  getc_of selected none s = (none, s)
  getc_of selected (some fd) s =
      receive fd selected (s.incoming fd) (record s { selected_fd = none; getc_fd = some fd })

  unfoldable pub tcps_getc : Server → Option ℕ × Server
  unfolding getc_of
  tcps_getc s = elim s.selected_fd [
    | some fd ↦ getc_of true (some fd) s
    | none ↦ getc_of false s.getc_fd s
  ]

  -- What calls of `tcps_getc` return until the first -1, of at most so many calls.
  unfoldable pub readable : ℕ → Server → List ℕ
  unfolding tcps_getc
  readable zero s = []
  readable (suc calls) s = elim (tcps_getc s).0 [
    | none ↦ []
    | some c ↦ c ∷ readable calls (tcps_getc s).1
  ]

  unfoldable pub getc_times : ℕ → Server → Server
  unfolding tcps_getc
  getc_times zero s = s
  getc_times (suc calls) s = getc_times calls (tcps_getc s).1

  -- `cli_get_commandline(&buf, ::tcps_getc)`.
  unfoldable pub read_line : Bool → ℕ → Server → Status × Server
  unfolding readable getc_times
  read_line allow_lf fd s =
      let input = readable (length (s.incoming fd) + 1) s in
      let (status, b, rest) = cli_get_commandline allow_lf s.buf input in
      let after = getc_times (length input - length rest + ran_out status) s in
      (status, record after { buf = b })

  -- `CMDL_DONE`.
  unfoldable pub execute : ℕ → Server → Server
  execute fd s = record s {
    executed =
        s.executed
        ++ record {
          from = fd;
          is_json = get_or s.buf.buf 0 0 == b'{';
          command_line = c_str s.buf.buf;
        }
          ∷ [];
  }

  module _ (realloc : Bytes → ℕ → Option Bytes) where
    -- `continue` after the buffer was enlarged, and the return if it was not.
    unfoldable pub after_enlarge : (Server → Option Server) → Bool × CliBuf → Server → Option Server
    after_enlarge continue (true, bigger) s = continue (record s { buf = bigger })
    after_enlarge continue (false, b) s = some (record s { buf = b })

    -- The switch over what the reader returned.
    unfoldable pub on_status : (Server → Option Server) → Status → ℕ → Server → Option Server
    unfolding after_enlarge execute
    on_status continue done fd s = some (execute fd s)
    on_status continue incomplete fd s = some s
    on_status continue line_buf_full fd s = after_enlarge continue (enlarge realloc s.buf) s
    on_status continue error fd s = some s

    -- The loop; `none` means that the fuel ran out.
    unfoldable pub handle : ℕ → Bool → ℕ → Server → Option Server
    unfolding read_line on_status
    handle zero allow_lf fd s = none
    handle (suc fuel) allow_lf fd s =
        let (status, s') = read_line allow_lf fd s in
        on_status (handle fuel allow_lf fd) status fd s'

    -- With fuel for each result of the socket and two more rounds.
    unfoldable pub handle_input : Bool → ℕ → Server → Server
    unfolding handle
    handle_input allow_lf fd s =
        elim (handle (suc (length (s.incoming fd) + 1)) allow_lf fd
          (record s { selected_fd = some fd })) [ none ↦ s | some s' ↦ s' ]
