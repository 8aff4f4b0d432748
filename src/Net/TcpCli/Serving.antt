-- ===== src/Net/TcpCli/Serving.antt =====
-- Reading the input of a client in net/esp32/tcp_cli_server_task.cc keeps the invariant of the clients.
use components_mcu.Prelude.{
  ℕ, zero, suc, ◌+◌, ◌-◌, Bool, true, false, Option, none, some, List, [], ◌∷◌, Bytes, ◌==◌,
  if◌then◌else◌, length, Bool-cases, Option-cases, inl, inr, ◌≡◌, ◌∙◌, arith,
}
use components_mcu.Cli.Line.{
  CliBuf, Status, done, error, incomplete, line_buf_full, cli_get_commandline,
}
use components_mcu.Cli.Line.Rest.{ran_out}
use components_mcu.Uout.Callbacks.{Flags}
use components_mcu.Net.TcpCli.{
  Server, Sockets, Recv, Command, byte, closed, no_data, failed, rm_fd, tcps_close_cconn,
}
use components_mcu.Net.TcpCli.Input.{
  receive, getc_of, tcps_getc, readable, getc_times, read_line, execute, after_enlarge, on_status,
  handle, handle_input,
}
use components_mcu.Net.TcpCli.Invariant.{Inv, rm_fd-Inv}

module _ (cb : ℕ) (user : Flags) (net : Sockets) (n : ℕ) where
  abbrev pub Bounded : Server → Type 0
  Bounded s = Inv cb user s × (s.nfds ≡ n)

  -- Only the set of clients, its bound, its count and the subscribers matter.
  reframe :
      (s : Server) (sel g : Option ℕ) (b : CliBuf) (inc : ℕ → List Recv) (log : List (ℕ × Bytes))
      (ex : List Command)
      → Bounded s
      → Bounded (record s {
        selected_fd = sel;
        getc_fd = g;
        buf = b;
        incoming = inc;
        sent = log;
        executed = ex;
      })
  reframe s sel g b inc log ex (h, e) = (
    record { in_range = h.in_range; counted = h.counted; table = h.table; listening = h.listening },
    e,
  )

  rm_fd-Bounded : (fd : ℕ) (s : Server) → Bounded s → Bounded (rm_fd cb user net fd s)
  unfolding rm_fd
  rm_fd-Bounded fd s (h, e) = (
    rm_fd-Inv cb user net fd s h,
    elim (Bool-cases (s.wait_fds fd)) [
      | inr gone ↦ rw gone e
      | inl here ↦
          let lt = h.in_range fd here in
          let top : (if fd == s.nfds + 1 then s.nfds - 1 else s.nfds) ≡ s.nfds = ground arith in
          rw here (top ∙ e)
    ],
  )

  close-Bounded : (fd : ℕ) (s : Server) → Bounded s → Bounded (tcps_close_cconn cb user net fd s)
  unfolding tcps_close_cconn
  close-Bounded fd s h = elim (Bool-cases (net.lwip_close s.sent fd)) [
    | inl ok ↦ rw ok (rm_fd-Bounded fd s h)
    | inr err ↦ rw err h
  ]

  receive-Bounded :
      (fd : ℕ) (selected : Bool) (q : List Recv) (s : Server)
      → Bounded s
      → Bounded (receive cb user net fd selected q s).1
  unfolding receive
  receive-Bounded fd selected [] s h = h
  receive-Bounded fd selected (byte c ∷ q) s h = reframe s _ _ _ _ _ _ h
  receive-Bounded fd true (closed ∷ q) s h = close-Bounded fd _ (reframe s _ _ _ _ _ _ h)
  receive-Bounded fd false (closed ∷ q) s h = reframe s _ _ _ _ _ _ h
  receive-Bounded fd selected (no_data ∷ q) s h = reframe s _ _ _ _ _ _ h
  receive-Bounded fd selected (failed ∷ q) s h = rm_fd-Bounded fd _ (reframe s _ _ _ _ _ _ h)

  getc_of-Bounded :
      (selected : Bool) (current : Option ℕ) (s : Server)
      → Bounded s
      → Bounded (getc_of cb user net selected current s).1
  unfolding getc_of
  getc_of-Bounded selected none s h = h
  getc_of-Bounded selected (some fd) s h = receive-Bounded fd selected _ _ (reframe s _ _ _ _ _ _ h)

  tcps_getc-Bounded : (s : Server) → Bounded s → Bounded (tcps_getc cb user net s).1
  unfolding tcps_getc
  tcps_getc-Bounded s h = elim (Option-cases s.selected_fd) [
    | inl e ↦ rw (e, tcps_getc) (getc_of-Bounded false s.getc_fd s h)
    | inr (fd, e) ↦ rw (e, tcps_getc) (getc_of-Bounded true (some fd) s h)
  ]

  getc_times-Bounded :
      (calls : ℕ) (s : Server) → Bounded s → Bounded (getc_times cb user net calls s)
  unfolding getc_times
  getc_times-Bounded zero s h = h
  getc_times-Bounded (suc calls) s h = getc_times-Bounded calls _ (tcps_getc-Bounded s h)

  read_line-Bounded :
      (allow_lf : Bool) (fd : ℕ) (s : Server)
      → Bounded s
      → Bounded (read_line cb user net allow_lf fd s).1
  unfolding read_line
  read_line-Bounded allow_lf fd s h =
      let input = readable cb user net (length (s.incoming fd) + 1) s in
      let (status, b, rest) = cli_get_commandline allow_lf s.buf input in
      reframe _ _ _ _ _ _ _ (getc_times-Bounded (length input - length rest + ran_out status) s h)

  module _ (realloc : Bytes → ℕ → Option Bytes) where
    abbrev pub BoundedSome : Option Server → Type 0
    BoundedSome none = Unit {0}
    BoundedSome (some s) = Bounded s

    after_enlarge-Bounded :
        (continue : Server → Option Server) (g : Bool × CliBuf) (s : Server)
        → ((t : Server) → Bounded t → BoundedSome (continue t))
        → Bounded s
        → BoundedSome (after_enlarge cb user net realloc continue g s)
    unfolding after_enlarge
    after_enlarge-Bounded continue (true, b) s rec h = rec _ (reframe s _ _ _ _ _ _ h)
    after_enlarge-Bounded continue (false, b) s rec h = reframe s _ _ _ _ _ _ h

    on_status-Bounded :
        (continue : Server → Option Server) (status : Status) (fd : ℕ) (s : Server)
        → ((t : Server) → Bounded t → BoundedSome (continue t))
        → Bounded s
        → BoundedSome (on_status cb user net realloc continue status fd s)
    unfolding on_status execute
    on_status-Bounded continue done fd s rec h = reframe s _ _ _ _ _ _ h
    on_status-Bounded continue incomplete fd s rec h = h
    on_status-Bounded continue error fd s rec h = h
    on_status-Bounded continue line_buf_full fd s rec h = after_enlarge-Bounded continue _ s rec h

    handle-Bounded :
        (fuel : ℕ) (allow_lf : Bool) (fd : ℕ) (s : Server)
        → Bounded s
        → BoundedSome (handle cb user net realloc fuel allow_lf fd s)
    unfolding handle
    handle-Bounded zero allow_lf fd s h = tt
    handle-Bounded (suc fuel) allow_lf fd s h =
        on_status-Bounded _ (read_line cb user net allow_lf fd s).0 fd _
          (λ t. handle-Bounded fuel allow_lf fd t) (read_line-Bounded allow_lf fd s h)

    pub handle_input-Bounded :
        (allow_lf : Bool) (fd : ℕ) (s : Server)
        → Bounded s
        → Bounded (handle_input cb user net realloc allow_lf fd s)
    unfolding handle_input
    handle_input-Bounded allow_lf fd s h =
        let start : Server = record s { selected_fd = some fd } in
        let r = handle cb user net realloc (suc (length (s.incoming fd) + 1)) allow_lf fd start in
        let b : BoundedSome r =
          handle-Bounded (suc (length (s.incoming fd) + 1)) allow_lf fd start
            (reframe s _ _ _ _ _ _ h) in
        elim (Option-cases r) [
          | inl e ↦ rw (e, handle_input) h
          | inr (s', e) ↦ rw (e, handle_input) (rw e at b)
        ]
