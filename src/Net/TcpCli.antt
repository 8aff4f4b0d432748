-- ===== src/Net/TcpCli.antt =====
-- The clients of the command line server: class `TcpCliServer` of net/esp32/tcp_cli_server_task.cc.
-- A set of file descriptors is its characteristic function. The sockets are parameters: each is asked
-- with all that was sent until then, so that it may answer anew each time. `lwip_close` says whether a
-- close succeeds, and `lwip_write` how many bytes are taken, `none` for an error. The lock
-- `tcpCli_mutex` and the messages to the local console are left out.
pub mod Foreach
pub mod Invariant
pub mod Receiving
pub mod Broadcast
pub mod Input
pub mod Lines
pub mod Commands
pub mod Shared
pub mod Select
pub mod Serving
pub mod Rounds
mod Tests
use Prim.Native.Nat.{bit_or}
use components_mcu.Prelude.{
  ℕ, zero, suc, ◌+◌, ◌-◌, ◌/◌, ◌%◌, Bool, true, false, not, ◌||◌, Option, none, some, List, [], ◌∷◌,
  ◌++◌, Bytes, codes, ltb, ◌==◌, if◌then◌else◌, take,
}
use components_mcu.Cli.Line.{CliBuf, null_buf}
use components_mcu.Uout.Callbacks.{
  Flags, Slot, subscribe, unsubscribe, json_bit, txt_bit, pin_change_bit, error_message_bit,
  log_message_bit,
}

abbrev pub FdSet : Type 0
FdSet = ℕ → Bool

abbrev pub fd_zero : FdSet
fd_zero = λ i. false

abbrev pub fd_set_bit : ℕ → FdSet → FdSet
fd_set_bit fd fds i = if i == fd then true else fds i

abbrev pub fd_clr : ℕ → FdSet → FdSet
fd_clr fd fds i = if i == fd then false else fds i

-- What `lwip_recv` of one byte yields: 1, 0, or an error that says to try again or another one.
pub data Recv : Type 0 where
  byte : ℕ → Recv
  closed no_data failed : Recv

-- A command line that was handed to `cli_process_json` or `cli_process_cmdline`.
pub record Command : Type 0 where
  pub from : ℕ
  pub is_json : Bool
  pub command_line : Bytes

-- `none` is -1. `getc_fd` is the static variable of `tcps_getc`. Of the world around: `slots` are the
-- subscribers of uout/callbacks.cc, `incoming` what the sockets will yield, `sent` what they took.
pub record Server : Type 0 where
  pub wait_fds : FdSet
  pub nfds : ℕ
  pub cconn_count : ℕ
  pub sockfd : Option ℕ
  pub sockfd_ia : Option ℕ
  pub selected_fd : Option ℕ
  pub getc_fd : Option ℕ
  pub buf : CliBuf
  pub slots : List Slot
  pub incoming : ℕ → List Recv
  pub sent : List (ℕ × Bytes)
  pub executed : List Command

pub record Sockets : Type 0 where
  pub lwip_close : List (ℕ × Bytes) → ℕ → Bool
  pub lwip_write : List (ℕ × Bytes) → ℕ → Bytes → Option ℕ

-- `flags.evt`, `flags.fmt`: bits 0, 3, 4 and 5, and bits 0 and 2 are set.
abbrev gen_app_state_change_bit : ℕ
gen_app_state_change_bit = 8

abbrev pub subscribed_flags : Flags → Flags
subscribed_flags user = record user {
  evt_flags =
      bit_or user.evt_flags
        (pin_change_bit + gen_app_state_change_bit + error_message_bit + log_message_bit);
  fmt_flags = bit_or user.fmt_flags (json_bit + txt_bit);
}

-- The loop from index `i` on, for `rounds` rounds; the set is looked up in the server as it is then.
pub foreach_from : (Server → FdSet) → (ℕ → Server → Server) → ℕ → ℕ → ℕ → Server → ℕ × Server
foreach_from fdsp fd_fun zero i count s = (count, s)
foreach_from fdsp fd_fun (suc rounds) i count s =
    let hit = fdsp s i in
    let next =
      foreach_from fdsp fd_fun rounds (i + 1) (if hit then count - 1 else count)
        (if hit then fd_fun i s else s) in
    if (count == 0) || not (ltb i s.nfds) then (count, s) else next

unfoldable pub foreach_fd : (Server → FdSet) → ℕ → (ℕ → Server → Server) → Server → ℕ × Server
unfolding foreach_from
foreach_fd fdsp count fd_fun s = foreach_from fdsp fd_fun s.nfds 0 count s

-- `pct_change_cb` is the pointer to `pctChange_cb`, and `user` are the `UserFlags`.
module _ (pct_change_cb : ℕ) (user : Flags) (net : Sockets) where
  unfoldable pub add_fd : ℕ → Server → Server
  add_fd fd s = record s {
    wait_fds = fd_set_bit fd s.wait_fds;
    nfds = if ltb s.nfds (fd + 1) then fd + 1 else s.nfds;
    cconn_count = s.cconn_count + 1;
    slots =
        if s.cconn_count == 0
        then (subscribe pct_change_cb (subscribed_flags user) s.slots).1
        else s.slots;
  }

  unfoldable pub rm_fd : ℕ → Server → Server
  rm_fd fd s = if not (s.wait_fds fd) then s else record s {
    wait_fds = fd_clr fd s.wait_fds;
    nfds = if fd == s.nfds + 1 then s.nfds - 1 else s.nfds;
    cconn_count = s.cconn_count - 1;
    slots = if s.cconn_count - 1 == 0 then (unsubscribe pct_change_cb s.slots).1 else s.slots;
  }

  unfoldable pub tcps_close_cconn : ℕ → Server → Server
  tcps_close_cconn fd s = if net.lwip_close s.sent fd then rm_fd fd s else s

  -- What a socket took.
  abbrev pub took : ℕ → Bytes → Server → Server
  took fd bytes s = record s { sent = s.sent ++ (fd, bytes) ∷ [] }

  -- The flag is false for the result -1.
  unfoldable pub tcpst_putc : ℕ → ℕ → Server → Bool × Server
  tcpst_putc fd c s = elim (net.lwip_write s.sent fd (c ∷ [])) [
    | none ↦ (false, tcps_close_cconn fd s)
    | some n ↦ (true, took fd (take n (c ∷ [])) s)
  ]

  unfoldable pub tcpst_putc_crlf : ℕ → ℕ → Server → Bool × Server
  unfolding tcpst_putc
  tcpst_putc_crlf fd c s =
      let cr = tcpst_putc fd b'\r' s in
      if c == b'\r'
      then (true, s)
      else if c == b'\n'
      then (if cr.0 then tcpst_putc fd c cr.1 else (false, cr.1))
      else tcpst_putc fd c s

  unfoldable pub tcpst_writeln : Bytes → ℕ → Server → Server
  tcpst_writeln bytes fd s = elim (net.lwip_write s.sent fd bytes) [
    | none ↦ tcps_close_cconn fd s
    | some n ↦ took fd (take n bytes) s
  ]

  unfoldable pub tcpst_putc_all : ℕ → Server → Server
  unfolding foreach_fd tcpst_putc_crlf
  tcpst_putc_all c s =
      (foreach_fd (λ t. t.wait_fds) s.nfds (λ fd t. (tcpst_putc_crlf fd c t).1) s).1

  unfoldable pub tcpst_writeln_all : Bytes → Server → Server
  unfolding foreach_fd tcpst_writeln
  tcpst_writeln_all bytes s = (foreach_fd (λ t. t.wait_fds) s.nfds (tcpst_writeln bytes) s).1

  unfoldable pub putc_each : Bytes → Server → Server
  unfolding tcpst_putc_all
  putc_each [] s = s
  putc_each (c ∷ cs) s = putc_each cs (tcpst_putc_all c s)

  -- `use_writeln` is CONFIG_APP_USE_WRITELN.
  abbrev pub send_txt : Bool → Bytes → Server → Server
  send_txt use_writeln txt s =
      if use_writeln
      then tcpst_writeln_all (codes "\r\n") (tcpst_writeln_all txt s)
      else putc_each txt s

  abbrev pub send_json : Bool → Bytes → Server → Server
  send_json use_writeln json s =
      if use_writeln
      then tcpst_writeln_all (codes "\r\n") (tcpst_writeln_all json s)
      else tcpst_putc_all b'\n' (putc_each json s)

  -- The text of a message with the format bits `fmt_flags`, without its NUL.
  unfoldable pub pct_change : Bool → ℕ → Bytes → Server → Server
  unfolding putc_each tcpst_putc_all tcpst_writeln_all
  pct_change use_writeln fmt_flags text s =
      let after_txt = if (fmt_flags / txt_bit) % 2 == 1 then send_txt use_writeln text s else s in
      if fmt_flags % 2 == 1 then send_json use_writeln text after_txt else after_txt

-- The members as they are initialised, and the arrays of subscribers around them.
abbrev pub new_server : List Slot → (ℕ → List Recv) → Server
new_server slots incoming = record {
  wait_fds = fd_zero;
  nfds = 0;
  cconn_count = 0;
  sockfd = none;
  sockfd_ia = none;
  selected_fd = none;
  getc_fd = none;
  buf = null_buf;
  slots = slots;
  incoming = incoming;
  sent = [];
  executed = [];
}
