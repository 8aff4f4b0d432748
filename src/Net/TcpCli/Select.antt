-- ===== src/Net/TcpCli/Select.antt =====
-- Waiting for clients: `tcps_create_server`, `try_accept`, `wait_for_fd` and the start of `tcps_task` of
-- net/esp32/tcp_cli_server_task.cc, without CONFIG_APP_USE_CLI_TASK_EXP. What the sockets return is
-- given: of `lwip_accept` the new descriptor for a listening one, of `lwip_select` the count and the
-- set of the ready descriptors, `none` for an error. A listening socket that is -1 is never ready.
use components_mcu.Prelude.{
  ℕ, ◌+◌, ◌-◌, Bool, ◌&&◌, Option, none, some, [], ◌∷◌, ◌++◌, Bytes, codes, ltb, ◌==◌,
  if◌then◌else◌, take,
}
use components_mcu.Uout.Callbacks.{Flags}
use components_mcu.Net.TcpCli.{Server, Sockets, FdSet, fd_zero, fd_clr, add_fd, foreach_fd}
use components_mcu.Net.TcpCli.Input.{handle_input}

-- The results of the calls that make a listening socket, and `errno`.
pub record Listening : Type 0 where
  pub socket : Option ℕ
  pub fcntl_ok : Bool
  pub bind_ok : Bool
  pub listen_ok : Bool
  pub errno : ℕ

-- The one with a port number: `none` for -1. The result is `errno` where there is no socket.
abbrev pub create_socket : Listening → Option ℕ
create_socket l = elim l.socket [
  | none ↦ some l.errno
  | some fd ↦ if l.fcntl_ok && l.bind_ok && l.listen_ok then some fd else none
]

abbrev pub set_sockfd : ℕ → Server → Server
set_sockfd fd s = record s {
  nfds = if ltb s.nfds (fd + 1) then fd + 1 else s.nfds;
  sockfd = some fd;
}

abbrev pub set_sockfd_ia : ℕ → Server → Server
set_sockfd_ia fd s = record s {
  nfds = if ltb s.nfds (fd + 1) then fd + 1 else s.nfds;
  sockfd_ia = some fd;
}

-- The result 0 is success.
unfoldable pub tcps_create_server : Listening → Server → ℕ × Server
tcps_create_server l s = elim (create_socket l) [
  | none ↦ (l.errno, s)
  | some fd ↦ (0, set_sockfd fd s)
]

unfoldable pub tcps_create_server_ia : Listening → Server → ℕ × Server
tcps_create_server_ia l s = elim (create_socket l) [
  | none ↦ (l.errno, s)
  | some fd ↦ (0, set_sockfd_ia fd s)
]

-- `tcps_task` until its loop.
unfoldable pub tcps_start : ℕ → ℕ → Listening → Listening → Server → Server
unfolding tcps_create_server tcps_create_server_ia
tcps_start port port_ia l l_ia s =
    let empty : Server = record s { wait_fds = fd_zero; nfds = 0 } in
    let first = if ltb 0 port then (tcps_create_server l empty).1 else empty in
    if ltb 0 port_ia then (tcps_create_server_ia l_ia first).1 else first

-- With its final NUL, as `sizeof welcome` counts it.
abbrev pub welcome : Bytes
welcome = codes "Type help; for a list of commands\r\n" ++ 0 ∷ []

-- The variables of `wait_for_fd`: `rfds`, `count` and the object.
pub record Wait : Type 0 where
  pub rfds : FdSet
  pub count : ℕ
  pub server : Server

module _ (pct_change_cb : ℕ) (user : Flags) (net : Sockets) where
  -- The result of this write is not looked at.
  abbrev pub greet : ℕ → Server → Server
  greet fd s = elim (net.lwip_write s.sent fd welcome) [
    | none ↦ s
    | some n ↦ record s { sent = s.sent ++ (fd, take n welcome) ∷ [] }
  ]

  -- `try_accept`, and the greeting after it.
  unfoldable pub accept_client : Option ℕ → Server → Server
  accept_client none s = s
  accept_client (some fd) s = greet fd (add_fd pct_change_cb user net fd s)

  -- The part of `wait_for_fd` for one listening socket.
  unfoldable pub accept_ready : (ℕ → Option ℕ) → Option ℕ → Wait → Wait
  unfolding accept_client
  accept_ready lwip_accept none w = w
  accept_ready lwip_accept (some fd) w =
      if w.rfds fd
      then record {
        rfds = fd_clr fd w.rfds;
        count = w.count - 1;
        server = accept_client (lwip_accept fd) w.server;
      }
      else w

  -- The new clients.
  unfoldable pub accept_both : (ℕ → Option ℕ) → Wait → Wait
  unfolding accept_ready
  accept_both lwip_accept w =
      accept_ready lwip_accept w.server.sockfd_ia (accept_ready lwip_accept w.server.sockfd w)

  module _ (realloc : Bytes → ℕ → Option Bytes) where
    unfoldable pub wait_for_fd : Bool → (ℕ → Option ℕ) → Option (ℕ × FdSet) → Server → Server
    unfolding accept_both
    wait_for_fd allow_lf lwip_accept none s = s
    wait_for_fd allow_lf lwip_accept (some (count, ready)) s =
        let w = accept_both lwip_accept (record { rfds = ready; count = count; server = s }) in
        let handled =
          foreach_fd (λ t. w.rfds) w.count (handle_input pct_change_cb user net realloc allow_lf)
            w.server in
        if count == 0 then s else handled.1
