-- ===== src/Net/TcpCli/Tests.antt =====
-- Runs of the server of net/esp32/tcp_cli_server_task.cc, and its theorems at inputs where their
-- hypotheses hold.
use components_mcu.Prelude.{
  ℕ, ◌+◌, ◌<◌, true, false, none, some, List, [], ◌∷◌, ◌++◌, map, Bytes, codes, length, u32_mod,
  ◌==◌, if◌then◌else◌, inr, ◌≡◌, refl, arith,
}
use components_mcu.Cli.Line.{null_buf, cli_get_commandline, enlarge}
use components_mcu.Cli.Line.Editor.{edit, waiting, line}
use components_mcu.Cli.Line.Heap.{resize, resize-ReallocLaws, resize-ne-none}
use components_mcu.Uout.Callbacks.{no_flags, initial_slots, subscribe}
use components_mcu.Uout.Callbacks.Slots.{active, initial-Inv}
use components_mcu.Net.TcpCli.{
  Server, Sockets, FdSet, Recv, byte, new_server, subscribed_flags, add_fd, pct_change,
}
use components_mcu.Net.TcpCli.Invariant.{Inv, new_server-Inv, add_fd-Inv}
use components_mcu.Net.TcpCli.Receiving.{received}
use components_mcu.Net.TcpCli.Broadcast.{delivered, pct_change-delivers, pct_change-Inv}
use components_mcu.Net.TcpCli.Input.{handle_input}
use components_mcu.Net.TcpCli.Shared.{handle_input_shared}
use components_mcu.Net.TcpCli.Commands.{Handles, command, handle_input-Handles}
use components_mcu.Net.TcpCli.Foreach.{elems, for_all}
use components_mcu.Net.TcpCli.Select.{accept_both, wait_for_fd}
use components_mcu.Net.TcpCli.Rounds.{listens, wait_for_fd-serves}

-- Sockets that take all they are given.
abbrev open_sockets : Sockets
open_sockets = record {
  lwip_close = λ log fd. true;
  lwip_write = λ log fd bytes. some (length bytes);
}

abbrev typed : Bytes → ℕ → ℕ → List Recv
typed text fd i = if i == fd then map byte text else []

abbrev no_client : Server
no_client = new_server initial_slots (typed (codes "led") 5)

-- One client, at the descriptor 5; the callback is the pointer 7.
abbrev one_client : Server
one_client = add_fd 7 no_flags open_sockets 5 no_client

no_callback : active 7 initial_slots ≡ none
unfolding active
no_callback = refl

first_room : (subscribe 7 (subscribed_flags no_flags) initial_slots).0 ≡ true
unfolding subscribe
first_room = refl

one_client-Inv : Inv 7 no_flags one_client
one_client-Inv =
    add_fd-Inv 7 no_flags open_sockets 5 no_client
      (new_server-Inv 7 no_flags initial_slots _ initial-Inv no_callback) (λ e. omega (arith, e))
      refl (λ e. first_room)

member : one_client.wait_fds 5 ≡ true
unfolding add_fd
member = refl

pct_change-delivers_example :
    (received 5 (pct_change 7 no_flags open_sockets false 5 (codes "on\n") one_client).sent
      ≡ received 5 one_client.sent ++ delivered false 5 (codes "on\n"))
    × ((pct_change 7 no_flags open_sockets false 5 (codes "on\n") one_client).wait_fds 5 ≡ true)
pct_change-delivers_example =
    pct_change-delivers 7 no_flags open_sockets false 5 (codes "on\n") 5 one_client one_client-Inv
      member (λ log bytes. refl)

pct_change-Inv_example :
    Inv 7 no_flags (pct_change 7 no_flags open_sockets false 5 (codes "on\n") one_client)
pct_change-Inv_example =
    pct_change-Inv 7 no_flags open_sockets false 5 (codes "on\n") one_client one_client-Inv

delivered_twice : delivered false 5 (codes "on\n") ≡ codes "on\r\non\r\n\r\n"
delivered_twice = refl

first_waits : edit false [] (codes "led") ≡ waiting (codes "led")
unfolding edit
first_waits = refl

second_ends : edit false (codes "led") (codes " on;") ≡ line (codes "led on") []
unfolding edit
second_ends = refl

typed_led : one_client.incoming 5 ≡ map byte (codes "led")
unfolding add_fd
typed_led = refl

null_at_first : one_client.buf ≡ null_buf
unfolding add_fd
null_at_first = refl

handle_input-Handles_example :
    Handles 7 no_flags open_sockets resize resize-ReallocLaws false 5
      (edit false [] (codes "led"))
      one_client
      (handle_input 7 no_flags open_sockets resize false 5 one_client)
unfolding add_fd
handle_input-Handles_example =
    handle_input-Handles 7 no_flags open_sockets resize resize-ReallocLaws false 5 [] (codes "led")
      one_client typed_led (inr (null_at_first, refl)) (omega arith) (omega arith)

-- Another client types the end of a command when the first one is done.
abbrev later : Server
later = record (handle_input 7 no_flags open_sockets resize false 5 one_client) {
  incoming = typed (codes " on;") 6;
}

three_typed : later.buf.buf_idx ≡ 3
unfolding handle_input cli_get_commandline enlarge add_fd
three_typed = refl

short_text : later.buf.buf_idx + length (codes " on;") + 33 < u32_mod
short_text = omega (arith, three_typed)

handle_input_shared_example :
    (handle_input 7 no_flags open_sockets resize false 6 later).executed
    ≡ later.executed ++ command 6 (codes "led on") ∷ []
unfolding add_fd
handle_input_shared_example =
    handle_input_shared 7 no_flags open_sockets resize resize-ReallocLaws false 5 6 (codes "led")
      (codes "led on") (codes "led") (codes " on;") [] one_client later resize-ne-none typed_led
      (inr (null_at_first, refl)) (omega arith) (omega arith) first_waits refl refl (omega arith)
      short_text second_ends

-- Nothing but the client is ready.
abbrev five : FdSet
five i = i == 5

five_below : (i : ℕ) → five i ≡ true → i < one_client.nfds
unfolding add_fd
five_below i e = ground arith

wait_for_fd-serves_example :
    let both =
      accept_both 7 no_flags open_sockets
        (λ fd. none)
        (record { rfds = five; count = 1; server = one_client }) in
    (wait_for_fd 7 no_flags open_sockets resize false (λ fd. none) (some (1, five)) one_client
      ≡ for_all
          (handle_input 7 no_flags open_sockets resize false)
          (elems both.rfds 0 both.server.nfds)
          both.server)
    × ((i : ℕ)
        → both.rfds i ≡ (
            if listens one_client.sockfd_ia i
            then false
            else if listens one_client.sockfd i
            then false
            else five i))
    × Inv 7 no_flags
        (wait_for_fd 7 no_flags open_sockets resize false (λ fd. none) (some (1, five)) one_client)
unfolding add_fd
wait_for_fd-serves_example =
    wait_for_fd-serves 7 no_flags open_sockets resize false (λ fd. none) 1 five one_client
      one_client-Inv (λ e. omega (arith, e)) (omega arith) refl five_below (λ fd e. cc) (λ fd e. cc)
