-- ===== src/Net/TcpCli/Shared.antt =====
-- The line buffer that the clients of net/esp32/tcp_cli_server_task.cc share.
use components_mcu.Prelude.{
  ℕ, ◌+◌, ◌<◌, Bool, Option, none, List, [], ◌∷◌, ◌++◌, map, Bytes, length, u32_mod, inl, inr, ◌≡◌,
  ◌≢◌, sym, ap, ◌∙◌,
}
use components_mcu.Cli.Line.Editor.{Edit, waiting, line, edit, edit_end}
use components_mcu.Cli.Line.Simulation.{AllBytes}
use components_mcu.Cli.Line.Session.{ReallocLaws, Ready}
use components_mcu.Uout.Callbacks.{Flags}
use components_mcu.Net.TcpCli.{Server, Sockets, byte}
use components_mcu.Net.TcpCli.Input.{handle_input}
use components_mcu.Net.TcpCli.Commands.{Handles, command, handle_input-Handles}

waiting_ne_line : {t l : Bytes} {rest : List ℕ} → waiting t ≢ line l rest
waiting_ne_line e = cc

waiting_inj : {t u : Bytes} → waiting t ≡ waiting u → t ≡ u
waiting_inj e = cc

line_inj : {l l' : Bytes} {rest rest' : List ℕ} → line l rest ≡ line l' rest' → l ≡ l'
line_inj e = cc

module _ (cb : ℕ) (user : Flags) (net : Sockets) (realloc : Bytes → ℕ → Option Bytes)
    (laws : ReallocLaws realloc) where
  -- What is left in the buffer where no line was ended.
  waiting-Ready :
      (allow_lf : Bool) (fd : ℕ) (t : Bytes) (e : Edit) (s s' : Server)
      → ((m : Bytes) (n : ℕ) → realloc m n ≢ none)
      → e ≡ waiting t
      → Handles cb user net realloc laws allow_lf fd e s s'
      → Ready s'.buf t
  waiting-Ready allow_lf fd t e s s' total waits (cl, inl (l, rest, is_line, ex, w, ready)) =
      absurd (waiting_ne_line (sym waits ∙ is_line))
  waiting-Ready allow_lf fd t e s s' total waits (cl, inr (u, rest, is_edit, ex, w, ready, inl z)) =
      rw (waiting_inj (sym waits ∙ is_edit ∙ ap (edit allow_lf u) z ∙ edit_end allow_lf u)) ready
  waiting-Ready allow_lf fd t e s s' total waits
        (cl, inr (u, rest, is_edit, ex, w, ready, inr (n, out))) =
      absurd (total _ n out)

  -- The command of an ended line.
  line-executed :
      (allow_lf : Bool) (fd : ℕ) (l : Bytes) (rest : List ℕ) (e : Edit) (s s' : Server)
      → ((m : Bytes) (n : ℕ) → realloc m n ≢ none)
      → e ≡ line l rest
      → Handles cb user net realloc laws allow_lf fd e s s'
      → s'.executed ≡ s.executed ++ command fd l ∷ []
  line-executed allow_lf fd l rest e s s' total ends (cl, inl (k, rest', is_line, ex, w, ready)) =
      rw (line_inj (sym ends ∙ is_line)) ex
  line-executed allow_lf fd l rest e s s' total ends
        (cl, inr (u, rest', is_edit, ex, w, ready, inl z)) =
      absurd (
        waiting_ne_line
          (sym (edit_end allow_lf u) ∙ sym (ap (edit allow_lf u) z) ∙ sym is_edit ∙ ends))
  line-executed allow_lf fd l rest e s s' total ends
        (cl, inr (u, rest', is_edit, ex, w, ready, inr (n, out))) =
      absurd (total _ n out)

  -- All clients share one line buffer. Where no allocation fails, bytes and nothing else wait at the
  -- sockets, and sizes stay in the range of `unsigned`: let a client `one` send, into a well-formed
  -- buffer without text, what the line editor leaves as the unfinished text `t`, and afterwards, with
  -- the buffer as it is then, another client `two` send bytes that end a line `l` of the line editor
  -- started with `t`. Then the command that is handed on as the one of `two` is `l`, of which `t` came
  -- from `one`.
  pub handle_input_shared :
      (allow_lf : Bool) (one two : ℕ) (t l : Bytes) (cs ds rest : List ℕ) (s s' : Server)
      → ((m : Bytes) (n : ℕ) → realloc m n ≢ none)
      → s.incoming one ≡ map byte cs
      → Ready s.buf []
      → AllBytes cs
      → s.buf.buf_idx + length cs + 33 < u32_mod
      → edit allow_lf [] cs ≡ waiting t
      → s'.buf ≡ (handle_input cb user net realloc allow_lf one s).buf
      → s'.incoming two ≡ map byte ds
      → AllBytes ds
      → s'.buf.buf_idx + length ds + 33 < u32_mod
      → edit allow_lf t ds ≡ line l rest
      → (handle_input cb user net realloc allow_lf two s').executed
        ≡ s'.executed ++ command two l ∷ []
  handle_input_shared allow_lf one two t l cs ds rest s s' total in1 ready bytes small waits same
        in2 bytes2 small2 ends =
      let first =
        handle_input-Handles cb user net realloc laws allow_lf one [] cs s in1 ready bytes small in
      let kept = waiting-Ready allow_lf one t _ s _ total waits first in
      line-executed allow_lf two l rest _ s' _ total ends (
        handle_input-Handles cb user net realloc laws allow_lf two t ds s' in2 (rw same kept) bytes2
          small2)
