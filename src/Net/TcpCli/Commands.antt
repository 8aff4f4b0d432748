-- ===== src/Net/TcpCli/Commands.antt =====
-- The command lines that `handle_input` of net/esp32/tcp_cli_server_task.cc reads from a client.
use components_mcu.Prelude.{
  ℕ, zero, suc, ◌+◌, ◌<◌, Bool, true, false, Option, none, some, List, [], ◌∷◌, ◌++◌, map, Bytes,
  ◌==◌, get_or, length, c_str, u32_mod, Bool-cases, ◌⊎◌, inl, inr, ◌≡◌, refl, sym, ap, ap₂, ◌∙◌,
  arith,
}
use components_mcu.Cli.Line.{
  CliBuf, Status, done, error, incomplete, line_buf_full, cli_get_commandline, enlarge, null_buf,
  is_full,
}
use components_mcu.Cli.Line.Editor.{Edit, line, edit, edit_end}
use components_mcu.Cli.Line.Simulation.{Holds, AllBytes, Reads, reader_full, reader-Reads}
use components_mcu.Cli.Line.Session.{ReallocLaws, Ready, enlarge_cases, enlarge_null}
use components_mcu.Uout.Callbacks.{Flags}
use components_mcu.Net.TcpCli.{Server, Sockets, Command, byte}
use components_mcu.Net.TcpCli.Input.{
  read_line, execute, after_enlarge, on_status, handle, handle_input,
}
use components_mcu.Net.TcpCli.Lines.{Waits, read_line-Waits, length-map}

-- The command of a client with the line `l`.
abbrev pub command : ℕ → Bytes → Command
command fd l = record { from = fd; is_json = get_or (c_str l) 0 0 == b'{'; command_line = c_str l }

c_str-head : (m : Bytes) → get_or m 0 0 ≡ get_or (c_str m) 0 0
c_str-head [] = refl
c_str-head (c ∷ m) = ground arith

command_of :
    (fd : ℕ) (m l : Bytes)
    → c_str m ≡ c_str l
    → ◌≡◌ {A = Command}
        (record { from = fd; is_json = get_or m 0 0 == b'{'; command_line = c_str m })
        (command fd l)
command_of fd m l e = rw (c_str-head m, e) refl

module _ (cb : ℕ) (user : Flags) (net : Sockets) (realloc : Bytes → ℕ → Option Bytes)
    (laws : ReallocLaws realloc) where
  -- What was done with the input, against the line editor: one command line, with the characters
  -- behind it left at the socket; or none, with the text kept, after all the input unless memory
  -- ran out.
  abbrev pub Handles : Bool → ℕ → Edit → Server → Server → Type 0
  Handles allow_lf fd e s s' =
      (s'.wait_fds ≡ s.wait_fds)
      × (((l : Bytes) × (rest : List ℕ) × (e ≡ line l rest)
            × (s'.executed ≡ s.executed ++ command fd l ∷ [])
            × Waits fd rest s'
            × Ready s'.buf [])
          ⊎ ((t : Bytes) × (rest : List ℕ) × (e ≡ edit allow_lf t rest)
              × (s'.executed ≡ s.executed)
              × Waits fd rest s'
              × Ready s'.buf t
              × ((rest ≡ []) ⊎ ((n : ℕ) × (realloc s'.buf.buf n ≡ none)))))

  carry :
      (allow_lf : Bool) (fd : ℕ) (e e' : Edit) (s s' r : Server)
      → e ≡ e'
      → s'.executed ≡ s.executed
      → s'.wait_fds ≡ s.wait_fds
      → Handles allow_lf fd e' s' r
      → Handles allow_lf fd e s r
  carry allow_lf fd e e' s s' r same ex cl (cl', inl (l, rest, is_line, ex', w, b)) =
      (cl' ∙ cl, inl (l, rest, same ∙ is_line, ex' ∙ ap (λ x. x ++ command fd l ∷ []) ex, w, b))
  carry allow_lf fd e e' s s' r same ex cl (cl', inr (t, rest, is_edit, ex', w, b, stop)) =
      (cl' ∙ cl, inr (t, rest, same ∙ is_edit, ex' ∙ ex, w, b, stop))

  settle_buffer :
      (allow_lf : Bool) (e : Edit) (fuel n m fd : ℕ) (status : Status) (rest : List ℕ)
      (s s' : Server)
      → Reads allow_lf e n m status s'.buf rest
      → s'.executed ≡ s.executed
      → s'.wait_fds ≡ s.wait_fds
      → Waits fd rest s'
      → m + 33 < u32_mod
      → ((b : CliBuf) (t : Bytes)
          → Holds b t
          → is_full b ≡ false
          → AllBytes rest
          → length rest < n
          → b.buf_idx + length rest + 33 < u32_mod
          → (r : Server) × (handle cb user net realloc fuel allow_lf fd (record s' { buf = b })
              ≡ some r)
            × Handles allow_lf fd (edit allow_lf t rest) (record s' { buf = b }) r)
      → (r : Server) × (on_status cb user net realloc
            (handle cb user net realloc fuel allow_lf fd)
            status
            fd
            s'
          ≡ some r)
        × Handles allow_lf fd e s r
  unfolding on_status after_enlarge execute
  settle_buffer allow_lf e fuel n m fd done rest s s' (l, is_line, ended) ex cl w small rec = (
    _,
    refl,
    (
      cl,
      inl (
        l,
        rest,
        is_line,
        ap₂ (λ x y. x ++ y ∷ []) ex (command_of fd s'.buf.buf l ended.c_string),
        record { chars = w.chars; current = w.current },
        inl ended.emptied,
      ),
    ),
  )
  settle_buffer allow_lf e fuel n m fd incomplete rest s s' (t, is_waiting, h, none_left) ex cl w
        small rec =
      let over = is_waiting ∙ sym (ap (edit allow_lf t) none_left ∙ edit_end allow_lf t) in
      (_, refl, (cl, inr (t, rest, over, ex, w, inl h, inl none_left)))
  settle_buffer allow_lf e fuel n m fd error rest s s' f ex cl w small rec = absurd f
  settle_buffer allow_lf e fuel n m fd line_buf_full rest s s' (t, same, h, full, bytes, lt, sum) ex
        cl w small rec =
      elim (enlarge_cases realloc laws s'.buf t h full (omega arith)) [
        | inl (b, e', h', free, idx) ↦
            let (r, ran, f) = rec b t h' free bytes lt (omega (arith, idx)) in
            (
              r,
              ap
                    (λ g.
                      after_enlarge cb user net realloc
                        (handle cb user net realloc fuel allow_lf fd) g s')
                    e'
                  ∙ ran,
              carry allow_lf fd _ _ s (record s' { buf = b }) r same ex cl f,
            )
        | inr (e', out) ↦ (
          _,
          ap
              (λ g.
                after_enlarge cb user net realloc (handle cb user net realloc fuel allow_lf fd) g
                  s')
              e',
          (
            cl,
            inr (
              t,
              rest,
              same,
              ex,
              record { chars = w.chars; current = w.current },
              inl h,
              inr (_, out),
            ),
          ),
        )
      ]

  handle-Holds :
      (allow_lf : Bool) (fuel fd : ℕ) (t : Bytes) (cs : List ℕ) (s : Server)
      → Waits fd cs s
      → Holds s.buf t
      → is_full s.buf ≡ false
      → AllBytes cs
      → length cs < fuel
      → s.buf.buf_idx + length cs + 33 < u32_mod
      → (s' : Server) × (handle cb user net realloc fuel allow_lf fd s ≡ some s')
        × Handles allow_lf fd (edit allow_lf t cs) s s'
  unfolding handle
  handle-Holds allow_lf zero fd t cs s w h free bytes enough small = absurd (omega arith)
  handle-Holds allow_lf (suc fuel) fd t cs s w h free bytes enough small =
      let (st, buf, w', ex, cl) = read_line-Waits cb user net allow_lf fd cs s w in
      let r = reader-Reads allow_lf s.buf t cs h free bytes in
      settle_buffer allow_lf (edit allow_lf t cs) fuel (length cs) (s.buf.buf_idx + length cs) fd
        (read_line cb user net allow_lf fd s).0 (cli_get_commandline allow_lf s.buf cs).2 s
        (read_line cb user net allow_lf fd s).1 (rw (st, buf) r) ex cl w' small
        (λ b t' h' free' bytes' lt.
          handle-Holds allow_lf fuel fd t' _ _ (record { chars = w'.chars; current = w'.current })
            h' free' bytes' (omega arith))

  on_status_null :
      (allow_lf : Bool) (fuel fd : ℕ) (cs : List ℕ) (s s' : Server)
      → s'.buf ≡ null_buf
      → Waits fd cs s'
      → s'.executed ≡ s.executed
      → s'.wait_fds ≡ s.wait_fds
      → AllBytes cs
      → length cs < fuel
      → length cs + 33 < u32_mod
      → (r : Server) × (on_status cb user net realloc
            (handle cb user net realloc fuel allow_lf fd)
            line_buf_full
            fd
            s'
          ≡ some r)
        × Handles allow_lf fd (edit allow_lf [] cs) s r
  unfolding on_status after_enlarge
  on_status_null allow_lf fuel fd cs s s' null w ex cl bytes enough small =
      let grows = λ (g : Bool × CliBuf).
        after_enlarge cb user net realloc (handle cb user net realloc fuel allow_lf fd) g s' in
      let w' = λ (b : CliBuf).
        (let v : Waits fd cs (record s' { buf = b }) = record {
          chars = w.chars;
          current = w.current;
        } in
          v) in
      elim (enlarge_null realloc laws) [
        | inr (failed, out) ↦ (
          _,
          ap (λ b. grows (enlarge realloc b)) null ∙ ap grows failed,
          (cl, inr ([], cs, refl, ex, w' null_buf, inr (refl, refl), inr (64, out))),
        )
        | inl (p, allocated, h) ↦
            let b : CliBuf = record null_buf { buf = p; buf_size = 64 } in
            let (r, ran, f) =
              handle-Holds allow_lf fuel fd [] cs (record s' { buf = b }) (w' b) h (ground arith)
                bytes enough (omega arith) in
            (
              r,
              ap (λ b. grows (enlarge realloc b)) null ∙ ap grows allocated ∙ ran,
              carry allow_lf fd _ _ s (record s' { buf = b }) r refl ex cl f,
            )
      ]

  handle-step :
      (fuel fd : ℕ) (allow_lf : Bool) (s : Server)
      → handle cb user net realloc (suc fuel) allow_lf fd s
        ≡ on_status cb user net realloc
            (handle cb user net realloc fuel allow_lf fd)
            (read_line cb user net allow_lf fd s).0
            fd
            (read_line cb user net allow_lf fd s).1
  unfolding handle
  handle-step fuel fd allow_lf s = refl

  -- A call on a full buffer begins by growing it.
  handle_full :
      (allow_lf : Bool) (fuel fd : ℕ) (cs : List ℕ) (s : Server)
      → Waits fd cs s
      → is_full s.buf ≡ true
      → let s' = (read_line cb user net allow_lf fd s).1 in
        (handle cb user net realloc (suc fuel) allow_lf fd s
          ≡ on_status cb user net realloc
              (handle cb user net realloc fuel allow_lf fd)
              line_buf_full
              fd
              s')
        × (s'.buf ≡ s.buf)
        × Waits fd cs s'
        × (s'.executed ≡ s.executed)
        × (s'.wait_fds ≡ s.wait_fds)
  handle_full allow_lf fuel fd cs s w full =
      let (st, buf, w', ex, cl) = read_line-Waits cb user net allow_lf fd cs s w in
      let e = reader_full allow_lf s.buf cs full in
      let s' = (read_line cb user net allow_lf fd s).1 in
      let rest = ap (λ (r : Status × CliBuf × List ℕ). r.2) e in
      (
        handle-step fuel fd allow_lf s
            ∙ ap
                (λ x.
                  on_status cb user net realloc (handle cb user net realloc fuel allow_lf fd) x fd
                    s')
                (st ∙ ap (λ (r : Status × CliBuf × List ℕ). r.0) e),
        buf ∙ ap (λ (r : Status × CliBuf × List ℕ). r.1) e,
        record { chars = w'.chars ∙ ap (map byte) rest; current = w'.current },
        ex,
        cl,
      )

  handle-Ready :
      (allow_lf : Bool) (fuel fd : ℕ) (t : Bytes) (cs : List ℕ) (s : Server)
      → Waits fd cs s
      → Ready s.buf t
      → AllBytes cs
      → length cs < fuel
      → s.buf.buf_idx + length cs + 33 < u32_mod
      → (s' : Server) × (handle cb user net realloc (suc fuel) allow_lf fd s ≡ some s')
        × Handles allow_lf fd (edit allow_lf t cs) s s'
  handle-Ready allow_lf fuel fd t cs s w (inl h) bytes enough small =
      elim (Bool-cases (is_full s.buf)) [
        | inr free ↦ handle-Holds allow_lf (suc fuel) fd t cs s w h free bytes (omega arith) small
        | inl full ↦
            let (step, same, w', ex, cl) = handle_full allow_lf fuel fd cs s w full in
            let (r, ran, f) =
              settle_buffer allow_lf (edit allow_lf t cs) fuel (suc (length cs))
                (s.buf.buf_idx + length cs) fd line_buf_full cs s _
                (rw same (t, refl, h, full, bytes, omega arith, omega arith)) ex cl w' small
                (λ b t' h' free' bytes' lt.
                  handle-Holds allow_lf fuel fd t' _ _
                    (record { chars = w'.chars; current = w'.current }) h' free' bytes'
                    (omega arith)) in
            (r, step ∙ ran, f)
      ]
  handle-Ready allow_lf fuel fd t cs s w (inr (e, empty)) bytes enough small =
      let full : is_full s.buf ≡ true = rw e refl in
      let (step, same, w', ex, cl) = handle_full allow_lf fuel fd cs s w full in
      let (r, ran, f) =
        on_status_null allow_lf fuel fd cs s _ (same ∙ e) w' ex cl bytes enough (omega (arith)) in
      (r, step ∙ ran, rw empty f)

  handle_input_runs :
      (allow_lf : Bool) (fd : ℕ) (s r : Server)
      → handle cb user net realloc
          (suc (length (s.incoming fd) + 1))
          allow_lf
          fd
          (record s { selected_fd = some fd })
        ≡ some r
      → handle_input cb user net realloc allow_lf fd s ≡ r
  unfolding handle_input
  handle_input_runs allow_lf fd s r ran = rw (ran, handle_input) refl

  -- Where bytes and nothing else wait at the socket of a client, the buffer is well formed and holds
  -- the unfinished text `t`, sizes stay in the range of `unsigned` and `realloc` keeps its laws, one
  -- call of `handle_input` does what the line editor does with `t` followed by the bytes, whichever
  -- client `t` came from: it hands on the first line as a command of this client, as JSON just if it
  -- begins with a brace, leaves the bytes behind it at the socket and empties the buffer; or it hands
  -- on nothing, and the buffer with the unread bytes stands for the same text, where bytes are left
  -- only if `realloc` failed. No client is closed.
  pub handle_input-Handles :
      (allow_lf : Bool) (fd : ℕ) (t : Bytes) (cs : List ℕ) (s : Server)
      → s.incoming fd ≡ map byte cs
      → Ready s.buf t
      → AllBytes cs
      → s.buf.buf_idx + length cs + 33 < u32_mod
      → Handles allow_lf fd (edit allow_lf t cs) s (handle_input cb user net realloc allow_lf fd s)
  handle_input-Handles allow_lf fd t cs s chars ready bytes small =
      let n : length cs < length (s.incoming fd) + 1 =
        omega (arith, ap length chars, length-map cs) in
      let (r, ran, f) =
        handle-Ready allow_lf (length (s.incoming fd) + 1) fd t cs
          (record s { selected_fd = some fd }) (record { chars = chars; current = inl refl }) ready
          bytes n small in
      rw (handle_input_runs allow_lf fd s r ran) f
