-- ===== src/Net/TcpCli/Lines.antt =====
-- The characters that the reader of cli/cmdline_get.cc takes from a socket in
-- net/esp32/tcp_cli_server_task.cc.
use components_mcu.Prelude.{
  ℕ, zero, suc, ◌+◌, ◌-◌, ◌<◌, Bool, true, false, none, some, List, [], ◌∷◌, ◌++◌, map, ◌==◌, drop,
  length, length-append, ◌⊎◌, inl, inr, ◌≡◌, refl, ap, ◌∙◌, arith,
}
use components_mcu.Cli.Line.{Status, cli_get_commandline}
use components_mcu.Cli.Line.Rest.{ran_out, cli_get_commandline-Leaves}
use components_mcu.Uout.Callbacks.{Flags}
use components_mcu.Net.TcpCli.{Server, Sockets, byte}
use components_mcu.Net.TcpCli.Input.{receive, getc_of, tcps_getc, readable, getc_times, read_line}

-- The characters that wait at a socket, which is being read.
pub record Waits (fd : ℕ) (cs : List ℕ) (s : Server) : Type 0 where
  pub chars : s.incoming fd ≡ map byte cs
  pub current : (s.selected_fd ≡ some fd) ⊎ ((s.selected_fd ≡ none) × (s.getc_fd ≡ some fd))

-- What reading does not change.
pub record Kept (s s' : Server) : Type 0 where
  pub same_buf : s'.buf ≡ s.buf
  pub same_executed : s'.executed ≡ s.executed
  pub same_clients : s'.wait_fds ≡ s.wait_fds

pub kept : {s : Server} → Kept s s
kept = record { same_buf = refl; same_executed = refl; same_clients = refl }

pub kept_both : {s t u : Server} → Kept s t → Kept t u → Kept s u
kept_both h k = record {
  same_buf = k.same_buf ∙ h.same_buf;
  same_executed = k.same_executed ∙ h.same_executed;
  same_clients = k.same_clients ∙ h.same_clients;
}

drop-nil : (n : ℕ) → drop {A = ℕ} n [] ≡ []
drop-nil zero = refl
drop-nil (suc n) = refl

drop-append : (m n : ℕ) (xs ys : List ℕ) → m ≡ length xs + n → drop m (xs ++ ys) ≡ drop n ys
drop-append m n [] ys e = let same : m ≡ n = omega arith in rw same refl
drop-append zero n (x ∷ xs) ys e = absurd (omega arith)
drop-append (suc m) n (x ∷ xs) ys e = drop-append m n xs ys (omega arith)

pub length-map : (cs : List ℕ) → length (map byte cs) ≡ length cs
length-map [] = refl
length-map (c ∷ cs) = ap suc (length-map cs)

-- The calls that the reader made take what it took.
drop-Leaves :
    (status : Status) (cs rest pre : List ℕ)
    → cs ≡ pre ++ rest
    → (ran_out status ≡ 0) ⊎ (rest ≡ [])
    → drop (length cs - length rest + ran_out status) cs ≡ rest
drop-Leaves status cs rest pre e at_end =
    let n : length cs - length rest + ran_out status ≡ length pre + ran_out status =
      omega (arith, ap length e, length-append pre rest) in
    ap (drop (length cs - length rest + ran_out status)) e
    ∙ drop-append _ (ran_out status) pre rest n
    ∙ elim at_end [ inl z ↦ rw z refl | inr nothing ↦ rw nothing (drop-nil _) ]

module _ (cb : ℕ) (user : Flags) (net : Sockets) where
  getc_current :
      (fd : ℕ) (cs : List ℕ) (s : Server)
      → Waits fd cs s
      → (selected : Bool) × (tcps_getc cb user net s
          ≡ receive cb user net fd selected
              (s.incoming fd)
              (record s { selected_fd = none; getc_fd = some fd }))
  unfolding tcps_getc getc_of
  getc_current fd cs s h = elim h.current [
    | inl e ↦ (true, rw e refl)
    | inr (e, f) ↦ (false, rw (e, f) refl)
  ]

  getc_waiting :
      (fd c : ℕ) (cs : List ℕ) (s : Server)
      → Waits fd (c ∷ cs) s
      → ((tcps_getc cb user net s).0 ≡ some c)
        × Waits fd cs (tcps_getc cb user net s).1
        × Kept s (tcps_getc cb user net s).1
  unfolding receive
  getc_waiting fd c cs s h =
      let same : (fd == fd) ≡ true = ground arith in
      let (selected, e) = getc_current fd (c ∷ cs) s h in
      rw (e, h.chars)
        (
          refl,
          record { chars = rw same refl; current = inr (refl, refl) },
          record { same_buf = refl; same_executed = refl; same_clients = refl },
        )

  getc_drained :
      (fd : ℕ) (s : Server)
      → Waits fd [] s
      → ((tcps_getc cb user net s).0 ≡ none)
        × Waits fd [] (tcps_getc cb user net s).1
        × Kept s (tcps_getc cb user net s).1
  unfolding receive
  getc_drained fd s h =
      let (selected, e) = getc_current fd [] s h in
      rw (e, h.chars)
        (
          refl,
          record { chars = h.chars; current = inr (refl, refl) },
          record { same_buf = refl; same_executed = refl; same_clients = refl },
        )

  readable_all :
      (calls fd : ℕ) (cs : List ℕ) (s : Server)
      → Waits fd cs s
      → length cs < calls
      → readable cb user net calls s ≡ cs
  unfolding readable
  readable_all zero fd cs s h lt = absurd (omega arith)
  readable_all (suc calls) fd [] s h lt = rw ((getc_drained fd s h).0, readable) refl
  readable_all (suc calls) fd (c ∷ cs) s h lt =
      let (e, next, same) = getc_waiting fd c cs s h in
      rw (e, readable) (ap (◌∷◌ c) (readable_all calls fd cs _ next (omega arith)))

  getc_times-Waits :
      (calls fd : ℕ) (cs : List ℕ) (s : Server)
      → Waits fd cs s
      → Waits fd (drop calls cs) (getc_times cb user net calls s)
        × Kept s (getc_times cb user net calls s)
  unfolding getc_times
  getc_times-Waits zero fd cs s h = (h, kept)
  getc_times-Waits (suc calls) fd [] s h =
      let (e, next, same) = getc_drained fd s h in
      let (later, same') = getc_times-Waits calls fd [] _ next in
      (rw (drop-nil calls) at later, kept_both same same')
  getc_times-Waits (suc calls) fd (c ∷ cs) s h =
      let (e, next, same) = getc_waiting fd c cs s h in
      let (later, same') = getc_times-Waits calls fd cs _ next in (later, kept_both same same')

  -- A call of the reader on the socket is a call on the characters that wait there.
  pub read_line-Waits :
      (allow_lf : Bool) (fd : ℕ) (cs : List ℕ) (s : Server)
      → Waits fd cs s
      → let r = cli_get_commandline allow_lf s.buf cs in
        let s' = (read_line cb user net allow_lf fd s).1 in
        ((read_line cb user net allow_lf fd s).0 ≡ r.0)
        × (s'.buf ≡ r.1)
        × Waits fd r.2 s'
        × (s'.executed ≡ s.executed)
        × (s'.wait_fds ≡ s.wait_fds)
  unfolding read_line
  read_line-Waits allow_lf fd cs s h =
      let all =
        readable_all (length (s.incoming fd) + 1) fd cs s h
          (omega (arith, ap length h.chars, length-map cs)) in
      let (status, b, rest) = cli_get_commandline allow_lf s.buf cs in
      let (pre, e, at_end) = cli_get_commandline-Leaves allow_lf s.buf cs in
      let (after, same) = getc_times-Waits (length cs - length rest + ran_out status) fd cs s h in
      rw all (
        refl,
        refl,
        record {
          chars = after.chars ∙ ap (map byte) (drop-Leaves status cs rest pre e at_end);
          current = after.current;
        },
        same.same_executed,
        same.same_clients,
      )
