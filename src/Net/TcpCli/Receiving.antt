-- ===== src/Net/TcpCli/Receiving.antt =====
-- What one client of net/esp32/tcp_cli_server_task.cc receives, whatever happens to the others.
use components_mcu.Prelude.{
  ℕ, ◌+◌, ◌-◌, ◌<◌, true, false, some, List, [], ◌∷◌, ◌++◌, append-nil, append_assoc, Bytes, ◌==◌,
  if◌then◌else◌, take, length, Bool-cases, Option-cases, ◌≢◌, inl, inr, ◌≡◌, refl, sym, ap, ◌∙◌,
  arith,
}
use components_mcu.Uout.Callbacks.{Flags}
use components_mcu.Net.TcpCli.{
  Server, Sockets, rm_fd, tcps_close_cconn, took, tcpst_putc, tcpst_putc_crlf, tcpst_writeln,
}

-- All that a socket took, in order.
abbrev pub received : ℕ → List (ℕ × Bytes) → Bytes
received fd [] = []
received fd ((i, bytes) ∷ log) = if i == fd then bytes ++ received fd log else received fd log

received-append :
    (fd i : ℕ) (bytes : Bytes) (log : List (ℕ × Bytes))
    → received fd (log ++ (i, bytes) ∷ [])
      ≡ (if i == fd then received fd log ++ bytes else received fd log)
received-append fd i bytes [] = elim (Bool-cases (i == fd)) [
  | inl hit ↦ rw hit (append-nil bytes)
  | inr miss ↦ rw miss refl
]
received-append fd i bytes ((j, b) ∷ log) = elim (Bool-cases (j == fd)) [
  | inl same ↦ elim (Bool-cases (i == fd)) [
    | inl hit ↦
        rw (same, hit)
          (ap (◌++◌ b) (received-append fd i bytes log ∙ rw hit refl)
            ∙ sym (append_assoc b (received fd log) bytes))
    | inr miss ↦ rw (same, miss) (ap (◌++◌ b) (received-append fd i bytes log ∙ rw miss refl))
  ]
  | inr other ↦ rw other (received-append fd i bytes log)
]

take-length : (bytes : Bytes) → take (length bytes) bytes ≡ bytes
take-length [] = refl
take-length (c ∷ cs) = ap (◌∷◌ c) (take-length cs)

-- Line ends become "\r\n": what a terminal gets of a text.
abbrev pub crlf_text : Bytes → Bytes
crlf_text [] = []
crlf_text (c ∷ cs) =
    if c == b'\r'
    then crlf_text cs
    else if c == b'\n'
    then b'\r' ∷ b'\n' ∷ crlf_text cs
    else c ∷ crlf_text cs

pub crlf_text-cons : (c : ℕ) (cs : Bytes) → crlf_text (c ∷ cs) ≡ crlf_text (c ∷ []) ++ crlf_text cs
crlf_text-cons c cs = ground arith

-- A client that got `r`, in a server with the bound `n`.
pub record Gets (fd n : ℕ) (r : Bytes) (s : Server) : Type 0 where
  pub bound : s.nfds ≡ n
  pub member : s.wait_fds fd ≡ true
  pub got : received fd s.sent ≡ r

pub retext : {fd n : ℕ} {r r' : Bytes} {s : Server} → r ≡ r' → Gets fd n r s → Gets fd n r' s
retext e g = record { bound = g.bound; member = g.member; got = g.got ∙ e }

module _ (cb : ℕ) (user : Flags) (net : Sockets) (fd n : ℕ) where
  close-Gets :
      (j : ℕ) (r : Bytes) (s : Server)
      → j ≢ fd
      → j < n
      → Gets fd n r s
      → Gets fd n r (tcps_close_cconn cb user net j s)
  unfolding tcps_close_cconn rm_fd
  close-Gets j r s ne lt g =
      let other : (fd == j) ≡ false = ground arith in
      let bound = g.bound in
      let top : (if j == s.nfds + 1 then s.nfds - 1 else s.nfds) ≡ s.nfds = ground arith in
      elim (Bool-cases (net.lwip_close s.sent j)) [
        | inr err ↦ rw err g
        | inl ok ↦ elim (Bool-cases (s.wait_fds j)) [
          | inr gone ↦ rw (ok, gone) g
          | inl here ↦
              rw (ok, here)
                (record { bound = top ∙ g.bound; member = rw other g.member; got = g.got })
        ]
      ]

  took-Gets :
      (j : ℕ) (bytes r : Bytes) (s : Server)
      → j ≢ fd
      → Gets fd n r s
      → Gets fd n r (took cb user net j bytes s)
  took-Gets j bytes r s ne g =
      let other : (j == fd) ≡ false = ground arith in
      record {
        bound = g.bound;
        member = g.member;
        got = received-append fd j bytes s.sent ∙ rw other g.got;
      }

  putc-Gets :
      (c j : ℕ) (r : Bytes) (s : Server)
      → j ≢ fd
      → j < n
      → Gets fd n r s
      → Gets fd n r (tcpst_putc cb user net j c s).1
  unfolding tcpst_putc
  putc-Gets c j r s ne lt g = elim (Option-cases (net.lwip_write s.sent j (c ∷ []))) [
    | inl err ↦ rw (err, tcpst_putc) (close-Gets j r s ne lt g)
    | inr (k, ok) ↦ rw (ok, tcpst_putc) (took-Gets j _ r s ne g)
  ]

  pub writeln-Gets :
      (bytes : Bytes) (j : ℕ) (r : Bytes) (s : Server)
      → j ≢ fd
      → j < n
      → Gets fd n r s
      → Gets fd n r (tcpst_writeln cb user net bytes j s)
  unfolding tcpst_writeln
  writeln-Gets bytes j r s ne lt g = elim (Option-cases (net.lwip_write s.sent j bytes)) [
    | inl err ↦ rw (err, tcpst_writeln) (close-Gets j r s ne lt g)
    | inr (k, ok) ↦ rw (ok, tcpst_writeln) (took-Gets j _ r s ne g)
  ]

  pub putc_crlf-Gets :
      (c j : ℕ) (r : Bytes) (s : Server)
      → j ≢ fd
      → j < n
      → Gets fd n r s
      → Gets fd n r (tcpst_putc_crlf cb user net j c s).1
  unfolding tcpst_putc_crlf
  putc_crlf-Gets c j r s ne lt g =
      let first = putc-Gets b'\r' j r s ne lt g in
      elim (Bool-cases (c == b'\r')) [
        | inl cr ↦ rw cr g
        | inr other ↦ elim (Bool-cases (c == b'\n')) [
          | inr plain ↦ rw (other, plain) (putc-Gets c j r s ne lt g)
          | inl lf ↦ elim (Bool-cases (tcpst_putc cb user net j b'\r' s).0) [
            | inl ok ↦ rw (other, lf, ok) (putc-Gets c j r _ ne lt first)
            | inr err ↦ rw (other, lf, err) first
          ]
        ]
      ]

  -- A client whose writes succeed.
  module _
      (takes : (log : List (ℕ × Bytes)) (bytes : Bytes)
        → net.lwip_write log fd bytes ≡ some (length bytes)) where
    took_self :
        (bytes r : Bytes) (s : Server)
        → Gets fd n r s
        → Gets fd n (r ++ bytes) (took cb user net fd (take (length bytes) bytes) s)
    took_self bytes r s g =
        let same : (fd == fd) ≡ true = ground arith in
        record {
          bound = g.bound;
          member = g.member;
          got =
              received-append fd fd (take (length bytes) bytes) s.sent
              ∙ rw same (rw g.got (ap (◌++◌ r) (take-length bytes)));
        }

    putc_self :
        (c : ℕ) (r : Bytes) (s : Server)
        → Gets fd n r s
        → ((tcpst_putc cb user net fd c s).0 ≡ true)
          × Gets fd n (r ++ c ∷ []) (tcpst_putc cb user net fd c s).1
    unfolding tcpst_putc
    putc_self c r s g = rw (takes s.sent (c ∷ []), tcpst_putc) (refl, took_self (c ∷ []) r s g)

    pub writeln_self :
        (bytes r : Bytes) (s : Server)
        → Gets fd n r s
        → Gets fd n (r ++ bytes) (tcpst_writeln cb user net bytes fd s)
    unfolding tcpst_writeln
    writeln_self bytes r s g = rw (takes s.sent bytes, tcpst_writeln) (took_self bytes r s g)

    pub putc_crlf_self :
        (c : ℕ) (r : Bytes) (s : Server)
        → Gets fd n r s
        → Gets fd n (r ++ crlf_text (c ∷ [])) (tcpst_putc_crlf cb user net fd c s).1
    unfolding tcpst_putc_crlf
    putc_crlf_self c r s g =
        let (sent, first) = putc_self b'\r' r s g in
        elim (Bool-cases (c == b'\r')) [
          | inl cr ↦ rw (cr, append-nil r) g
          | inr other ↦ elim (Bool-cases (c == b'\n')) [
            | inr plain ↦ rw (other, plain) (putc_self c r s g).1
            | inl lf ↦
                let e : c ≡ b'\n' = ground arith in
                let text : (r ++ b'\r' ∷ []) ++ c ∷ [] ≡ r ++ b'\r' ∷ b'\n' ∷ [] =
                  rw e (append_assoc r (b'\r' ∷ []) (b'\n' ∷ [])) in
                rw (other, lf, sent) (retext text (putc_self c _ _ first).1)
          ]
        ]
