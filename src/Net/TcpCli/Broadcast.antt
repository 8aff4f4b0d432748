-- ===== src/Net/TcpCli/Broadcast.antt =====
-- What the clients of net/esp32/tcp_cli_server_task.cc receive of a published message.
use components_mcu.Prelude.{
  ℕ, ◌/◌, ◌%◌, ◌<◌, Bool, true, false, some, List, [], ◌∷◌, ◌++◌, append-nil, append_assoc, Bytes,
  codes, ◌==◌, if◌then◌else◌, length, Bool-cases, Option-cases, inl, inr, ◌≡◌, refl, sym, ap, ◌∙◌,
  arith,
}
use components_mcu.Uout.Callbacks.{Flags, txt_bit}
use components_mcu.Net.TcpCli.{
  Server, Sockets, tcpst_putc, tcpst_putc_crlf, tcpst_writeln, tcpst_putc_all, tcpst_writeln_all,
  putc_each, pct_change, send_txt, send_json,
}
use components_mcu.Net.TcpCli.Invariant.{Inv, tcps_close_cconn-Inv}
use components_mcu.Net.TcpCli.Receiving.{
  received, crlf_text, crlf_text-cons, Gets, retext, putc_crlf-Gets, writeln-Gets, putc_crlf_self,
  writeln_self,
}
use components_mcu.Net.TcpCli.Foreach.{foreach_fd-keeps, foreach_fd-reaches}

-- What each client gets of a message.
abbrev pub delivered : Bool → ℕ → Bytes → Bytes
delivered use_writeln fmt_flags text =
    (if (fmt_flags / txt_bit) % 2 == 1
      then (if use_writeln then text ++ codes "\r\n" else crlf_text text)
      else [])
    ++ (if fmt_flags % 2 == 1
        then (if use_writeln then text ++ codes "\r\n" else crlf_text text ++ codes "\r\n")
        else [])

module _ (cb : ℕ) (user : Flags) (net : Sockets) where
  tcpst_putc-Inv :
      (c fd : ℕ) (s : Server) → Inv cb user s → Inv cb user (tcpst_putc cb user net fd c s).1
  unfolding tcpst_putc
  tcpst_putc-Inv c fd s h = elim (Option-cases (net.lwip_write s.sent fd (c ∷ []))) [
    | inl err ↦ rw (err, tcpst_putc) (tcps_close_cconn-Inv cb user net fd s h)
    | inr (k, ok) ↦
        rw (ok, tcpst_putc)
          (record {
            in_range = h.in_range;
            counted = h.counted;
            table = h.table;
            listening = h.listening;
          })
  ]

  tcpst_writeln-Inv :
      (bytes : Bytes) (fd : ℕ) (s : Server)
      → Inv cb user s
      → Inv cb user (tcpst_writeln cb user net bytes fd s)
  unfolding tcpst_writeln
  tcpst_writeln-Inv bytes fd s h = elim (Option-cases (net.lwip_write s.sent fd bytes)) [
    | inl err ↦ rw (err, tcpst_writeln) (tcps_close_cconn-Inv cb user net fd s h)
    | inr (k, ok) ↦
        rw (ok, tcpst_writeln)
          (record {
            in_range = h.in_range;
            counted = h.counted;
            table = h.table;
            listening = h.listening;
          })
  ]

  tcpst_putc_crlf-Inv :
      (c fd : ℕ) (s : Server) → Inv cb user s → Inv cb user (tcpst_putc_crlf cb user net fd c s).1
  unfolding tcpst_putc_crlf
  tcpst_putc_crlf-Inv c fd s h =
      let first = tcpst_putc-Inv b'\r' fd s h in
      elim (Bool-cases (c == b'\r')) [
        | inl cr ↦ rw cr h
        | inr other ↦ elim (Bool-cases (c == b'\n')) [
          | inr plain ↦ rw (other, plain) (tcpst_putc-Inv c fd s h)
          | inl lf ↦ elim (Bool-cases (tcpst_putc cb user net fd b'\r' s).0) [
            | inl ok ↦ rw (other, lf, ok) (tcpst_putc-Inv c fd _ first)
            | inr err ↦ rw (other, lf, err) first
          ]
        ]
      ]

  tcpst_putc_all-Inv :
      (c : ℕ) (s : Server) → Inv cb user s → Inv cb user (tcpst_putc_all cb user net c s)
  unfolding tcpst_putc_all
  tcpst_putc_all-Inv c s h =
      foreach_fd-keeps _ _ (Inv cb user) s.nfds s (λ j t lt. tcpst_putc_crlf-Inv c j t) h

  tcpst_writeln_all-Inv :
      (bytes : Bytes) (s : Server)
      → Inv cb user s
      → Inv cb user (tcpst_writeln_all cb user net bytes s)
  unfolding tcpst_writeln_all
  tcpst_writeln_all-Inv bytes s h =
      foreach_fd-keeps _ _ (Inv cb user) s.nfds s (λ j t lt. tcpst_writeln-Inv bytes j t) h

  putc_each-Inv :
      (text : Bytes) (s : Server) → Inv cb user s → Inv cb user (putc_each cb user net text s)
  unfolding putc_each
  putc_each-Inv [] s h = h
  putc_each-Inv (c ∷ cs) s h = putc_each-Inv cs _ (tcpst_putc_all-Inv c s h)

  send_txt-Inv :
      (use_writeln : Bool) (text : Bytes) (s : Server)
      → Inv cb user s
      → Inv cb user (send_txt cb user net use_writeln text s)
  send_txt-Inv true text s h = tcpst_writeln_all-Inv _ _ (tcpst_writeln_all-Inv text s h)
  send_txt-Inv false text s h = putc_each-Inv text s h

  send_json-Inv :
      (use_writeln : Bool) (text : Bytes) (s : Server)
      → Inv cb user s
      → Inv cb user (send_json cb user net use_writeln text s)
  send_json-Inv true text s h = tcpst_writeln_all-Inv _ _ (tcpst_writeln_all-Inv text s h)
  send_json-Inv false text s h = tcpst_putc_all-Inv _ _ (putc_each-Inv text s h)

  -- Whatever the sockets answer, a published message keeps the invariant of the server: each client is
  -- below the bound, the count is the number of clients, and the callback is subscribed exactly while
  -- there is one.
  pub pct_change-Inv :
      (use_writeln : Bool) (fmt_flags : ℕ) (text : Bytes) (s : Server)
      → Inv cb user s
      → Inv cb user (pct_change cb user net use_writeln fmt_flags text s)
  unfolding pct_change
  pct_change-Inv use_writeln fmt_flags text s h =
      let txt = send_txt-Inv use_writeln text s h in
      elim (Bool-cases ((fmt_flags / txt_bit) % 2 == 1)) [
        | inl has_txt ↦ elim (Bool-cases (fmt_flags % 2 == 1)) [
          | inl has_json ↦ rw (has_txt, has_json) (send_json-Inv use_writeln text _ txt)
          | inr no_json ↦ rw (has_txt, no_json) txt
        ]
        | inr no_txt ↦ elim (Bool-cases (fmt_flags % 2 == 1)) [
          | inl has_json ↦ rw (no_txt, has_json) (send_json-Inv use_writeln text s h)
          | inr no_json ↦ rw (no_txt, no_json) h
        ]
      ]

module _ (cb : ℕ) (user : Flags) (net : Sockets) (fd n : ℕ)
    (takes : (log : List (ℕ × Bytes)) (bytes : Bytes)
      → net.lwip_write log fd bytes ≡ some (length bytes)) where
  -- A member of the clients gets what each of them is sent.
  putc_all_self :
      (c : ℕ) (r : Bytes) (s : Server)
      → fd < n
      → Gets fd n r s
      → Gets fd n (r ++ crlf_text (c ∷ [])) (tcpst_putc_all cb user net c s)
  unfolding tcpst_putc_all
  putc_all_self c r s lt g =
      foreach_fd-reaches (λ t. t.wait_fds) (λ j t. (tcpst_putc_crlf cb user net j c t).1)
        (Gets fd n r) (Gets fd n (r ++ crlf_text (c ∷ []))) fd n (λ t h. h.bound) (λ t h. h.member)
        (putc_crlf_self cb user net fd n takes c r)
        (λ j t below h.
          putc_crlf-Gets cb user net fd n c j r t (λ e. omega (arith, e)) (omega arith) h)
        (λ j t above in_set h.
          putc_crlf-Gets cb user net fd n c j _ t (λ e. omega (arith, e)) (omega (arith, h.bound))
            h)
        s.nfds s g lt (omega (arith, g.bound))

  writeln_all_self :
      (bytes r : Bytes) (s : Server)
      → fd < n
      → Gets fd n r s
      → Gets fd n (r ++ bytes) (tcpst_writeln_all cb user net bytes s)
  unfolding tcpst_writeln_all
  writeln_all_self bytes r s lt g =
      foreach_fd-reaches (λ t. t.wait_fds) (tcpst_writeln cb user net bytes) (Gets fd n r)
        (Gets fd n (r ++ bytes)) fd n (λ t h. h.bound) (λ t h. h.member)
        (writeln_self cb user net fd n takes bytes r)
        (λ j t below h.
          writeln-Gets cb user net fd n bytes j r t (λ e. omega (arith, e)) (omega arith) h)
        (λ j t above in_set h.
          writeln-Gets cb user net fd n bytes j _ t (λ e. omega (arith, e)) (omega (arith, h.bound))
            h)
        s.nfds s g lt (omega (arith, g.bound))

  putc_each_self :
      (text r : Bytes) (s : Server)
      → fd < n
      → Gets fd n r s
      → Gets fd n (r ++ crlf_text text) (putc_each cb user net text s)
  unfolding putc_each
  putc_each_self [] r s lt g = rw (append-nil r) g
  putc_each_self (c ∷ cs) r s lt g =
      retext
        (append_assoc r (crlf_text (c ∷ [])) (crlf_text cs)
          ∙ ap (◌++◌ r) (sym (crlf_text-cons c cs)))
        (putc_each_self cs _ _ lt (putc_all_self c r s lt g))

  txt_self :
      (use_writeln : Bool) (text r : Bytes) (s : Server)
      → fd < n
      → Gets fd n r s
      → Gets fd n
          (r ++ (if use_writeln then text ++ codes "\r\n" else crlf_text text))
          (send_txt cb user net use_writeln text s)
  txt_self true text r s lt g =
      retext (append_assoc r text (codes "\r\n"))
        (writeln_all_self (codes "\r\n") _ _ lt (writeln_all_self text r s lt g))
  txt_self false text r s lt g = putc_each_self text r s lt g

  json_self :
      (use_writeln : Bool) (text r : Bytes) (s : Server)
      → fd < n
      → Gets fd n r s
      → Gets fd n
          (r ++ (if use_writeln then text ++ codes "\r\n" else crlf_text text ++ codes "\r\n"))
          (send_json cb user net use_writeln text s)
  json_self true text r s lt g =
      retext (append_assoc r text (codes "\r\n"))
        (writeln_all_self (codes "\r\n") _ _ lt (writeln_all_self text r s lt g))
  json_self false text r s lt g =
      retext (append_assoc r (crlf_text text) (codes "\r\n"))
        (putc_all_self b'\n' _ _ lt (putc_each_self text r s lt g))

  pct_change_self :
      (use_writeln : Bool) (fmt_flags : ℕ) (text r : Bytes) (s : Server)
      → fd < n
      → Gets fd n r s
      → Gets fd n
          (r ++ delivered use_writeln fmt_flags text)
          (pct_change cb user net use_writeln fmt_flags text s)
  unfolding pct_change
  pct_change_self use_writeln fmt_flags text r s lt g =
      let txt = txt_self use_writeln text r s lt g in
      elim (Bool-cases ((fmt_flags / txt_bit) % 2 == 1)) [
        | inl has_txt ↦ elim (Bool-cases (fmt_flags % 2 == 1)) [
          | inl has_json ↦
              rw (has_txt, has_json)
                (retext (append_assoc r _ _) (json_self use_writeln text _ _ lt txt))
          | inr no_json ↦ rw (has_txt, no_json) (retext (ap (◌++◌ r) (sym (append-nil _))) txt)
        ]
        | inr no_txt ↦ elim (Bool-cases (fmt_flags % 2 == 1)) [
          | inl has_json ↦ rw (no_txt, has_json) (json_self use_writeln text r s lt g)
          | inr no_json ↦ rw (no_txt, no_json, append-nil r) g
        ]
      ]

-- In a server whose invariant holds, a client whose writes all succeed gets the whole of a published
-- message and stays a client, whatever the sockets of the other clients answer: for text, the text
-- with its line ends turned into "\r\n", for JSON also a "\r\n" at the end; and with the other
-- setting, the bytes as they are with a "\r\n" at the end.
pub pct_change-delivers :
    (cb : ℕ) (user : Flags) (net : Sockets) (use_writeln : Bool) (fmt_flags : ℕ) (text : Bytes)
    (fd : ℕ) (s : Server)
    → Inv cb user s
    → s.wait_fds fd ≡ true
    → ((log : List (ℕ × Bytes)) (bytes : Bytes) → net.lwip_write log fd bytes ≡ some (length bytes))
    → (received fd (pct_change cb user net use_writeln fmt_flags text s).sent
        ≡ received fd s.sent ++ delivered use_writeln fmt_flags text)
      × ((pct_change cb user net use_writeln fmt_flags text s).wait_fds fd ≡ true)
pct_change-delivers cb user net use_writeln fmt_flags text fd s h here takes =
    let start : Gets fd s.nfds (received fd s.sent) s = record {
      bound = refl;
      member = here;
      got = refl;
    } in
    let after =
      pct_change_self cb user net fd s.nfds takes use_writeln fmt_flags text _ s
        (h.in_range fd here) start in
    (after.got, after.member)
