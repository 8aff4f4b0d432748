-- ===== src/Net/TcpCli/Invariant.antt =====
-- The set of clients, its bound and its count in net/esp32/tcp_cli_server_task.cc, and the
-- subscription to uout/callbacks.cc that lives as long as there are clients.
use components_mcu.Prelude.{
  ℕ, zero, suc, ◌+◌, ◌-◌, ◌≤◌, ◌<◌, true, false, none, some, ltb, ◌==◌, if◌then◌else◌, Bool-cases,
  ◌≢◌, inl, inr, ◌≡◌, refl, sym, ap, ◌∙◌, arith, List,
}
use components_mcu.Uout.Callbacks.{Flags, Slot, subscribe, unsubscribe}
use components_mcu.Uout.Callbacks.Slots
use components_mcu.Uout.Callbacks.Slots.{
  active, active-subscribe, active-unsubscribe, subscribe-Inv, unsubscribe-Inv,
}
use components_mcu.Net.TcpCli.{
  Recv, new_server, Server, Sockets, FdSet, fd_set_bit, fd_clr, subscribed_flags, add_fd, rm_fd,
  tcps_close_cconn,
}

-- How many descriptors below `n` are in the set.
abbrev pub members : FdSet → ℕ → ℕ
members fds zero = 0
members fds (suc n) = members fds n + (if fds n then 1 else 0)

members-fd_set_bit_above :
    (fds : FdSet) (fd n : ℕ) → n ≤ fd → members (fd_set_bit fd fds) n ≡ members fds n
members-fd_set_bit_above fds fd zero h = refl
members-fd_set_bit_above fds fd (suc n) h =
    ground (arith, members-fd_set_bit_above fds fd n (omega arith))

members-fd_set_bit :
    (fds : FdSet) (fd n : ℕ)
    → fds fd ≡ false
    → fd < n
    → members (fd_set_bit fd fds) n ≡ members fds n + 1
members-fd_set_bit fds fd zero new h = absurd (omega arith)
members-fd_set_bit fds fd (suc n) new h = elim (Bool-cases (n == fd)) [
  | inl same ↦
      let e : n ≡ fd = ground arith in
      rw e (ground (arith, members-fd_set_bit_above fds fd fd (omega arith)))
  | inr other ↦ let lt : fd < n = ground arith in ground (arith, members-fd_set_bit fds fd n new lt)
]

members-fd_clr_above : (fds : FdSet) (fd n : ℕ) → n ≤ fd → members (fd_clr fd fds) n ≡ members fds n
members-fd_clr_above fds fd zero h = refl
members-fd_clr_above fds fd (suc n) h = ground (arith, members-fd_clr_above fds fd n (omega arith))

pub members-fd_clr :
    (fds : FdSet) (fd n : ℕ)
    → fds fd ≡ true
    → fd < n
    → members (fd_clr fd fds) n + 1 ≡ members fds n
members-fd_clr fds fd zero old h = absurd (omega arith)
members-fd_clr fds fd (suc n) old h = elim (Bool-cases (n == fd)) [
  | inl same ↦
      let e : n ≡ fd = ground arith in
      rw e (ground (arith, members-fd_clr_above fds fd fd (omega arith)))
  | inr other ↦ let lt : fd < n = ground arith in ground (arith, members-fd_clr fds fd n old lt)
]

-- A bound above all members can grow.
pub members-le :
    (fds : FdSet) (n m : ℕ)
    → ((fd : ℕ) → fds fd ≡ true → fd < n)
    → n ≤ m
    → members fds m ≡ members fds n
members-le fds n zero bound h = let e : n ≡ 0 = omega arith in rw e
members-le fds n (suc m) bound h = elim (Bool-cases (n == suc m)) [
  | inl same ↦ let e : n ≡ suc m = ground arith in rw e
  | inr other ↦
      let le : n ≤ m = ground arith in
      elim (Bool-cases (fds m)) [
        | inl hit ↦ absurd (omega (arith, bound m hit))
        | inr miss ↦ rw miss (omega (arith, members-le fds n m bound le))
      ]
]

false_ne_true : false ≢ true
false_ne_true e = cc

module _ (cb : ℕ) (user : Flags) where
  -- Each client is below the bound, the count is their number, and the callback is subscribed while
  -- there is a client, and only then.
  pub record Inv (s : Server) : Type 0 where
    pub in_range : (fd : ℕ) → s.wait_fds fd ≡ true → fd < s.nfds
    pub counted : s.cconn_count ≡ members s.wait_fds s.nfds
    pub table : Slots.Inv s.slots
    pub listening :
        active cb s.slots ≡ (if s.cconn_count == 0 then none else some (subscribed_flags user))

  -- A server without clients.
  pub new_server-Inv :
      (slots : List Slot) (incoming : ℕ → List Recv)
      → Slots.Inv slots
      → active cb slots ≡ none
      → Inv (new_server slots incoming)
  new_server-Inv slots incoming table idle = record {
    in_range = λ fd e. absurd (false_ne_true e);
    counted = refl;
    table = table;
    listening = idle;
  }

  active_added :
      (s : Server)
      → Inv s
      → cb ≢ 0
      → (s.cconn_count ≡ 0 → (subscribe cb (subscribed_flags user) s.slots).0 ≡ true)
      → active cb
          (if s.cconn_count == 0 then (subscribe cb (subscribed_flags user) s.slots).1 else s.slots)
        ≡ some (subscribed_flags user)
  active_added s h nz room = elim (Bool-cases (s.cconn_count == 0)) [
    | inl first ↦
        let e : s.cconn_count ≡ 0 = ground arith in
        let same : (cb == cb) ≡ true = ground arith in
        rw first (
          active-subscribe cb (subscribed_flags user) cb s.slots nz h.table
          ∙ rw (room e, same) refl)
    | inr later ↦ rw later (h.listening ∙ rw later refl)
  ]

  still_listening :
      (s : Server)
      → Inv s
      → 0 < s.cconn_count
      → active cb (if s.cconn_count - 1 == 0 then (unsubscribe cb s.slots).1 else s.slots)
        ≡ (if s.cconn_count - 1 == 0 then none else some (subscribed_flags user))
  still_listening s h pos = elim (Bool-cases (s.cconn_count - 1 == 0)) [
    | inl last ↦
        let same : (cb == cb) ≡ true = ground arith in
        rw last (active-unsubscribe cb cb s.slots ∙ rw same refl)
    | inr more ↦
        let busy : (s.cconn_count == 0) ≡ false = ground arith in
        rw more (h.listening ∙ rw busy refl)
  ]

  module _ (net : Sockets) where
    -- Where the callback is not null and, for the first client, a slot is free for it, a new
    -- descriptor keeps the invariant: each client is below the bound, the count is the number of
    -- clients, and the callback is subscribed exactly while there is one.
    pub add_fd-Inv :
        (fd : ℕ) (s : Server)
        → Inv s
        → cb ≢ 0
        → s.wait_fds fd ≡ false
        → (s.cconn_count ≡ 0 → (subscribe cb (subscribed_flags user) s.slots).0 ≡ true)
        → Inv (add_fd cb user net fd s)
    unfolding add_fd
    add_fd-Inv fd s h nz new room =
        let top : ℕ = if ltb s.nfds (fd + 1) then fd + 1 else s.nfds in
        let le : s.nfds ≤ top = ground arith in
        let lt : fd < top = ground arith in
        record {
          in_range = λ i hit. elim (Bool-cases (i == fd)) [
            | inl same ↦ let e : i ≡ fd = ground arith in rw e lt
            | inr other ↦
                let old : s.wait_fds i ≡ true = rw other at hit in omega (arith, h.in_range i old)
          ];
          counted = sym (
              members-fd_set_bit s.wait_fds fd top new lt
              ∙ ap (λ (k : ℕ). k + 1)
                  (members-le s.wait_fds s.nfds top h.in_range le ∙ sym h.counted));
          table = elim (Bool-cases (s.cconn_count == 0)) [
            | inl first ↦ rw first (subscribe-Inv cb (subscribed_flags user) s.slots nz h.table)
            | inr later ↦ rw later h.table
          ];
          listening =
              let busy : (s.cconn_count + 1 == 0) ≡ false = ground arith in
              rw busy (active_added s h nz room);
        }

    -- Taking a descriptor out of the set keeps the invariant, a client or not.
    pub rm_fd-Inv : (fd : ℕ) (s : Server) → Inv s → Inv (rm_fd cb user net fd s)
    unfolding rm_fd
    rm_fd-Inv fd s h = elim (Bool-cases (s.wait_fds fd)) [
      | inr gone ↦ rw gone h
      | inl here ↦
          let lt = h.in_range fd here in
          let top : (if fd == s.nfds + 1 then s.nfds - 1 else s.nfds) ≡ s.nfds = ground arith in
          let count = members-fd_clr s.wait_fds fd s.nfds here lt in
          rw (here, top)
            (record {
              in_range = λ i hit. elim (Bool-cases (i == fd)) [
                | inl same ↦ let e : i ≡ fd = ground arith in rw e lt
                | inr other ↦ h.in_range i (rw other at hit)
              ];
              counted = omega (arith, count, h.counted);
              table = elim (Bool-cases (s.cconn_count - 1 == 0)) [
                | inl last ↦ rw last (unsubscribe-Inv cb s.slots h.table)
                | inr more ↦ rw more h.table
              ];
              listening = still_listening s h (omega (arith, count, h.counted));
            })
    ]

    pub tcps_close_cconn-Inv :
        (fd : ℕ) (s : Server) → Inv s → Inv (tcps_close_cconn cb user net fd s)
    unfolding tcps_close_cconn
    tcps_close_cconn-Inv fd s h = elim (Bool-cases (net.lwip_close s.sent fd)) [
      | inl ok ↦ rw ok (rm_fd-Inv fd s h)
      | inr err ↦ rw err h
    ]
