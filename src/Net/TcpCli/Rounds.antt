-- ===== src/Net/TcpCli/Rounds.antt =====
-- A round of `wait_for_fd` of net/esp32/tcp_cli_server_task.cc: new clients, and each ready one.
use components_mcu.Prelude.{
  ℕ, ◌≤◌, ◌<◌, Bool, true, false, Option, none, some, Bytes, ◌==◌, if◌then◌else◌, Bool-cases,
  Option-cases, ◌≢◌, inl, inr, ◌≡◌, refl, ap, ◌∙◌, arith,
}
use components_mcu.Uout.Callbacks.{Flags, subscribe}
use components_mcu.Net.TcpCli.{Server, Sockets, FdSet, fd_clr, add_fd, subscribed_flags}
use components_mcu.Net.TcpCli.Foreach.{elems, for_all, foreach_fd_all}
use components_mcu.Net.TcpCli.Input.{handle_input}
use components_mcu.Net.TcpCli.Invariant.{Inv, members, members-fd_clr, members-le, add_fd-Inv}
use components_mcu.Net.TcpCli.Select.{
  Wait, welcome, greet, accept_client, accept_ready, accept_both, wait_for_fd,
}
use components_mcu.Net.TcpCli.Serving.{Bounded, handle_input-Bounded}

abbrev pub listens : Option ℕ → ℕ → Bool
listens none i = false
listens (some fd) i = i == fd

module _ (cb : ℕ) (user : Flags) (net : Sockets) where
  greet-Inv : (fd : ℕ) (s : Server) → Inv cb user s → Inv cb user (greet cb user net fd s)
  greet-Inv fd s h = elim (Option-cases (net.lwip_write s.sent fd welcome)) [
    | inl e ↦ rw (e, greet) h
    | inr (n, e) ↦
        rw (e, greet)
          (record {
            in_range = h.in_range;
            counted = h.counted;
            table = h.table;
            listening = h.listening;
          })
  ]

  nfds_greet : (fd : ℕ) (s : Server) → (greet cb user net fd s).nfds ≡ s.nfds
  nfds_greet fd s = elim (Option-cases (net.lwip_write s.sent fd welcome)) [
    | inl e ↦ rw (e, greet) refl
    | inr (n, e) ↦ rw (e, greet) refl
  ]

  -- The room for the callback, and descriptors that are no clients yet.
  abbrev pub Accepts : Option ℕ → Server → Type 0
  Accepts o s =
      ((fd : ℕ) → o ≡ some fd → s.wait_fds fd ≡ false)
      × (s.cconn_count ≡ 0 → (subscribe cb (subscribed_flags user) s.slots).0 ≡ true)

  accept_client-Inv :
      (o : Option ℕ) (s : Server)
      → Inv cb user s
      → cb ≢ 0
      → Accepts o s
      → Inv cb user (accept_client cb user net o s)
        × (s.nfds ≤ (accept_client cb user net o s).nfds)
  unfolding accept_client add_fd
  accept_client-Inv none s h nz can = (h, omega arith)
  accept_client-Inv (some fd) s h nz (fresh, room) =
      let added = add_fd cb user net fd s in
      let bound = nfds_greet fd added in
      (
        greet-Inv fd added (add_fd-Inv cb user net fd s h nz (fresh fd refl) room),
        rw bound (ground arith),
      )

  -- The count is the number of the ready descriptors, which are below the bound.
  pub record Ready (w : Wait) : Type 0 where
    pub inv : Inv cb user w.server
    pub below : (i : ℕ) → w.rfds i ≡ true → i < w.server.nfds
    pub count : w.count ≡ members w.rfds w.server.nfds

  accept_ready-Ready :
      (lwip_accept : ℕ → Option ℕ) (o : Option ℕ) (w : Wait)
      → cb ≢ 0
      → Ready w
      → ((fd : ℕ) → o ≡ some fd → Accepts (lwip_accept fd) w.server)
      → Ready (accept_ready cb user net lwip_accept o w)
        × ((i : ℕ)
            → (accept_ready cb user net lwip_accept o w).rfds i
              ≡ (if listens o i then false else w.rfds i))
  unfolding accept_ready
  accept_ready-Ready lwip_accept none w nz r can = (r, λ i. refl)
  accept_ready-Ready lwip_accept (some fd) w nz r can = elim (Bool-cases (w.rfds fd)) [
    | inr idle ↦ rw idle (
      r,
      λ i. elim (Bool-cases (i == fd)) [
        | inl same ↦ let e : i ≡ fd = ground arith in rw e (rw idle (ground arith))
        | inr other ↦ rw other refl
      ],
    )
    | inl here ↦
        let (h, grown) = accept_client-Inv (lwip_accept fd) w.server r.inv nz (can fd refl) in
        let still = λ (i : ℕ) (hit : fd_clr fd w.rfds i ≡ true).
          (let old : w.rfds i ≡ true = ground arith in r.below i old) in
        let counted = members-fd_clr w.rfds fd w.server.nfds here (r.below fd here) in
        let same =
          members-le (fd_clr fd w.rfds) w.server.nfds
            (accept_client cb user net (lwip_accept fd) w.server).nfds still grown in
        rw here (
          record {
            inv = h;
            below = λ i hit. omega (arith, still i hit, grown);
            count = omega (arith, counted, same, r.count);
          },
          λ i. refl,
        )
  ]

  -- In a server whose invariant holds, where `lwip_select` gives as count the number of the ready
  -- descriptors, one at least and all below the bound, the callback is not null, and each accepted
  -- descriptor is new with a slot free for the first client: a round accepts the new clients, and then
  -- calls `handle_input` once for each ready descriptor that does not listen, in ascending order. The
  -- invariant of the clients holds after it, whatever the sockets answer.
  pub wait_for_fd-serves :
      (realloc : Bytes → ℕ → Option Bytes) (allow_lf : Bool) (lwip_accept : ℕ → Option ℕ)
      (count : ℕ) (ready : FdSet) (s : Server)
      → Inv cb user s
      → cb ≢ 0
      → 0 < count
      → count ≡ members ready s.nfds
      → ((i : ℕ) → ready i ≡ true → i < s.nfds)
      → let start : Wait = record { rfds = ready; count = count; server = s } in
        let first = accept_ready cb user net lwip_accept s.sockfd start in
        let both = accept_both cb user net lwip_accept start in
        ((fd : ℕ) → s.sockfd ≡ some fd → Accepts (lwip_accept fd) s)
        → ((fd : ℕ) → s.sockfd_ia ≡ some fd → Accepts (lwip_accept fd) first.server)
        → (wait_for_fd cb user net realloc allow_lf lwip_accept (some (count, ready)) s
            ≡ for_all
                (handle_input cb user net realloc allow_lf)
                (elems both.rfds 0 both.server.nfds)
                both.server)
          × ((i : ℕ)
              → both.rfds i ≡ (
                  if listens s.sockfd_ia i
                  then false
                  else if listens s.sockfd i
                  then false
                  else ready i))
          × Inv cb user
              (wait_for_fd cb user net realloc allow_lf lwip_accept (some (count, ready)) s)
  unfolding wait_for_fd accept_both
  wait_for_fd-serves realloc allow_lf lwip_accept count ready s h nz pos counted below can1 can2 =
      let start : Wait = record { rfds = ready; count = count; server = s } in
      let (r1, e1) =
        accept_ready-Ready lwip_accept s.sockfd start nz
          (record { inv = h; below = below; count = counted }) can1 in
      let first = accept_ready cb user net lwip_accept s.sockfd start in
      let (r2, e2) = accept_ready-Ready lwip_accept s.sockfd_ia first nz r1 can2 in
      let both = accept_ready cb user net lwip_accept s.sockfd_ia first in
      let some_ready : (count == 0) ≡ false = ground arith in
      let (all, b) =
        foreach_fd_all (Bounded cb user net both.server.nfds) both.server.nfds both.rfds
          (handle_input cb user net realloc allow_lf) (λ t p. p.1)
          (λ j t p. handle_input-Bounded cb user net both.server.nfds realloc allow_lf j t p)
          both.count both.server (r2.inv, refl) r2.count in
      rw some_ready
        (all, λ i. e2 i ∙ (ap (λ x. if listens s.sockfd_ia i then false else x) (e1 i)), rw all b.0)
