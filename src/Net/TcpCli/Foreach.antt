-- ===== src/Net/TcpCli/Foreach.antt =====
-- The loop over a set of file descriptors of net/esp32/tcp_cli_server_task.cc.
use components_mcu.Prelude.{
  ℕ, zero, suc, ◌+◌, ◌-◌, ◌≤◌, ◌<◌, true, false, not, ◌||◌, ltb, ◌==◌, if◌then◌else◌, Bool-cases,
  inl, inr, List, [], ◌∷◌, length, ap, subst, ◌∙◌, sym, ◌≡◌, refl, arith,
}
use components_mcu.Net.TcpCli.Invariant.{members}
use components_mcu.Net.TcpCli.{Server, FdSet, foreach_from, foreach_fd}

module _ (fdsp : Server → FdSet) (fd_fun : ℕ → Server → Server) where
  -- What each call keeps, the loop keeps.
  foreach_from-keeps {ℓ} :
      (P : Server → Type ℓ) (rounds i count : ℕ) (s : Server)
      → ((j : ℕ) (t : Server) → i ≤ j → j < t.nfds → P t → P (fd_fun j t))
      → P s
      → P (foreach_from fdsp fd_fun rounds i count s).1
  unfolding foreach_from
  foreach_from-keeps P zero i count s step p = p
  foreach_from-keeps P (suc rounds) i count s step p =
      let later = λ (j : ℕ) (t : Server) (le : i + 1 ≤ j). step j t (omega arith) in
      elim (Bool-cases ((count == 0) || not (ltb i s.nfds))) [
        | inl stop ↦ rw stop p
        | inr go ↦
            let lt : i < s.nfds = ground arith in
            elim (Bool-cases (fdsp s i)) [
              | inl hit ↦
                  rw (go, hit)
                    (foreach_from-keeps P rounds (i + 1) (count - 1) (fd_fun i s) later
                      (step i s (omega arith) lt p))
              | inr miss ↦ rw (go, miss) (foreach_from-keeps P rounds (i + 1) count s later p)
            ]
      ]

  pub foreach_fd-keeps {ℓ} :
      (P : Server → Type ℓ) (count : ℕ) (s : Server)
      → ((j : ℕ) (t : Server) → j < t.nfds → P t → P (fd_fun j t))
      → P s
      → P (foreach_fd fdsp count fd_fun s).1
  unfolding foreach_fd
  foreach_fd-keeps P count s step p = foreach_from-keeps P s.nfds 0 count s (λ j t le. step j t) p

  -- A descriptor that stays in the set until the loop is there, `P`, gets its call, with `Q` after it;
  -- the calls for others keep both.
  module _ {ℓ} (P Q : Server → Type ℓ) (fd n : ℕ) (bound : (s : Server) → P s → s.nfds ≡ n)
      (member : (s : Server) → P s → fdsp s fd ≡ true)
      (its_call : (s : Server) → P s → Q (fd_fun fd s))
      (before : (j : ℕ) (s : Server) → j < fd → P s → P (fd_fun j s))
      (after : (j : ℕ) (s : Server) → fd < j → j < s.nfds → Q s → Q (fd_fun j s)) where
    foreach_from-reaches :
        (rounds i count : ℕ) (s : Server)
        → P s
        → i ≤ fd
        → fd < n
        → n ≤ i + rounds
        → n ≤ i + count
        → Q (foreach_from fdsp fd_fun rounds i count s).1
    unfolding foreach_from
    foreach_from-reaches zero i count s p le lt r c = absurd (omega arith)
    foreach_from-reaches (suc rounds) i count s p le lt r c =
        let nfds : s.nfds ≡ n = bound s p in
        let go : ((count == 0) || not (ltb i s.nfds)) ≡ false = ground arith in
        elim (Bool-cases (i == fd)) [
          | inl here ↦
              let e : i ≡ fd = ground arith in
              let hit : fdsp s i ≡ true = rw e (member s p) in
              rw (go, hit)
                (foreach_from-keeps Q rounds (i + 1) (count - 1) (fd_fun i s)
                  (λ j t above lt q. after j t (omega arith) lt q) (rw e (its_call s p)))
          | inr earlier ↦
              let lt' : i < fd = ground arith in
              elim (Bool-cases (fdsp s i)) [
                | inl hit ↦
                    rw (go, hit)
                      (foreach_from-reaches rounds (i + 1) (count - 1) (fd_fun i s)
                        (before i s lt' p) (omega arith) lt (omega arith) (omega arith))
                | inr miss ↦
                    rw (go, miss)
                      (foreach_from-reaches rounds (i + 1) count s p (omega arith) lt (omega arith)
                        (omega arith))
              ]
        ]

    pub foreach_fd-reaches :
        (count : ℕ) (s : Server) → P s → fd < n → n ≤ count → Q (foreach_fd fdsp count fd_fun s).1
    unfolding foreach_fd
    foreach_fd-reaches count s p lt c =
        let nfds : s.nfds ≡ n = bound s p in
        foreach_from-reaches s.nfds 0 count s p (omega arith) lt (omega arith) (omega arith)

-- The members of a set from `i` on, of `k` descriptors, in ascending order.
abbrev pub elems : FdSet → ℕ → ℕ → List ℕ
elems fds i zero = []
elems fds i (suc k) = if fds i then i ∷ elems fds (i + 1) k else elems fds (i + 1) k

abbrev pub for_all : (ℕ → Server → Server) → List ℕ → Server → Server
for_all f [] s = s
for_all f (i ∷ is) s = for_all f is (f i s)

empty : (is : List ℕ) → length is ≡ 0 → is ≡ []
empty [] e = refl
empty (i ∷ is) e = absurd (omega arith)

length-elems :
    (fds : FdSet) (i k : ℕ)
    → length (elems fds i (suc k)) ≡ length (elems fds i k) + (if fds (i + k) then 1 else 0)
length-elems fds i zero = let e : i + 0 ≡ i = omega arith in rw e (ground arith)
length-elems fds i (suc k) =
    let e : i + 1 + k ≡ i + suc k = omega arith in
    let ih : length (elems fds (i + 1) (suc k))
        ≡ length (elems fds (i + 1) k) + (if fds (i + suc k) then 1 else 0) =
      rw (← e) (length-elems fds (i + 1) k) in
    elim (Bool-cases (fds i)) [ inl hit ↦ rw hit (ap suc ih ∙ omega arith) | inr miss ↦ rw miss ih ]

length-elems-members : (fds : FdSet) (n : ℕ) → length (elems fds 0 n) ≡ members fds n
length-elems-members fds zero = refl
length-elems-members fds (suc n) =
    let e : 0 + n ≡ n = omega arith in
    length-elems fds 0 n
    ∙ rw e (ap (λ (k : ℕ). k + (if fds n then 1 else 0)) (length-elems-members fds n))

-- The loop over a fixed set with the count of its members calls for each of them once, in order.
module _ {ℓ} (P : Server → Type ℓ) (n : ℕ) (fds : FdSet) (f : ℕ → Server → Server)
    (bound : (t : Server) → P t → t.nfds ≡ n) (step : (j : ℕ) (t : Server) → P t → P (f j t)) where
  foreach_from_all :
      (k i count : ℕ) (s : Server)
      → P s
      → i + k ≡ n
      → count ≡ length (elems fds i k)
      → ((foreach_from (λ t. fds) f k i count s).1 ≡ for_all f (elems fds i k) s)
        × P (for_all f (elems fds i k) s)
  unfolding foreach_from
  foreach_from_all zero i count s p e c = (refl, p)
  foreach_from_all (suc k) i count s p e c = elim (Bool-cases (count == 0)) [
    | inl none_left ↦
        let z : elems fds i (suc k) ≡ [] = empty _ (ground arith) in
        (
          rw none_left (ap (λ is. for_all f is s) (sym z)),
          subst (λ is. P (for_all f is s)) (sym z) p,
        )
    | inr more ↦
        let in_range : not (ltb i s.nfds) ≡ false = ground (arith, bound s p) in
        elim (Bool-cases (fds i)) [
          | inl hit ↦
              let c' : count ≡ length (i ∷ elems fds (i + 1) k) = rw hit at c in
              rw (more, in_range, hit)
                (foreach_from_all k (i + 1) (count - 1) (f i s) (step i s p) (omega arith)
                  (omega arith))
          | inr miss ↦
              let c' : count ≡ length (elems fds (i + 1) k) = rw miss at c in
              rw (more, in_range, miss) (foreach_from_all k (i + 1) count s p (omega arith) c')
        ]
  ]

  pub foreach_fd_all :
      (count : ℕ) (s : Server)
      → P s
      → count ≡ members fds n
      → ((foreach_fd (λ t. fds) count f s).1 ≡ for_all f (elems fds 0 n) s)
        × P (for_all f (elems fds 0 n) s)
  unfolding foreach_fd
  foreach_fd_all count s p c =
      let (all, kept) =
        foreach_from_all n 0 count s p (omega arith) (c ∙ sym (length-elems-members fds n)) in
      (ap (λ m. (foreach_from (λ t. fds) f m 0 count s).1) (bound s p) ∙ all, kept)
