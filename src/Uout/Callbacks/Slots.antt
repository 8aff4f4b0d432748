-- ===== src/Uout/Callbacks/Slots.antt =====
-- Subscriptions of uout/callbacks.cc as a finite map from callbacks to flags.
use mathlib.Core.Option
use components_mcu.Prelude.{
  ℕ, zero, suc, replicate, Bool, true, false, ◌&&◌, Option, none, some, List, [], ◌∷◌, ◌==◌,
  if◌then◌else◌, Bool-cases, ◌⊎◌, inl, inr, ◌↔◌, ◌≡◌, ◌≢◌, refl, sym, ap, arith,
}
use components_mcu.Uout.Callbacks.{
  Flags, Slot, empty_slot, cbs_size, initial_slots, skips, take_slot, subscribe, unsubscribe,
}

-- No slot has the callback.
abbrev pub Absent : ℕ → List Slot → Type 0
Absent c [] = Unit {0}
Absent c (s ∷ ss) = (s.cb ≢ c) × Absent c ss

-- A callback stands in one slot at most, and an enabled slot has a callback.
abbrev pub Inv : List Slot → Type 0
Inv [] = Unit {0}
Inv (s ∷ ss) = ((s.cb ≢ 0) → Absent s.cb ss) × (s.cb ≡ 0 → s.enabled ≡ false) × Inv ss

replicate-Inv : (n : ℕ) → Inv (replicate n empty_slot)
replicate-Inv zero = tt
replicate-Inv (suc n) = (λ z. absurd (z refl), λ _. refl, replicate-Inv n)

pub initial-Inv : Inv initial_slots
initial-Inv = replicate-Inv cbs_size

-- The flags that the callback is subscribed with.
unfoldable pub active : ℕ → List Slot → Option Flags
active c [] = none
active c (s ∷ ss) = if s.cb == c then (if s.enabled then some s.flags else none) else active c ss

pub active-Absent : (c : ℕ) (ss : List Slot) → Absent c ss → active c ss ≡ none
unfolding active
active-Absent c [] h = refl
active-Absent c (s ∷ ss) h = ground (arith, active-Absent c ss)

-- What a pass takes, when it takes a slot.
data Taken (pass msg_cb : ℕ) (f : Flags) : List Slot → List Slot → Type 0 where
  here :
      {s : Slot} {ss : List Slot}
      → skips pass msg_cb s ≡ false
      → Taken pass msg_cb f (s ∷ ss) (record { cb = msg_cb; flags = f; enabled = true } ∷ ss)
  there :
      {s : Slot} {ss t : List Slot}
      → skips pass msg_cb s ≡ true
      → Taken pass msg_cb f ss t
      → Taken pass msg_cb f (s ∷ ss) (s ∷ t)

take_slot_cases :
    (pass msg_cb : ℕ) (f : Flags) (ss : List Slot)
    → (take_slot pass msg_cb f ss ≡ none)
      ⊎ ((t : List Slot) × (take_slot pass msg_cb f ss ≡ some t) × Taken pass msg_cb f ss t)
unfolding take_slot
take_slot_cases pass msg_cb f [] = inl refl
take_slot_cases pass msg_cb f (s ∷ ss) = elim (Bool-cases (skips pass msg_cb s)) [
  | inr free ↦ inr (_, rw free, here free)
  | inl skipped ↦ elim (take_slot_cases pass msg_cb f ss) [
    | inl e ↦ inl (rw (skipped, e))
    | inr (t, e, h) ↦ inr (s ∷ t, rw (skipped, e), there skipped h)
  ]
]

map-none : (s : Slot) (o : Option (List Slot)) → Option.map (◌∷◌ s) o ≡ none → o ≡ none
map-none s none e = refl
map-none s (some t) e = cc

-- Every slot is in use.
abbrev pub Full : List Slot → Type 0
Full [] = Unit {0}
Full (s ∷ ss) = (s.cb ≢ 0) × (s.enabled ≡ true) × Full ss

module _ (msg_cb : ℕ) (f : Flags) where
  Taken-Absent :
      (pass d : ℕ) {ss t : List Slot}
      → Taken pass msg_cb f ss t
      → msg_cb ≢ d
      → Absent d ss
      → Absent d t
  Taken-Absent pass d (here e) ne h = (ne, h.1)
  Taken-Absent pass d (there e k) ne h = (h.0, Taken-Absent pass d k ne h.1)

  Taken0-Inv : {ss t : List Slot} → Taken 0 msg_cb f ss t → msg_cb ≢ 0 → Inv ss → Inv t
  Taken0-Inv (here {s = s} e) ne h =
      let same : s.cb ≡ msg_cb = ground arith in
      (λ _. rw same at (h.0 (rw same ne)), λ z. absurd (ne z), h.2)
  Taken0-Inv (there {s = s} e k) ne h =
      (λ z. Taken-Absent 0 s.cb k (ground arith) (h.0 z), h.1, Taken0-Inv k ne h.2)

  -- A pass that takes a slot for a new callback.
  Taken-Inv :
      (pass : ℕ) {ss t : List Slot}
      → Taken pass msg_cb f ss t
      → msg_cb ≢ 0
      → Absent msg_cb ss
      → Inv ss
      → Inv t
  Taken-Inv pass (here {s = s} e) ne new h = (λ _. new.1, λ z. absurd (ne z), h.2)
  Taken-Inv pass (there {s = s} e k) ne new h = (
    λ z. Taken-Absent pass s.cb k (λ q. new.0 (sym q)) (h.0 z),
    h.1,
    Taken-Inv pass k ne new.1 h.2,
  )

  take_slot0_none : (ss : List Slot) → take_slot 0 msg_cb f ss ≡ none → Absent msg_cb ss
  unfolding take_slot
  take_slot0_none [] e = tt
  take_slot0_none (s ∷ ss) e = elim (Bool-cases (s.cb == msg_cb)) [
    | inl same ↦ absurd (ground arith)
    | inr other ↦ (ground arith, take_slot0_none ss (map-none s _ (ground arith)))
  ]

  -- Pass 0 updates the callback's own slot.
  Taken0-active :
      (c : ℕ) {ss t : List Slot}
      → Taken 0 msg_cb f ss t
      → active c t ≡ (if c == msg_cb then some f else active c ss)
  unfolding active
  Taken0-active c (here {s = s} e) = ground arith
  Taken0-active c (there e k) = ground (arith, Taken0-active c k)

  -- Passes 1 and 2 give a new callback a slot with no callback, or with one that is disabled.
  Taken-active :
      (pass c : ℕ) {ss t : List Slot}
      → (pass ≡ 1) ⊎ (pass ≡ 2)
      → c ≢ 0
      → Taken pass msg_cb f ss t
      → Absent msg_cb ss
      → Inv ss
      → active c t ≡ (if c == msg_cb then some f else active c ss)
  unfolding active
  Taken-active pass c p nz (here {s = s} {ss = ss} e) new h =
      ground (arith, h.1, h.0, active-Absent c ss)
  Taken-active pass c p nz (there e k) new h = ground (arith, Taken-active pass c p nz k new.1 h.2)

  subscribe_cases :
      (ss : List Slot)
      → ((t : List Slot) × (subscribe msg_cb f ss ≡ (true, t))
          × (Taken 0 msg_cb f ss t
              ⊎ (Absent msg_cb ss
                  × (pass : ℕ) × ((pass ≡ 1) ⊎ (pass ≡ 2))
                  × Taken pass msg_cb f ss t)))
        ⊎ ((subscribe msg_cb f ss ≡ (false, ss))
            × Absent msg_cb ss
            × (take_slot 1 msg_cb f ss ≡ none)
            × (take_slot 2 msg_cb f ss ≡ none))
  unfolding subscribe
  subscribe_cases ss = elim (take_slot_cases 0 msg_cb f ss) [
    | inr (t, e, k) ↦ inl (t, ground (arith, e), inl k)
    | inl none0 ↦
        let new = take_slot0_none ss none0 in
        elim (take_slot_cases 1 msg_cb f ss) [
          | inr (t, e, k) ↦ inl (t, ground (arith, none0, e), inr (new, 1, inl refl, k))
          | inl none1 ↦ elim (take_slot_cases 2 msg_cb f ss) [
            | inr (t, e, k) ↦ inl (t, ground (arith, none0, none1, e), inr (new, 2, inr refl, k))
            | inl none2 ↦ inr (ground (arith, none0, none1, none2), new, none1, none2)
          ]
        ]
  ]

  -- Subscribing a callback that is not null keeps each callback in one slot at most and every
  -- enabled slot with a callback.
  pub subscribe-Inv : (ss : List Slot) → msg_cb ≢ 0 → Inv ss → Inv (subscribe msg_cb f ss).1
  subscribe-Inv ss ne h = elim (subscribe_cases ss) [
    | inl (t, e, inl k) ↦ rw e (Taken0-Inv k ne h)
    | inl (t, e, inr (new, pass, p, k)) ↦ rw e (Taken-Inv pass k ne new h)
    | inr (e, _, _, _) ↦ rw e h
  ]

  -- Where each callback has one slot at most and every enabled slot a callback, subscribing a
  -- callback that is not null, if it succeeds, sets the flags of that callback and leaves those of
  -- all others; if it fails, it changes none.
  pub active-subscribe :
      (c : ℕ) (ss : List Slot)
      → c ≢ 0
      → Inv ss
      → active c (subscribe msg_cb f ss).1
        ≡ (if (subscribe msg_cb f ss).0 && (c == msg_cb) then some f else active c ss)
  active-subscribe c ss nz h = elim (subscribe_cases ss) [
    | inl (t, e, inl k) ↦ rw e (Taken0-active c k)
    | inl (t, e, inr (new, pass, p, k)) ↦ rw e (Taken-active pass c p nz k new h)
    | inr (e, _, _, _) ↦ rw e
  ]

  Full-of_none :
      (ss : List Slot) → take_slot 1 msg_cb f ss ≡ none → take_slot 2 msg_cb f ss ≡ none → Full ss
  unfolding take_slot
  Full-of_none [] e1 e2 = tt
  Full-of_none (s ∷ ss) e1 e2 = elim (Bool-cases (s.cb == 0)) [
    | inl null ↦ absurd (ground arith)
    | inr used ↦ elim (Bool-cases s.enabled) [
      | inr off ↦ absurd (ground arith)
      | inl on ↦ (
        ground arith,
        on,
        Full-of_none ss (map-none s _ (ground arith)) (map-none s _ (ground arith)),
      )
    ]
  ]

  Taken-Full :
      (pass : ℕ) {ss t : List Slot}
      → (pass ≡ 0) ⊎ ((pass ≡ 1) ⊎ (pass ≡ 2))
      → Taken pass msg_cb f ss t
      → Full ss
      → Absent msg_cb ss
      → ⊥
  Taken-Full pass p (here e) full new = ground arith
  Taken-Full pass p (there e k) full new = Taken-Full pass p k full.2 new.1

  -- A subscription fails exactly if every slot is enabled for another callback.
  pub subscribe_fails :
      (ss : List Slot) → ((subscribe msg_cb f ss).0 ≡ false) ↔ (Full ss × Absent msg_cb ss)
  subscribe_fails ss = elim (subscribe_cases ss) [
    | inl (t, e, inl k) ↦ (
      λ q. cc (ap (λ (r : Bool × List Slot). r.0) e),
      λ h. absurd (Taken-Full 0 (inl refl) k h.0 h.1),
    )
    | inl (t, e, inr (new, pass, p, k)) ↦ (
      λ q. cc (ap (λ (r : Bool × List Slot). r.0) e),
      λ h. absurd (Taken-Full pass (inr p) k h.0 h.1),
    )
    | inr (e, new, none1, none2) ↦ (λ q. (Full-of_none ss none1 none2, new), λ h. ap (λ r. r.0) e)
  ]

-- Unsubscribing ends the subscription of its callback, and leaves those of all others.
pub active-unsubscribe :
    (msg_cb c : ℕ) (ss : List Slot)
    → active c (unsubscribe msg_cb ss).1 ≡ (if c == msg_cb then none else active c ss)
unfolding active unsubscribe
active-unsubscribe msg_cb c [] = ground arith
active-unsubscribe msg_cb c (s ∷ ss) = ground (arith, active-unsubscribe msg_cb c ss)

unsubscribe-Absent :
    (msg_cb d : ℕ) (ss : List Slot) → Absent d ss → Absent d (unsubscribe msg_cb ss).1
unfolding unsubscribe
unsubscribe-Absent msg_cb d [] h = tt
unsubscribe-Absent msg_cb d (s ∷ ss) h = ground (arith, unsubscribe-Absent msg_cb d ss h.1)

-- Unsubscribing keeps each callback in one slot and every enabled slot with a callback.
pub unsubscribe-Inv : (msg_cb : ℕ) (ss : List Slot) → Inv ss → Inv (unsubscribe msg_cb ss).1
unfolding unsubscribe
unsubscribe-Inv msg_cb [] h = tt
unsubscribe-Inv msg_cb (s ∷ ss) h = elim (Bool-cases (s.cb == msg_cb)) [
  | inl hit ↦ rw hit (h.0, λ _. refl, h.2)
  | inr miss ↦
      rw miss (λ z. unsubscribe-Absent msg_cb s.cb ss (h.0 z), h.1, unsubscribe-Inv msg_cb ss h.2)
]
