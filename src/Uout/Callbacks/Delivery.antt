-- ===== src/Uout/Callbacks/Delivery.antt =====
-- Who is called by the publishing functions of uout/callbacks.cc.
use components_mcu.Prelude.{
  ℕ, suc, ◌+◌, true, false, ◌&&◌, Option, none, some, List, [], ◌∷◌, map, Bytes, ◌==◌, ==_refl,
  if◌then◌else◌, Bool-cases, inl, inr, ◌≡◌, ◌≢◌, refl, ap, ◌∙◌, arith,
}
use components_mcu.Uout.Callbacks.{
  Flags, Slot, matches, all_from, slot_at, filter_idxs, filter, publish, Payload, Call,
  publish_ws_json, subscribe, unsubscribe,
}
use components_mcu.Uout.Callbacks.Slots.{
  Inv, Absent, active, active-subscribe, active-unsubscribe, subscribe-Inv, unsubscribe-Inv,
}

-- The subscribed callbacks that match, in the order of their slots.
pub receivers : Flags → List Slot → List ℕ
receivers asked [] = []
receivers asked (s ∷ ss) =
    let rest = receivers asked ss in
    if s.enabled && matches asked s.flags then s.cb ∷ rest else rest

abbrev pub message : Payload → Flags → ℕ → Call
message p f c = record { target = c; payload = p; flags = f }

-- The slots from index `k` on are `ss`.
abbrev From : List Slot → ℕ → List Slot → Type 0
From all k ss = (j : ℕ) → slot_at all (k + j) ≡ slot_at ss j

From-tail :
    (all : List Slot) (k : ℕ) (s : Slot) (ss : List Slot)
    → From all k (s ∷ ss)
    → From all (k + 1) ss
unfolding slot_at
From-tail all k s ss h j = ap (slot_at all) (omega arith) ∙ h (suc j)

From-head :
    (all : List Slot) (k : ℕ) (s : Slot) (ss : List Slot) → From all k (s ∷ ss) → slot_at all k ≡ s
unfolding slot_at
From-head all k s ss h = ap (slot_at all) (omega arith) ∙ h 0

module _ (all : List Slot) (asked : Flags) (p : Payload) where
  publish-From :
      (k : ℕ) (ss : List Slot)
      → From all k ss
      → Inv ss
      → publish all (filter_idxs all asked (all_from k ss)) p asked
        ≡ map (message p asked) (receivers asked ss)
  unfolding publish filter_idxs all_from receivers
  publish-From k [] at h = refl
  publish-From k (s ∷ ss) at h =
      let later = publish-From (k + 1) ss (From-tail all k s ss at) h.2 in
      elim (Bool-cases s.enabled) [
        | inr off ↦ rw off later
        | inl on ↦ elim (Bool-cases (matches asked s.flags)) [
          | inl hit ↦
              let used : (s.cb == 0) ≡ false = ground (arith, h.1) in
              let here = From-head all k s ss at in
              rw (on, here, hit, here, used) (ap (◌∷◌ (message p asked s.cb)) later)
          | inr miss ↦ rw (on, From-head all k s ss at, miss) later
        ]
      ]

-- Publishing to the filtered callbacks calls exactly the enabled ones that match, in slot order.
pub publish-filter :
    (asked : Flags) (p : Payload) (ss : List Slot)
    → Inv ss
    → publish ss (filter asked ss) p asked ≡ map (message p asked) (receivers asked ss)
unfolding filter
publish-filter asked p ss h = publish-From ss asked p 0 ss (λ j. ap (slot_at ss) (omega arith)) h

abbrev pub occurrences : ℕ → List ℕ → ℕ
occurrences c [] = 0
occurrences c (d ∷ ds) = (if d == c then 1 else 0) + occurrences c ds

abbrev pub wanted : Flags → Option Flags → ℕ
wanted asked none = 0
wanted asked (some f) = if matches asked f then 1 else 0

receivers-Absent :
    (asked : Flags) (c : ℕ) (ss : List Slot) → Absent c ss → occurrences c (receivers asked ss) ≡ 0
unfolding receivers
receivers-Absent asked c [] h = refl
receivers-Absent asked c (s ∷ ss) h = ground (arith, receivers-Absent asked c ss h.1)

-- Each subscriber is called once if its flags match, and else not at all.
pub receivers-active :
    (asked : Flags) (c : ℕ) (ss : List Slot)
    → c ≢ 0
    → Inv ss
    → occurrences c (receivers asked ss) ≡ wanted asked (active c ss)
unfolding receivers active
receivers-active asked c [] nz h = refl
receivers-active asked c (s ∷ ss) nz h = elim (Bool-cases (s.cb == c)) [
  | inl hit ↦ ground (arith, h.0, receivers-Absent asked c ss)
  | inr miss ↦ ground (arith, receivers-active asked c ss nz h.2)
]

abbrev pub targets : List Call → List ℕ
targets calls = map (λ (c : Call). c.target) calls

targets-map : (p : Payload) (f : Flags) (cs : List ℕ) → targets (map (message p f) cs) ≡ cs
targets-map p f [] = refl
targets-map p f (c ∷ cs) = ap (◌∷◌ c) (targets-map p f cs)

-- Where each callback has one slot at most and every enabled slot a callback, a publication with a
-- filter reaches a callback that is not null exactly once if it is subscribed with flags that
-- match, and otherwise never.
pub publish_reaches :
    (asked : Flags) (p : Payload) (c : ℕ) (ss : List Slot)
    → c ≢ 0
    → Inv ss
    → occurrences c (targets (publish ss (filter asked ss) p asked)) ≡ wanted asked (active c ss)
publish_reaches asked p c ss nz h =
    rw (publish-filter asked p ss h, targets-map p asked (receivers asked ss))
      (receivers-active asked c ss nz h)

-- Where each callback has one slot at most and every enabled slot a callback, a callback that is
-- not null and has subscribed with success is called once by a publication that its flags match
-- and by no other, and once it has unsubscribed by none.
pub subscription_reaches :
    (asked f : Flags) (p : Payload) (c : ℕ) (ss : List Slot)
    → c ≢ 0
    → Inv ss
    → (subscribe c f ss).0 ≡ true
    → let t = (subscribe c f ss).1 in
      let u = (unsubscribe c t).1 in
      (occurrences c (targets (publish t (filter asked t) p asked))
        ≡ (if matches asked f then 1 else 0))
      × (occurrences c (targets (publish u (filter asked u) p asked)) ≡ 0)
subscription_reaches asked f p c ss nz h ok =
    let t = (subscribe c f ss).1 in
    let inv = subscribe-Inv c f ss nz h in
    let now : active c t ≡ some f = active-subscribe c f c ss nz h ∙ rw (ok, ==_refl c) in
    let later : active c (unsubscribe c t).1 ≡ none = active-unsubscribe c c t ∙ rw (==_refl c) in
    (
      publish_reaches asked p c t nz inv ∙ ap (wanted asked) now,
      publish_reaches asked p c _ nz (unsubscribe-Inv c t inv) ∙ ap (wanted asked) later,
    )

-- `uoCb_publish_wsJson` does not look at the enabled flag: unsubscribing a callback does not change
-- whom it calls.
pub publish_ws_json-unsubscribe :
    (json : Bytes) (c : ℕ) (ss : List Slot)
    → publish_ws_json json (unsubscribe c ss).1 ≡ publish_ws_json json ss
unfolding publish_ws_json unsubscribe
publish_ws_json-unsubscribe json c [] = refl
publish_ws_json-unsubscribe json c (s ∷ ss) = ground (arith, publish_ws_json-unsubscribe json c ss)
