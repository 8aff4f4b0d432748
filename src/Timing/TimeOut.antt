-- ===== src/Timing/TimeOut.antt =====
-- `Time_Out_Secs` of utils_time/include/utils_time/time_out_secs.hh. What the clock returns in a call
-- is an argument; `unsigned long` is taken as `unsigned` is, with 32 bits.
use components_mcu.Prelude.{
  ℕ, ◌+◌, ◌<◌, Bool, true, false, List, [], ◌∷◌, ltb, ◌==◌, if◌then◌else◌, add32, u32_mod,
  Bool-cases, inl, inr, ◌≡◌, refl, ap₂, arith, map,
}

pub record TimeOut : Type 0 where
  pub end_time : ℕ

unfoldable pub is_timeout_running : ℕ → TimeOut → Bool
is_timeout_running now t =
    if t.end_time == 0 then false else if ltb t.end_time now then false else true

unfoldable pub is_timeout_reached : ℕ → TimeOut → Bool × TimeOut
is_timeout_reached now t =
    if t.end_time == 0
    then (false, t)
    else if ltb t.end_time now
    then (true, record { end_time = 0 })
    else (false, t)

unfoldable pub clear : TimeOut → TimeOut
clear t = record { end_time = 0 }

-- `set`, and the constructor with an argument.
unfoldable pub set_timeout : ℕ → ℕ → TimeOut
set_timeout now secs = record { end_time = add32 now secs }

-- Polling at some times: what `isTimeoutRunning` and then `isTimeoutReached` return each time.
unfoldable pub poll : TimeOut → List ℕ → List (Bool × Bool)
unfolding is_timeout_running is_timeout_reached
poll t [] = []
poll t (now ∷ later) =
    let (reached, next) = is_timeout_reached now t in
    (is_timeout_running now t, reached) ∷ poll next later

-- What a time-out that ends at `end` promises: it runs until then, is reached once, and then rests.
unfoldable pub promised : ℕ → List ℕ → List (Bool × Bool)
promised end [] = []
promised end (now ∷ later) =
    if ltb end now
    then (false, true) ∷ map (λ (n : ℕ). (false, false)) later
    else (true, false) ∷ promised end later

poll_cleared :
    (times : List ℕ) → poll (record { end_time = 0 }) times ≡ map (λ (n : ℕ). (false, false)) times
unfolding poll is_timeout_running is_timeout_reached
poll_cleared [] = refl
poll_cleared (now ∷ later) = ap₂ (◌∷◌) refl (poll_cleared later)

poll_running :
    (end : ℕ) (times : List ℕ)
    → 0 < end
    → poll (record { end_time = end }) times ≡ promised end times
unfolding poll is_timeout_running is_timeout_reached promised
poll_running end [] p = refl
poll_running end (now ∷ later) p =
    let armed : (end == 0) ≡ false = ground arith in
    elim (Bool-cases (ltb end now)) [
      | inl late ↦ rw (armed, late) (ap₂ (◌∷◌) refl (poll_cleared later))
      | inr soon ↦ rw (armed, soon) (ap₂ (◌∷◌) refl (poll_running end later p))
    ]

-- When its end is positive and in the range of `unsigned`, a time-out that is set runs in every poll up
-- to its end, is reached in the first poll later than that and in no other, and runs no more; after
-- `clear` no poll finds it running or reached.
pub poll-set_timeout :
    (now secs : ℕ) (times : List ℕ)
    → 0 < now + secs
    → now + secs < u32_mod
    → (poll (set_timeout now secs) times ≡ promised (now + secs) times)
      × (poll (clear (set_timeout now secs)) times ≡ map (λ (n : ℕ). (false, false)) times)
unfolding set_timeout clear
poll-set_timeout now secs times p r =
    let whole : add32 now secs ≡ now + secs = omega (arith, r) in
    (rw whole (poll_running (now + secs) times p), poll_cleared times)
