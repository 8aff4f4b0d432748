-- ===== src/Timing/Periodic.antt =====
-- `periodic` and `periodic_ts` of utils_time/periodic.c, which differ in the clock only. What the
-- clock returns in a call is an argument.
use components_mcu.Prelude.{
  ℕ, ◌+◌, ◌≤◌, ◌<◌, Bool, true, false, List, [], ◌∷◌, ltb, ◌==◌, if◌then◌else◌, add32, u32_mod,
  Bool-cases, inl, inr, ◌≡◌, arith,
}

-- What is returned, and the state afterwards.
unfoldable pub periodic : ℕ → ℕ → ℕ → Bool × ℕ
periodic interval now state =
    if state == 0
    then (false, add32 now interval)
    else if ltb state now
    then (true, add32 now interval)
    else (false, state)

-- The times of the calls that returned true, of calls at the times given.
unfoldable pub fired : ℕ → ℕ → List ℕ → List ℕ
unfolding periodic
fired interval state [] = []
fired interval state (now ∷ later) =
    let (fires, next) = periodic interval now state in
    let rest = fired interval next later in if fires then now ∷ rest else rest

-- Of calls at some times after a start, those fire that come later than the interval after the last
-- one that fired, or after the start.
pub data Schedule (interval : ℕ) : ℕ → List ℕ → List ℕ → Type 0 where
  nothing : (start : ℕ) → Schedule interval start [] []
  early :
      (start now : ℕ) (later fs : List ℕ)
      → now ≤ start + interval
      → Schedule interval start later fs
      → Schedule interval start (now ∷ later) fs
  due :
      (start now : ℕ) (later fs : List ℕ)
      → start + interval < now
      → Schedule interval now later fs
      → Schedule interval start (now ∷ later) (now ∷ fs)

-- The sums of the times and the interval are `unsigned`.
abbrev pub InRange : ℕ → List ℕ → Type 0
InRange interval [] = 0 ≤ interval
InRange interval (now ∷ later) = (now + interval < u32_mod) × InRange interval later

add32_in_range : (now interval : ℕ) → now + interval < u32_mod → add32 now interval ≡ now + interval
add32_in_range now interval h = omega (arith, h)

fired_armed :
    (interval start : ℕ) (times : List ℕ)
    → 0 < interval
    → InRange interval times
    → Schedule interval start times (fired interval (start + interval) times)
unfolding fired periodic
fired_armed interval start [] p r = nothing start
fired_armed interval start (now ∷ later) p r =
    let armed : (start + interval == 0) ≡ false = ground arith in
    elim (Bool-cases (ltb (start + interval) now)) [
      | inl late ↦
          rw (armed, late, add32_in_range now interval r.0)
            (due start now later _ (ground arith) (fired_armed interval now later p r.1))
      | inr soon ↦
          rw (armed, soon)
            (early start now later _ (ground arith) (fired_armed interval start later p r.1))
    ]

-- With a positive interval and sums in the range of `unsigned`, the first call on a state of 0 starts
-- the interval, and of the later calls just those return true that come later than the interval
-- after the start or after the last call that returned true.
pub fired-Schedule :
    (interval first : ℕ) (times : List ℕ)
    → 0 < interval
    → InRange interval (first ∷ times)
    → Schedule interval first times (fired interval 0 (first ∷ times))
unfolding fired periodic
fired-Schedule interval first times p r =
    rw (add32_in_range first interval r.0) (fired_armed interval first times p r.1)
