-- ===== src/Timing/Tests.antt =====
-- Concrete polls for utils_time/.
use components_mcu.Prelude.{[], ◌∷◌, ◌≡◌, refl, arith}
use components_mcu.Timing.Periodic.{fired, Schedule, fired-Schedule}

fires_twice : fired 10 0 (5 ∷ 15 ∷ 16 ∷ 20 ∷ 30 ∷ []) ≡ 16 ∷ 30 ∷ []
unfolding fired
fires_twice = refl

-- A sum beyond the range of `unsigned` makes the next call fire at once.
wraps : fired 10 0 (4_294_967_290 ∷ 4_294_967_291 ∷ []) ≡ 4_294_967_291 ∷ []
unfolding fired
wraps = refl

fired-Schedule_example : Schedule 10 5 (15 ∷ 16 ∷ []) (fired 10 0 (5 ∷ 15 ∷ 16 ∷ []))
fired-Schedule_example =
    fired-Schedule 10 5 (15 ∷ 16 ∷ []) (omega arith)
      (omega arith, (omega arith, (omega arith, omega arith)))
