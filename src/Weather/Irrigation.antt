-- ===== src/Weather/Irrigation.antt =====
-- The factor for irrigation: `get_simple_irrigation_factor` of weather/weather_irrigation.cc.
use components_mcu.Prelude.{
  ℕ, zero, suc, ◌+◌, ◌*◌, ◌%◌, ◌≤◌, ◌<◌, Bool, ◌&&◌, leb, ltb, ◌==◌, if◌then◌else◌, Bool-cases, inl,
  inr, ◌≡◌, refl, ap, ◌∙◌, arith,
}

-- `float` as the source uses it; `average` is the quotient by an `int`.
pub record Float (F : Type 0) : Type 0 where
  pub zero_f : F
  pub one_f : F
  pub plus : F → F → F
  pub average : F → ℕ → F

-- The data of an hour: whether there are any, and the factor of the adapter.
pub record Weather (D F : Type 0) : Type 0 where
  pub has_weather : D → Bool
  pub get_factor : D → F

-- The variables `n` and `sum`.
pub record Sum (F : Type 0) : Type 0 where
  pub n : ℕ
  pub sum : F

module _ {D F : Type 0} (fl : Float F) (weather : Weather D F) where
  -- `if (auto &wd = ...; wd)` under the test of the hour.
  unfoldable pub visit_hour : (ℕ → ℕ → D) → ℕ → ℕ → Sum F → Sum F
  visit_hour past wday hour s =
      let wd = past wday hour in
      if leb 9 hour && leb hour 21
      then (if weather.has_weather wd
          then record { n = s.n + 1; sum = fl.plus s.sum (weather.get_factor wd) }
          else s)
      else s

  -- The inner loop, which has no end of its own but the return: the step of the outer loop, to the day
  -- before, is never reached.
  unfoldable pub hours_back : (ℕ → ℕ → D) → ℕ → ℕ → ℕ → Sum F → F
  unfolding visit_hour
  hours_back past zero wday hour s = if s.n == 0 then fl.one_f else fl.average s.sum s.n
  hours_back past (suc hours) wday hour s =
      hours_back past hours wday ((hour + 23) % 24) (visit_hour past wday hour s)

  -- For a number of hours that is not negative, at the given day of the week and hour.
  unfoldable pub get_simple_irrigation_factor : ℕ → (ℕ → ℕ → D) → ℕ → ℕ → F
  unfolding hours_back
  get_simple_irrigation_factor hours past wday hour =
      hours_back past (if ltb (24 * 7) hours then 24 * 7 else hours) wday hour
        (record { n = 0; sum = fl.zero_f })

  visit_hour_alike :
      (past past' : ℕ → ℕ → D) (wday hour : ℕ) (s : Sum F)
      → ((h : ℕ) → 9 ≤ h → h ≤ 21 → past wday h ≡ past' wday h)
      → visit_hour past wday hour s ≡ visit_hour past' wday hour s
  unfolding visit_hour
  visit_hour_alike past past' wday hour s same = elim (Bool-cases (leb 9 hour && leb hour 21)) [
    | inl day ↦ rw (same hour (ground (arith, day)) (ground (arith, day))) refl
    | inr night ↦ rw night refl
  ]

  hours_back_today :
      (past past' : ℕ → ℕ → D) (hours wday hour : ℕ) (s : Sum F)
      → hour < 24
      → ((h : ℕ) → 9 ≤ h → h ≤ 21 → past wday h ≡ past' wday h)
      → hours_back past hours wday hour s ≡ hours_back past' hours wday hour s
  unfolding hours_back visit_hour
  hours_back_today past past' zero wday hour s lt same = refl
  hours_back_today past past' (suc hours) wday hour s lt same =
      ap (hours_back past hours wday ((hour + 23) % 24))
        (visit_hour_alike past past' wday hour s same)
      ∙ hours_back_today past past' hours wday ((hour + 23) % 24) (visit_hour past' wday hour s)
          (omega arith) same

  -- However many hours are asked for, the factor depends on the data of the current day of the week
  -- alone, from hour 9 to hour 21: stores that agree on those give the same factor, whatever they have
  -- for the other six days.
  pub get_simple_irrigation_factor_today :
      (hours wday hour : ℕ) (past past' : ℕ → ℕ → D)
      → hour < 24
      → ((h : ℕ) → 9 ≤ h → h ≤ 21 → past wday h ≡ past' wday h)
      → get_simple_irrigation_factor hours past wday hour
        ≡ get_simple_irrigation_factor hours past' wday hour
  unfolding get_simple_irrigation_factor
  get_simple_irrigation_factor_today hours wday hour past past' lt same =
      hours_back_today past past' (if ltb (24 * 7) hours then 24 * 7 else hours) wday hour
        (record { n = 0; sum = fl.zero_f }) lt same
