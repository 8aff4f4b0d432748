-- ===== src/Weather/Tests.antt =====
-- Concrete data for the factor of weather/weather_irrigation.cc, over numbers without fractions.
use components_mcu.Prelude.{ℕ, ◌+◌, ltb, ◌==◌, if◌then◌else◌, ◌≡◌, refl, arith}
use components_mcu.Weather.Irrigation.{
  Float, Weather, get_simple_irrigation_factor, get_simple_irrigation_factor_today,
}

-- A stand-in for `float`: its quotient is the dividend.
abbrev whole : Float ℕ
whole = record { zero_f = 0; one_f = 1; plus = λ a b. a + b; average = λ a n. a }

abbrev some_weather : Weather ℕ ℕ
some_weather = record { has_weather = λ d. ltb 0 d; get_factor = λ d. d }

abbrev alike : ℕ → ℕ → ℕ
alike wday hour = 3

-- The same on day 2, and nothing on the other days.
abbrev today_only : ℕ → ℕ → ℕ
today_only wday hour = if wday == 2 then 3 else 0

two_days : get_simple_irrigation_factor whole some_weather 48 today_only 2 12 ≡ 78
unfolding get_simple_irrigation_factor
two_days = refl

get_simple_irrigation_factor_today_example :
    get_simple_irrigation_factor whole some_weather 48 alike 2 12
    ≡ get_simple_irrigation_factor whole some_weather 48 today_only 2 12
get_simple_irrigation_factor_today_example =
    get_simple_irrigation_factor_today whole some_weather 48 2 12 alike today_only (omega arith)
      (λ h low high. refl)
