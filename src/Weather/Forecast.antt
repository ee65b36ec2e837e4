-- ===== src/Weather/Forecast.antt =====
-- source/modules/module/weather/eorzean_weather.h: the forecast.
use migang_bot_cpp.Base.{
  ℕ, suc, ◌+◌, ◌-◌, ◌*◌, ◌/◌, ◌%◌, ◌≤◌, ◌<◌, ◌≡◌, refl, ap, ◌∙◌, ◌^◌, inl, inr, some, List, [], ◌∷◌,
  Bytes, arith, ltb, nat_eq, bytes_eq, lookup, length, get_elem?, ok, Bool-cases, true, All, any,
  leb, Mem, mem-cons_self, mem-append_right, zero, ltb→lt,
}
use migang_bot_cpp.Weather.{
  WeatherRate, Tables, forcast_target, pick_weather, cal_weather, next_weather_time,
  get_eorzea_hour,
}

next_weather_time-left :
    (date count : ℕ)
    → date + 1400 * (count + 1) < 2 ^ 31
    → next_weather_time date count ≡ ok (1400 - date % 1400 + 1400 * count)
unfolding next_weather_time
next_weather_time-left date count fits = ground arith

get_eorzea_hour-small : (time : ℕ) → time < 2 ^ 31 → get_eorzea_hour time ≡ time / 175 % 24
unfolding get_eorzea_hour
get_eorzea_hour-small time small = ground arith

-- While the times in question fit an `int`, the i-th next change of the weather lies in the i-th span
-- of 1400 seconds from now on, and is at a multiple of 1400 seconds, so at 0, 8 or 16 o'clock in
-- Eorzea.
pub next_weather_time_lem :
    (date count : ℕ)
    → date + 1400 * (count + 1) < 2 ^ 31
    → (left : ℕ) × (next_weather_time date count ≡ ok left)
      × (1400 * count < left)
      × (left ≤ 1400 * (count + 1))
      × ((date + left) % 1400 ≡ 0)
      × (get_eorzea_hour (date + left) % 8 ≡ 0)
next_weather_time_lem date count fits =
    let left = 1400 - date % 1400 + 1400 * count in
    let k = date / 1400 + 1 + count in
    let whole : date + left ≡ 1400 * k = omega arith in
    (
      left,
      next_weather_time-left date count fits,
      omega arith,
      omega arith,
      rw whole (omega arith),
      ap (λ h. h % 8) (get_eorzea_hour-small (date + left) (omega arith)) ∙ rw whole (omega arith),
    )

-- The tables that the forecast relies on: some rate of the list is at least 100, and each of its
-- weathers has a name.
abbrev pub IsComplete : List Bytes → List WeatherRate → Type 0
IsComplete names rates =
    (any (λ r. leb 100 r.rate) rates ≡ true) × All (λ r. r.weather < length names) rates

get_elem?-some : (xs : List Bytes) (i : ℕ) → i < length xs → (x : Bytes) × (get_elem? xs i ≡ some x)
get_elem?-some [] i h = absurd (omega arith)
get_elem?-some (x ∷ xs) zero h = (x, refl)
get_elem?-some (x ∷ xs) (suc i) h = get_elem?-some xs i (omega arith)

-- A rate of the list is above the target, and its weather has that name.
abbrev pub IsPicked : ℕ → List Bytes → List WeatherRate → Bytes → Type 0
IsPicked target names rates name =
    (r : WeatherRate) × Mem r rates × (target < r.rate) × (get_elem? names r.weather ≡ some name)

pick_weather_lem :
    (target : ℕ) (names : List Bytes) (rates : List WeatherRate)
    → target < 100
    → IsComplete names rates
    → (name : Bytes) × (pick_weather target names rates ≡ ok name)
      × IsPicked target names rates name
unfolding pick_weather
pick_weather_lem target names [] small (full, named) = cc
pick_weather_lem target names (r ∷ rates) small (full, named) =
    elim (Bool-cases (ltb target r.rate)) [
      | inl here ↦
          let (name, e) = get_elem?-some names r.weather named.0 in
          (name, rw (here, e) refl, (r, mem-cons_self, ltb→lt target r.rate here, e))
      | inr later ↦
          let (name, e, (s, at, above, has)) =
            pick_weather_lem target names rates small (ground arith, named.1) in
          (name, rw later e, (s, mem-append_right (r ∷ []) at, above, has))
    ]

forcast_target_bound : (date : ℕ) → forcast_target date < 100
unfolding forcast_target
forcast_target_bound date = omega arith

-- With complete rates for its region, the weather of a known place at any time is the name of a
-- weather of that region whose rate is above the target of the time: never empty, never an
-- exception.
pub cal_weather_lem :
    (t : Tables) (date : ℕ) (location : Bytes) (index : ℕ) (rates : List WeatherRate)
    → lookup location t.location_idx ≡ some index
    → lookup index t.weather_rate_idx ≡ some rates
    → IsComplete t.weather_idx rates
    → (name : Bytes) × (cal_weather t date location ≡ ok name)
      × IsPicked (forcast_target date) t.weather_idx rates name
unfolding cal_weather
cal_weather_lem t date location index rates known has complete =
    let (name, e, picked) =
      pick_weather_lem (forcast_target date) t.weather_idx rates (forcast_target_bound date)
        complete in
    (name, rw (known, cal_weather) (rw has e), picked)
