-- ===== src/Weather.antt =====
-- source/modules/module/weather/eorzean_weather.h: the weather of Eorzea at a time, from the tables of
-- eorzean_weather_data.h, which a database fills and which are arguments here. Times and counts
-- are not negative. An `int` that overflows is a fault, one that a `time_t` is narrowed to keeps its
-- low 32 bits, and the shift of `ForcastTarget` wraps to 32 bits.
pub mod Forecast
mod Tests
use Prim.Native.Nat.{bit_xor}
use migang_bot_cpp.Base.{
  ℕ, ◌+◌, ◌-◌, ◌*◌, ◌/◌, ◌%◌, ◌^◌, Option, none, some, List, [], ◌∷◌, Bytes, ltb, nat_eq, bytes_eq,
  lookup, get_elem?, if◌then◌else◌, Result, ok, fault, Fault, or_fault, ◌>>=◌,
}

pub record WeatherRate : Type 0 where
  pub weather : ℕ
  pub rate : ℕ

pub record Tables : Type 0 where
  pub alter_name_idx : List (Bytes × Bytes)
  pub weather_idx : List Bytes
  pub location_idx : List (Bytes × ℕ)
  pub weather_rate_idx : List (ℕ × List WeatherRate)

-- `ForcastTarget`
unfoldable pub forcast_target : ℕ → ℕ
forcast_target date =
    let bell = date / 175 in
    let increment = (bell + 8 - bell % 8) % 24 in
    let total_days = date / 4200 in
    let calc_base = total_days * 100 + increment in
    let step_1 = bit_xor (calc_base * 2 ^ 11 % 2 ^ 32) (calc_base % 2 ^ 32) in
    let step_2 = bit_xor (step_1 / 2 ^ 8) step_1 in step_2 % 100

-- The loop of `CalWeather` over the rates
unfoldable pub pick_weather : ℕ → List Bytes → List WeatherRate → Result Bytes
pick_weather target names [] = ok []
pick_weather target names (r ∷ rates) =
    let rest = pick_weather target names rates in
    if ltb target r.rate then or_fault (get_elem? names r.weather) Fault.out_of_range else rest

-- `CalWeather`
unfoldable pub cal_weather : Tables → ℕ → Bytes → Result Bytes
unfolding forcast_target pick_weather
cal_weather t date location = elim (lookup location t.location_idx) [
  | none ↦ ok []
  | some index ↦ do
    rates ← or_fault (lookup index t.weather_rate_idx) Fault.out_of_range
    pick_weather (forcast_target date) t.weather_idx rates
]

-- A result of `int` arithmetic that is not negative
abbrev pub as_int : ℕ → Result ℕ
as_int n = if ltb n (2 ^ 31) then ok n else fault Fault.undefined

-- `NextWeatherTime`
unfoldable pub next_weather_time : ℕ → ℕ → Result ℕ
next_weather_time date count = do
  later ← as_int (date + 1400)
  let increment = (later - date % 1400) % 4200
  let cur_time = date % 4200
  let left_sec = if ltb cur_time increment then increment - cur_time else 4200 - cur_time
  more ← as_int (1400 * count)
  as_int (left_sec + more)

-- `GetEorzeaHour` of a `time_t`; the low 32 bits of the result, for a negative `int` too.
unfoldable pub get_eorzea_hour : ℕ → ℕ
get_eorzea_hour time =
    let low = time % 2 ^ 32 in
    if ltb low (2 ^ 31) then low / 175 % 24 else (2 ^ 32 - (2 ^ 32 - low) / 175 % 24) % 2 ^ 32
