-- ===== src/Weather/Tests.antt =====
-- source/modules/module/weather/eorzean_weather.h: the forecast from small tables.
use migang_bot_cpp.Base.{
  ℕ, refl, ok, fault, Fault, arith, ◌+◌, ◌*◌, ◌%◌, ◌≤◌, ◌<◌, ◌≡◌, List, [], ◌∷◌, codes,
}
use migang_bot_cpp.Weather.{Tables, WeatherRate, next_weather_time, get_eorzea_hour}
use migang_bot_cpp.Weather.Forecast.{next_weather_time_lem}

next_weather_time_lem_example :
    (left : ℕ) × (next_weather_time 1600000000 2 ≡ ok left)
    × (1400 * 2 < left)
    × (left ≤ 1400 * (2 + 1))
    × ((1600000000 + left) % 1400 ≡ 0)
    × (get_eorzea_hour (1600000000 + left) % 8 ≡ 0)
next_weather_time_lem_example = next_weather_time_lem 1600000000 2 (omega arith)

-- Seven minutes before the `int` ends, the sum overflows.
overflow : next_weather_time 2147483247 0 ≡ fault Fault.undefined
unfolding next_weather_time
overflow = refl

abbrev rates : List WeatherRate
rates = record { weather = 1; rate = 30 } ∷ record { weather = 0; rate = 100 } ∷ []

abbrev tables : Tables
tables = record {
  alter_name_idx = [];
  weather_idx = codes "clear" ∷ codes "rain" ∷ [];
  location_idx = (codes "Limsa", 4) ∷ [];
  weather_rate_idx = (4, rates) ∷ [];
}
