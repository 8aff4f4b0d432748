-- ===== src/Weather.antt =====
-- Past weather data: weather/weather_irrigation.cc with its headers. The data of an hour are the
-- parameter `D`; the time is given. Numbers of floating point are the parameter `F` with the operations
-- that the source applies.
pub mod Irrigation
mod Tests
