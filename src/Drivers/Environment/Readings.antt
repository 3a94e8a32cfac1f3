-- ===== src/Drivers/Environment/Readings.antt =====
-- The sensor's readings: when they count as valid, and that injected readings are held.
use dev_control_open_harmony.Prelude.{◌<◌, Bool, ◌≡◌, arith}
use dev_control_open_harmony.Errors.{ok, Result-cases}
use dev_control_open_harmony.Prelude.{inl, inr}
use dev_control_open_harmony.Device.{Device, Environment}
use dev_control_open_harmony.Context.{Context}
use dev_control_open_harmony.Drivers.Environment.{
  Floats, sample, revalidate, tick, readings_plausible,
}

revalidate-valid :
    (changed : Bool) (e : Environment)
    → let e' = (revalidate (changed, e)).1 in
      e'.data_valid ≡ readings_plausible e'.temperature_celsius e'.humidity_percent
unfolding revalidate
revalidate-valid changed e = ground arith

-- After a tick that succeeds, a sensor is marked valid exactly if its readings are plausible.
pub tick-data_valid :
    (f : Floats) (d : Device) (e : Environment) (c : Context) (changed : Bool)
    → (tick f d e c).0 ≡ ok changed
    → let e' = (tick f d e c).1 in
      e'.data_valid ≡ readings_plausible e'.temperature_celsius e'.humidity_percent
unfolding tick
tick-data_valid f d e c changed h = elim (Result-cases (sample f d c e)) [
  | inl (x, failed) ↦ ground arith
  | inr ((moved, e'), sampled) ↦ ground (arith, revalidate-valid moved e')
]

-- While injected readings are held, a tick leaves the temperature, the humidity, the light and the
-- presence as they are.
pub tick-held :
    (f : Floats) (d : Device) (e : Environment) (c : Context)
    → c.clock < e.manual_injection_until
    → let e' = (tick f d e c).1 in
      ((e'.temperature_celsius ≡ e.temperature_celsius)
        × (e'.humidity_percent ≡ e.humidity_percent)
        × (e'.illuminance_lux ≡ e.illuminance_lux)
        × (e'.presence ≡ e.presence))
unfolding tick sample revalidate
tick-held f d e c h = ground arith
