-- ===== src/Drivers/Light/Switching.antt =====
-- When the automation switches a light, and when it keeps away from it.
use dev_control_open_harmony.Prelude.{
  ℕ, ◌+◌, ◌*◌, ◌<◌, ◌≡◌, String, true, false, not, ◌&&◌, leb, none, arith, ◌==◌,
}
use dev_control_open_harmony.Numbers.{of_ℕ, less}
use dev_control_open_harmony.Errors.{ok, raise, Error}
use dev_control_open_harmony.Dict.{Dict}
use dev_control_open_harmony.Value.{Value}
use dev_control_open_harmony.Device.{Light, Environment}
use dev_control_open_harmony.Drivers.Light.{
  execute, set_power, set_brightness, set_automation_config, react, is_overridden,
}

module _ (now : ℕ) (action : String) (payload : Dict Value) (l : Light) where
  -- A refused command leaves the light as it was.
  pub execute-refused :
      (e : Error)
      → (execute now action payload l).0 ≡ raise e
      → (execute now action payload l).1 ≡ l
  unfolding execute set_power set_brightness set_automation_config
  execute-refused e h = ground arith

  -- After an accepted power or brightness command the automation does not change the light for
  -- five minutes, whatever the sensor reads.
  pub manual_override :
      (e : Environment) (later : ℕ)
      → (execute now action payload l).0 ≡ ok tt
      → (action == "setAutomationConfig") ≡ false
      → later < now + 300000
      → react later e (execute now action payload l).1
        ≡ (ok false, (execute now action payload l).1)
  unfolding execute set_power set_brightness react
  manual_override e later h other early = ground arith

module _ (l : Light) where
  -- A dark room with somebody in it: the light is on after the tick, and the tick reports a change
  -- exactly if it was off.
  pub react_dark :
      (now : ℕ) (e : Environment)
      → is_overridden now l.automation.manual_override_until ≡ false
      → e.presence ≡ true
      → less e.illuminance_lux (of_ℕ l.automation.illuminance_threshold_lux) ≡ true
      → ((react now e l).0 ≡ ok (not l.power))
        × ((react now e l).1.power ≡ true)
        × ((react now e l).1.no_presence_since ≡ none)
  unfolding react
  react_dark now e a b d = ground arith

  -- Of two ticks in an empty room with no override, the first of which finds no absence noted, the
  -- second leaves the light on exactly if it was on and less than the configured delay has passed.
  pub react_empty :
      (start later : ℕ) (e e' : Environment)
      → l.no_presence_since ≡ none
      → is_overridden start l.automation.manual_override_until ≡ false
      → is_overridden later l.automation.manual_override_until ≡ false
      → e.presence ≡ false
      → e'.presence ≡ false
      → (react later e' (react start e l).1).1.power
        ≡ (l.power && not (leb (start + l.automation.no_presence_delay_seconds * 1000) later))
  unfolding react
  react_empty start later e e' n a b p q = ground arith
