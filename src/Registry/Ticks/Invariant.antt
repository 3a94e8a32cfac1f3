-- ===== src/Registry/Ticks/Invariant.antt =====
-- A round of ticks keeps the registry well-formed.
use dev_control_open_harmony.Prelude.{String, Bool, true, false, All, List, [], ◌∷◌, ◌++◌, map}
use dev_control_open_harmony.Errors.{ok}
use dev_control_open_harmony.Exec.{◌>>=◌}
use dev_control_open_harmony.Dict.{Dict, values}
use dev_control_open_harmony.Device.{Device}
use dev_control_open_harmony.Drivers.Base.{DeviceDriver, Category}
use dev_control_open_harmony.Composition.Lawful.{Lawful}
use dev_control_open_harmony.Registry.{DeviceRegistry, driver_for, touch}
use dev_control_open_harmony.Registry.Commands.Rules.{
  Ensures-bind, find-Ensures, driver_for-Ensures, settle-Ensures,
}
use dev_control_open_harmony.Registry.Commands.Invariant.{
  Known, Entry, Known-detail, Entry-put, Entry-get, WellFormed, WellFormed-Kept, Kept-WellFormed,
  touch-Kept,
}
use dev_control_open_harmony.Registry.Scenes.Invariant.{Preserves, same_registry-Preserves}
use dev_control_open_harmony.Registry.Ticks.{
  priorities, sort_by_priority, run_tick, report, tick_device, tick_all, tick,
}

module _ (cats : Dict Category) (drvs : Dict DeviceDriver)
    (lawful : All (λ e. Lawful e.1) drvs) where
  report-Preserves : (x : Bool × Device) → Known cats drvs x.1 → Preserves cats drvs (report x)
  unfolding touch
  report-Preserves (false, d) k = same_registry-Preserves cats drvs lawful (λ _. ok [])
  report-Preserves (true, d) k = record {
    keeps = λ r p. (touch-Kept cats drvs lawful d k).keeps r p;
    returns = λ r a p e. tt;
  }

  tick_device-Preserves : (id : String) → Preserves cats drvs (tick_device id)
  unfolding tick_device run_tick
  tick_device-Preserves id =
      Ensures-bind _ _
        (find-Ensures cats drvs lawful (All (Entry cats drvs)) (Known cats drvs)
          (Entry-put cats drvs) (Known-detail cats drvs) {Q = Known cats drvs} id
          (λ ds d h e. (Entry-get cats drvs id ds d h e).1))
        λ d k.
          Ensures-bind _ _
            (driver_for-Ensures cats drvs lawful (All (Entry cats drvs)) (Known cats drvs)
              (Entry-put cats drvs) (Known-detail cats drvs) d)
            λ driver law.
              Ensures-bind _ _
                (settle-Ensures cats drvs lawful (All (Entry cats drvs)) (Known cats drvs)
                  (Entry-put cats drvs) (Known-detail cats drvs) driver.tick d law.ticks k)
                report-Preserves

  tick_all-Preserves : (ids : List String) → Preserves cats drvs (tick_all ids)
  unfolding tick_all
  tick_all-Preserves [] = same_registry-Preserves cats drvs lawful (λ _. ok [])
  tick_all-Preserves (id ∷ rest) =
      Ensures-bind (tick_device id)
        (λ changed. tick_all rest >>= λ others. λ s. (ok (changed ++ others), s))
        (tick_device-Preserves id)
        (λ changed _.
          Ensures-bind (tick_all rest) (λ others. λ s. (ok (changed ++ others), s))
            (tick_all-Preserves rest)
            (λ others _. same_registry-Preserves cats drvs lawful (λ _. ok (changed ++ others))))

  priorities-Preserves : (ds : List Device) → Preserves cats drvs (priorities ds)
  unfolding priorities
  priorities-Preserves [] = same_registry-Preserves cats drvs lawful (λ _. ok [])
  priorities-Preserves (d ∷ rest) =
      Ensures-bind (driver_for d)
        (λ driver.
          priorities rest >>= λ others. λ s. (ok ((driver.tick_priority, d.id) ∷ others), s))
        (driver_for-Ensures cats drvs lawful (All (Entry cats drvs)) (Known cats drvs)
          (Entry-put cats drvs) (Known-detail cats drvs) d)
        (λ driver _.
          Ensures-bind (priorities rest)
            (λ others. λ s. (ok ((driver.tick_priority, d.id) ∷ others), s))
            (priorities-Preserves rest)
            (λ others _.
              same_registry-Preserves cats drvs lawful
                (λ _. ok ((driver.tick_priority, d.id) ∷ others))))

  pub tick-Preserves : Preserves cats drvs tick
  unfolding tick
  tick-Preserves = record {
    keeps = λ r p.
        (Ensures-bind (priorities (values r.devices))
            (λ keyed. tick_all (map (λ e. e.1) (sort_by_priority keyed)))
            (priorities-Preserves (values r.devices))
            (λ keyed _. tick_all-Preserves (map (λ e. e.1) (sort_by_priority keyed)))).keeps
          r p;
    returns = λ r a p e. tt;
  }

-- A round of ticks leaves a well-formed registry well-formed.
pub tick-WellFormed : (r : DeviceRegistry) → WellFormed r → WellFormed (tick r).1
tick-WellFormed r w =
    Kept-WellFormed r.categories r.drivers _ w.lawful
      ((tick-Preserves r.categories r.drivers w.lawful).keeps r (WellFormed-Kept r w))
