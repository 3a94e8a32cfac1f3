-- ===== src/Registry/Commands/Rules.antt =====
-- One rule for each part of a command, for any property of the dict of devices that survives the
-- writes of the devices that the command works on.
use dev_control_open_harmony.Prelude.{
  ℕ, String, ◌≡◌, refl, Option, some, arith, false, ◌⊎◌, inl, inr, All, sym,
}
use mathlib.Core.Path.{subst}
use dev_control_open_harmony.Value.{Value}
use dev_control_open_harmony.Errors.{Result, ok, raise, or_raise-eq-ok}
use dev_control_open_harmony.Exec.{Exec, continue, ◌>>=◌}
use dev_control_open_harmony.Dict.{Dict, get, put}
use dev_control_open_harmony.Dict.Laws.{All-get}
use dev_control_open_harmony.Device.{Device, OnlyDetail}
use dev_control_open_harmony.Context.{Context}
use dev_control_open_harmony.Context
use dev_control_open_harmony.Drivers.Base.{DeviceDriver, Category}
use dev_control_open_harmony.Composition.Lawful.{Keeps, Lawful}
use dev_control_open_harmony.Registry.{DeviceRegistry, save, find, driver_for}
use dev_control_open_harmony.Registry.Commands.{
  ensure_commandable, sleep, written, settle, run_execute, perform,
}

-- `m` keeps `P`, and what it returns has `Q`.
pub record Ensures {S A : Type 0} (P : S → Type 0) (Q : A → Type 0) (m : Exec S A) : Type 0 where
  pub keeps : (s : S) → P s → P (m s).1
  pub returns : (s : S) (a : A) → P s → (m s).0 ≡ ok a → Q a

module _ {S A B : Type 0} {P : S → Type 0} {R : B → Type 0} where
  continue-keeps :
      (r : Result A) (f : A → Exec S B) (s : S)
      → P s
      → ((a : A) → r ≡ ok a → Ensures P R (f a))
      → P (continue r f s).1
  continue-keeps (ok a) f s p h = (h a refl).keeps s p
  continue-keeps (raise e) f s p h = p

  continue-returns :
      (r : Result A) (f : A → Exec S B) (s : S) (b : B)
      → P s
      → ((a : A) → r ≡ ok a → Ensures P R (f a))
      → (continue r f s).0 ≡ ok b
      → R b
  continue-returns (ok a) f s b p h e = (h a refl).returns s b p e
  continue-returns (raise x) f s b p h e = cc

module _ {S A B : Type 0} {P : S → Type 0} {Q : A → Type 0} {R : B → Type 0} where
  pub Ensures-bind :
      (m : Exec S A) (f : A → Exec S B)
      → Ensures P Q m
      → ((a : A) → Q a → Ensures P R (f a))
      → Ensures P R (m >>= f)
  Ensures-bind m f em ef = record {
    keeps =
        λ s p. continue-keeps (m s).0 f (m s).1 (em.keeps s p) (λ a e. ef a (em.returns s a p e));
    returns = λ s b p.
        continue-returns (m s).0 f (m s).1 b (em.keeps s p) (λ a e. ef a (em.returns s a p e));
  }

-- The registry's drivers and categories stay as they are, and its devices have `R`.
pub record Holds (cats : Dict Category) (drvs : Dict DeviceDriver) (R : Dict Device → Type 0)
    (r : DeviceRegistry) : Type 0 where
  pub categories : r.categories ≡ cats
  pub drivers : r.drivers ≡ drvs
  pub devices : R r.devices

module _ (d : Device) (v : Option ℕ) (r : DeviceRegistry) where
  -- What `_ensure_commandable` can have written.
  ensure_commandable_state :
      ((ensure_commandable d v r).1 ≡ r)
      ⊎ (((ensure_commandable d v r).1 ≡ sleep d.command_delay_ms r)
          ⊎ ((ensure_commandable d v r).1
              ≡ save (record d { fail_next_command = false }) (sleep d.command_delay_ms r)))
  unfolding ensure_commandable
  ensure_commandable_state = ground arith

  ensure_commandable_value : (a : Device) → (ensure_commandable d v r).0 ≡ ok a → d ≡ a
  unfolding ensure_commandable
  ensure_commandable_value a h = ground arith

module _ (cats : Dict Category) (drvs : Dict DeviceDriver) (lawful : All (λ e. Lawful e.1) drvs)
    (R : Dict Device → Type 0) (W : Device → Type 0)
    (R-put : (d : Device) (ds : Dict Device) → W d → R ds → R (put d.id d ds))
    (W-detail : (d e : Device) → OnlyDetail d e → W d → W e) where
  abbrev P : DeviceRegistry → Type 0
  P = Holds cats drvs R

  pub save-Holds : (d : Device) (r : DeviceRegistry) → W d → P r → P (save d r)
  unfolding save
  save-Holds d r w p = record {
    categories = p.categories;
    drivers = p.drivers;
    devices = R-put d r.devices w p.devices;
  }

  pub find-Ensures :
      {Q : Device → Type 0} (id : String)
      → ((ds : Dict Device) (d : Device) → R ds → get id ds ≡ some d → Q d)
      → Ensures P Q (find id)
  unfolding find Context.find
  find-Ensures id found = record {
    keeps = λ r p. p;
    returns = λ r d p e. found r.devices d p.devices (or_raise-eq-ok _ _ e);
  }

  pub ensure_commandable-Ensures :
      (d : Device) (v : Option ℕ)
      → W d
      → W (record d { fail_next_command = false })
      → Ensures P W (ensure_commandable d v)
  ensure_commandable-Ensures d v w reset = record {
    keeps = λ r p. elim (ensure_commandable_state d v r) [
      | inl e ↦ subst P (sym e) p
      | inr (inl e) ↦ subst P (sym e) (slept r p)
      | inr (inr e) ↦
          subst P (sym e) (save-Holds (record d { fail_next_command = false }) _ reset (slept r p))
    ];
    returns = λ r a p e. subst W (ensure_commandable_value d v r a e) w;
  }
    where
      slept : (r : DeviceRegistry) → P r → P (sleep d.command_delay_ms r)
      slept r p = record { categories = p.categories; drivers = p.drivers; devices = p.devices }

  pub driver_for-Ensures : (d : Device) → Ensures P Lawful (driver_for d)
  unfolding driver_for
  driver_for-Ensures d = record {
    keeps = λ r p. p;
    returns = λ r driver p e.
        All-get (λ x. Lawful x.1) d.device_type r.drivers
          (subst (All (λ x. Lawful x.1)) (sym p.drivers) lawful) (or_raise-eq-ok _ _ e);
  }

  written-Holds :
      (s : Device × Context) (r : DeviceRegistry)
      → W s.0
      → s.1.devices ≡ r.devices
      → P r
      → P (written s r)
  written-Holds (d, c) r w same p = save-Holds d _ w (record {
    categories = p.categories;
    drivers = p.drivers;
    devices = subst R (sym same) p.devices;
  })

  settle-keeps :
      {A : Type 0} (t : Result A) (s : Device × Context) (r : DeviceRegistry)
      → W s.0
      → s.1.devices ≡ r.devices
      → P r
      → P (settle (t, s) r).1
  settle-keeps (ok a) s r w same p = written-Holds s r w same p
  settle-keeps (raise e) s r w same p = written-Holds s r w same p

  settle-returns :
      {A : Type 0} (t : Result A) (s : Device × Context) (r : DeviceRegistry) (x : A × Device)
      → W s.0
      → (settle (t, s) r).0 ≡ ok x
      → W x.1
  settle-returns (ok a) s r x w e = subst W (ground arith) w
  settle-returns (raise e) s r x w h = cc

  -- a lawful method, run on a device of the dict
  pub settle-Ensures :
      {A : Type 0} (method : Exec (Device × Context) A) (d : Device)
      → ((s : Device × Context) → Keeps s (method s).1)
      → W d
      → Ensures P (λ x. W x.1) (λ r. settle (method (d, r.context)) r)
  settle-Ensures method d law w = record {
    keeps = λ r p.
        settle-keeps (method (d, r.context)).0 (method (d, r.context)).1 r
          (W-detail d _ (law (d, r.context)).device w) (law (d, r.context)).devices p;
    returns = λ r x p.
        settle-returns (method (d, r.context)).0 (method (d, r.context)).1 r x
          (W-detail d _ (law (d, r.context)).device w);
  }

  pub perform-Ensures :
      (id action : String) (payload : Dict Value) (v : Option ℕ)
      → ((ds : Dict Device) (d : Device)
          → R ds
          → get id ds ≡ some d
          → W d × W (record d { fail_next_command = false }))
      → Ensures P (λ x. W x.1) (perform id action payload v)
  unfolding perform run_execute
  perform-Ensures id action payload v found =
      Ensures-bind _ _
        (find-Ensures {Q = λ d. W d × W (record d { fail_next_command = false })} id found)
        λ d (w, reset). Ensures-bind _ _ (ensure_commandable-Ensures d v w reset) λ d' w'.
          Ensures-bind _ _ (driver_for-Ensures d') λ driver law.
            settle-Ensures (driver.execute action payload) d' (law.executes action payload) w'
