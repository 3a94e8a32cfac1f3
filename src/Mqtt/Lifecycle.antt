-- ===== src/Mqtt/Lifecycle.antt =====
-- `start` and `stop` of the MQTT bridge, with those of the gateway's service (service.py).
use dev_control_open_harmony.Prelude.{
  ℕ, ◌≡◌, refl, Bool, true, false, not, List, [], ◌∷◌, arith, if◌then◌else◌,
}
use dev_control_open_harmony.Errors.{Result, ok, raise}
use dev_control_open_harmony.Exec.{Exec}
use dev_control_open_harmony.Config.{Host, GatewayConfig, validate}
use dev_control_open_harmony.Service.Sinks.{has, add_sink, remove_sink}

-- The bridge's flag, whether the client's loop runs, and the sinks of the service. The bridge's own
-- sink has the number `publisher`.
pub record Bridge : Type 0 where
  pub started : Bool
  pub looping : Bool
  pub sinks : List ℕ

-- `connects` is what `connect_async` and `loop_start` answer.
unfoldable pub start : Host → GatewayConfig → ℕ → Result (Unit {0}) → Exec Bridge (Unit {0})
unfolding validate add_sink remove_sink
start h config publisher connects b = if b.started then (ok tt, b) else elim (validate h config) [
  | raise e ↦ (raise e, b)
  | ok _ ↦
      let sinks = add_sink publisher b.sinks in
      elim connects [
        | raise e ↦ (raise e, record b { sinks = remove_sink publisher sinks })
        | ok _ ↦ (ok tt, record { started = true; looping = true; sinks = sinks })
      ]
]

-- `disconnects` is what `disconnect` answers; the loop is stopped all the same.
unfoldable pub stop : ℕ → Result (Unit {0}) → Exec Bridge (Unit {0})
unfolding remove_sink
stop publisher disconnects b = if not b.started then (ok tt, b) else (
  disconnects,
  record { started = false; looping = false; sinks = remove_sink publisher b.sinks },
)

-- A run of calls: `start` with what the client answers, or `stop`.
pub data Call : Type 0 where
  start_call stop_call : Result (Unit {0}) → Call

abbrev pub call : Host → GatewayConfig → ℕ → Call → Bridge → Bridge
unfolding start stop
call h config publisher (start_call connects) b = (start h config publisher connects b).1
call h config publisher (stop_call disconnects) b = (stop publisher disconnects b).1

abbrev pub call_all : Host → GatewayConfig → ℕ → List Call → Bridge → Bridge
call_all h config publisher [] b = b
call_all h config publisher (c ∷ cs) b =
    call_all h config publisher cs (call h config publisher c b)

-- The bridge listens to the service, and its loop runs, exactly while it is started.
unfoldable pub IsConsistent : ℕ → Bridge → Type 0
IsConsistent publisher b = (has publisher b.sinks ≡ b.started) × (b.looping ≡ b.started)

has-add : (k : ℕ) (sinks : List ℕ) → has k (add_sink k sinks) ≡ true
unfolding has add_sink
has-add k sinks = ground arith

has-remove : (k : ℕ) (sinks : List ℕ) → has k (remove_sink k sinks) ≡ false
unfolding has remove_sink
has-remove k [] = refl
has-remove k (j ∷ sinks) = ground (arith, has-remove k sinks)

call-IsConsistent :
    (h : Host) (config : GatewayConfig) (publisher : ℕ) (c : Call) (b : Bridge)
    → IsConsistent publisher b
    → IsConsistent publisher (call h config publisher c b)
unfolding IsConsistent start stop call
call-IsConsistent h config publisher (start_call connects) b consistent =
    let added = has-add publisher b.sinks in
    let removed = has-remove publisher (add_sink publisher b.sinks) in
    (ground (arith, added, removed), ground (arith, added, removed))
call-IsConsistent h config publisher (stop_call disconnects) b consistent =
    let removed = has-remove publisher b.sinks in (ground (arith, removed), ground (arith, removed))

-- However often the bridge is started and stopped, and whether the client connects or not, the
-- bridge is a sink of the service, and its loop runs, exactly while it is started.
pub call_all-IsConsistent :
    (h : Host) (config : GatewayConfig) (publisher : ℕ) (calls : List Call) (b : Bridge)
    → IsConsistent publisher b
    → IsConsistent publisher (call_all h config publisher calls b)
call_all-IsConsistent h config publisher [] b consistent = consistent
call_all-IsConsistent h config publisher (c ∷ cs) b consistent =
    call_all-IsConsistent h config publisher cs (call h config publisher c b)
      (call-IsConsistent h config publisher c b consistent)
