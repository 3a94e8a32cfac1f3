-- ===== src/Http/Stream.antt =====
-- Server-sent events: `_sse_event_stream` of VirtualGateway/devcontrol_gateway/app.py, with the queue of
-- its sink.
pub mod Queue
use dev_control_open_harmony.Prelude.{
  ℕ, zero, suc, ◌+◌, ◌-◌, min, Bool, true, false, Option, none, some, List, [], ◌∷◌, ◌++◌, String,
  leb, nat_eq, length, drop, if◌then◌else◌,
}
use dev_control_open_harmony.Errors.{ok, raise}
use dev_control_open_harmony.Sessions.{Primitives, SessionRegistry, authenticate, remaining_ms}

abbrev pub queue_size : ℕ
queue_size = 64

-- `sink`: a full queue loses its oldest event.
unfoldable pub offer {ℓ} : {E : Type ℓ} → List E → E → List E
offer queue event =
    let room = if leb queue_size (length queue) then drop 1 queue else queue in room ++ event ∷ []

-- What the stream yields.
pub data Item {ℓ} (E : Type ℓ) : Type ℓ where
  heartbeat : ℕ → Item E
  event : E → Item E

pub data Turn {ℓ} (E : Type ℓ) : Type ℓ where
  ended : Turn E
  yields : Item E → List E → Turn E

-- `asyncio.wait_for(queue.get(), timeout)`: `arrives` is the event that comes before the timeout, if
-- the queue is empty.
unfoldable pub next_item {ℓ} : {E : Type ℓ} → ℕ → Option E → List E → Turn E
next_item now arrives (e ∷ queue) = yields (event e) queue
next_item now none [] = yields (heartbeat now) []
next_item now (some e) [] = yields (event e) []

-- One turn of the loop. `wall` is the time at which the credential is checked, `later` the time at
-- which the rest of its life is taken, `now` the time of a heartbeat.
module _ {ℓ} {E : Type ℓ} (p : Primitives) (credential : String) where
  unfoldable pub turn :
      ℕ → ℕ → ℕ → Bool → Option E → List E → SessionRegistry → Turn E × SessionRegistry
  unfolding authenticate next_item
  turn wall later now disconnected arrives queue r =
      let (checked, r') = authenticate p wall credential r in
      if disconnected then (ended, r) else elim checked [
        | raise e ↦ (ended, r')
        | ok session ↦
            if nat_eq (min 15000 (remaining_ms later session)) 0
            then (ended, r')
            else (next_item now arrives queue, r')
      ]
