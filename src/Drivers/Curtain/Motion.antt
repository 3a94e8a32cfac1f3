-- ===== src/Drivers/Curtain/Motion.antt =====
-- A curtain on its way: bounds, direction and arrival.
use dev_control_open_harmony.Prelude.{
  ℕ, zero, suc, ◌-◌, ◌*◌, ◌≤◌, ◌≡◌, String, true, ltb, arith, if◌then◌else◌,
}
use dev_control_open_harmony.Value.{Value}
use dev_control_open_harmony.Dict.{Dict}
use dev_control_open_harmony.Device.{Device, Curtain, Movement, stopped, opening, closing}
use dev_control_open_harmony.Drivers.Curtain.{aim, set_position, execute, advance, tick, distance}

-- where the curtain has to go
abbrev pub direction : Curtain → Movement
direction c =
    if ltb c.position_percent c.target_position_percent
    then opening
    else if ltb c.target_position_percent c.position_percent
    then closing
    else stopped

pub record IsValid (c : Curtain) : Type 0 where
  pub position : c.position_percent ≤ 100
  pub target : c.target_position_percent ≤ 100
  pub coherent : c.movement ≡ direction c

-- A command, accepted or refused, keeps both positions of a valid curtain within 0 to 100 and its
-- movement in the direction of its target.
pub curtain_execute-IsValid :
    (action : String) (payload : Dict Value) (c : Curtain)
    → IsValid c
    → IsValid (execute action payload c).1
unfolding execute set_position aim
curtain_execute-IsValid action payload c v = ground arith

pub execute-position :
    (action : String) (payload : Dict Value) (c : Curtain)
    → (execute action payload c).1.position_percent ≡ c.position_percent
unfolding execute set_position aim
execute-position action payload c = ground arith

-- So does a tick.
pub curtain_tick-IsValid : (d : Device) (c : Curtain) → IsValid c → IsValid (tick d c).1
unfolding tick advance
curtain_tick-IsValid d c v = ground arith

-- A tick of a valid online curtain moves it ten points nearer to its target, or all the way if it
-- is nearer than that, keeps the target, and reports a change exactly if there was a way to go.
pub tick-distance :
    (d : Device) (c : Curtain)
    → IsValid c
    → d.online ≡ true
    → (distance (tick d c).1 ≡ distance c - 10)
      × ((tick d c).1.target_position_percent ≡ c.target_position_percent)
      × ((tick d c).0 ≡ ltb 0 (distance c))
unfolding tick advance
tick-distance d c v on = ground arith

pub ticks : ℕ → Device → Curtain → Curtain
ticks zero d c = c
ticks (suc n) d c = ticks n d (tick d c).1

-- After one tick for each ten points of its way a valid curtain that stays online has arrived
-- where it was sent and stands still.
pub ticks_arrive :
    (n : ℕ) (d : Device) (c : Curtain)
    → IsValid c
    → d.online ≡ true
    → distance c ≤ 10 * n
    → ((ticks n d c).position_percent ≡ c.target_position_percent)
      × ((ticks n d c).target_position_percent ≡ c.target_position_percent)
      × ((ticks n d c).movement ≡ stopped)
unfolding ticks
ticks_arrive zero d c v on h = ground arith
ticks_arrive (suc n) d c v on h =
    let moved = tick-distance d c v on in
    let later = ticks_arrive n d (tick d c).1 (curtain_tick-IsValid d c v) on (omega arith) in
    ground arith

-- Ten ticks are enough for every valid curtain.
pub ten_ticks :
    (d : Device) (c : Curtain)
    → IsValid c
    → d.online ≡ true
    → (ticks 10 d c).position_percent ≡ c.target_position_percent
ten_ticks d c v on = (ticks_arrive 10 d c v on (omega arith)).0
