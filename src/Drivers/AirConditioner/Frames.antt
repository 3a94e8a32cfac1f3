-- ===== src/Drivers/AirConditioner/Frames.antt =====
-- The brands that have an adapter.
use dev_control_open_harmony.Prelude.{◌≡◌, String, arith, contains}
use dev_control_open_harmony.Errors.{is_ok}
use dev_control_open_harmony.Adapters.{get_adapter, adapters}
use dev_control_open_harmony.Dict.{keys}

-- A known brand has an adapter, an unknown one raises.
pub get_adapter-is_ok :
    (brand : String) → is_ok (get_adapter brand) ≡ contains (keys adapters) brand
unfolding get_adapter contains
get_adapter-is_ok brand = ground arith
