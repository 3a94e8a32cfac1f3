-- ===== src/Value.antt =====
-- JSON values as Python holds them: command payloads, and devices as the API shows them.
use dev_control_open_harmony.Prelude.{String, Bool, Option, none, some}
use dev_control_open_harmony.Numbers.{ℤ, Float, finite}

mutual
  pub data Value : Type 0 where
    null : Value
    boolean : Bool → Value
    integer : ℤ → Value
    real : Float → Value
    text : String → Value
    array : Values → Value
    object : Fields → Value

  pub data Values : Type 0 where
    nil : Values
    cons : Value → Values → Values

  pub data Fields : Type 0 where
    end : Fields
    field : String → Value → Fields → Fields

-- `isinstance(v, bool)`
abbrev pub as_bool : Value → Option Bool
as_bool (boolean b) = some b
as_bool _ = none

-- `isinstance(v, str)`
abbrev pub as_text : Value → Option String
as_text (text s) = some s
as_text _ = none

-- `isinstance(v, int) and not isinstance(v, bool)`
abbrev pub as_int : Value → Option ℤ
as_int (integer n) = some n
as_int _ = none

-- `isinstance(v, (int, float)) and not isinstance(v, bool)`
abbrev pub as_number : Value → Option Float
as_number (integer n) = some (finite n 0)
as_number (real x) = some x
as_number _ = none
