-- ===== src/Http/Briefing.antt =====
-- The briefing of the maintenance dashboard: `_build_gateway_briefing_v2` of
-- VirtualGateway/devcontrol_gateway/app.py.
use Prim.Native.String.{◌++◌ as ◌<>◌}
use dev_control_open_harmony.Prelude.{
  ℕ, ◌≤◌, ◌≡◌, String, Bool, true, false, not, ◌||◌, Option, none, some, List, [], ◌∷◌, ◌++◌, ◌==◌,
  leb, nat_eq, length, take, map, filter, any, concat, decimal, if◌then◌else◌, arith, length-append,
  take_of_length-le,
}
use dev_control_open_harmony.Numbers.{ℤ, pos, negsuc, Float, finite, of_ℕ, less, int_lt}
use dev_control_open_harmony.Value.{
  Value, null, boolean, integer, real, text, array, object, nil, cons, end, field,
}
use dev_control_open_harmony.Dict.{Dict, get}

pub record Note : Type 0 where
  pub level : String
  pub title : String
  pub body : String

-- `bool(item.get(key, False))`
abbrev pub truthy : Option Value → Bool
truthy none = false
truthy (some null) = false
truthy (some (boolean b)) = b
truthy (some (integer (pos n))) = not (nat_eq n 0)
truthy (some (integer (negsuc n))) = true
truthy (some (real (finite (pos n) d))) = not (nat_eq n 0)
truthy (some (real _)) = true
truthy (some (text s)) = not (s == "")
truthy (some (array nil)) = false
truthy (some (array (cons v vs))) = true
truthy (some (object end)) = false
truthy (some (object (field name v fs))) = true

-- `float(item.get(key, 0))`, for a value that is a number
abbrev pub float_at : Option Value → Float
float_at (some (integer n)) = finite n 0
float_at (some (real x)) = x
float_at (some (boolean true)) = of_ℕ 1
float_at _ = of_ℕ 0

-- `int(item.get(key, 100))`, for a value that is an integer
abbrev pub int_at : Option Value → ℤ
int_at (some (integer n)) = n
int_at _ = pos 100

-- `next((item for item in devices if ...), None)`
unfoldable pub first_of : String → List (Dict Value) → Option (Dict Value)
unfolding get
first_of type [] = none
first_of type (d ∷ ds) = if is_text_value (get "type" d) type then some d else first_of type ds
  where
    is_text_value : Option Value → String → Bool
    is_text_value (some (text s)) t = s == t
    is_text_value _ t = false

unfoldable pub is_offline : Dict Value → Bool
unfolding get
is_offline d = not (truthy (get "online" d))

abbrev name_or : Option Value → Option Value → String
name_or (some (text s)) id = s
name_or _ (some (text s)) = s
name_or _ _ = ""

abbrev pub joined : List String → String
joined [] = ""
joined (s ∷ []) = s
joined (s ∷ t ∷ ss) = concat (s ∷ "、" ∷ joined (t ∷ ss) ∷ [])

unfoldable pub connection_note : List (Dict Value) → Note
unfolding is_offline get decimal
connection_note devices =
    let offline = filter is_offline devices in
    if any is_offline devices
    then record {
      level = "risk";
      title = "有设备离线";
      body =
          joined (map (λ d. name_or (get "name" d) (get "id" d)) offline)
          <> " 当前离线。演示时可以观察 App 是否停止控制，并查看这里的设备状态和告警记录。";
    }
    else record {
      level = "safe";
      title = "设备连接正常";
      body = concat ("当前 " ∷ decimal (length devices) ∷ " 台模拟设备在线。这里显示的是网关侧记录的设备状态。" ∷ []);
    }

-- `show digits x` is `x` with that many digits after the point.
unfoldable pub environment_notes : (ℕ → Float → String) → Option (Dict Value) → List Note
unfolding get less
environment_notes show none = []
environment_notes show (some env) =
    let temperature = float_at (get "temperatureCelsius" env) in
    let humidity = float_at (get "humidityPercent" env) in
    (if not (less temperature (of_ℕ 29)) || not (less humidity (of_ℕ 68))
      then record {
        level = "warn";
        title = "环境偏闷热";
        body = concat (
            "当前 "
            ∷ show 1 temperature
            ∷ "°C / "
            ∷ show 0 humidity
            ∷ "%RH。可以在 App 里尝试空调控制，再回到这里看状态变化。"
            ∷ []);
      }
      else record {
        level = "safe";
        title = "环境状态正常";
        body =
            concat ("当前 " ∷ show 1 temperature ∷ "°C / " ∷ show 0 humidity ∷ "%RH，环境传感器数据正常。" ∷ []);
      })
    ∷ []

abbrev when_true : Bool → String → List String
when_true true s = s ∷ []
when_true false s = []

unfoldable pub door_notes : Option (Dict Value) → List Note
unfolding get
door_notes none = []
door_notes (some door) =
    let locked = truthy (get "locked" door) in
    let low = not (int_lt (pos 20) (int_at (get "batteryPercent" door))) in
    let jammed = truthy (get "jammed" door) in
    (if not locked || (low || jammed)
      then record {
        level = "risk";
        title = "门锁需要关注";
        body =
            joined (when_true (not locked) "门锁未锁" ++ when_true low "电量偏低" ++ when_true jammed "卡滞")
            <> "。这个页面只用于查看和测试，不替用户执行解锁。";
      }
      else record { level = "safe"; title = "门锁状态正常"; body = "入户门锁已锁定，电量正常。App 解锁仍需要二次确认。" })
    ∷ []

abbrev pub note_if : Bool → Note → List Note
note_if true n = n ∷ []
note_if false n = []

-- The notes in their order; `alerts` and `logs` are the numbers of those lists.
unfoldable pub notes : (ℕ → Float → String) → List (Dict Value) → ℕ → ℕ → ℕ → List Note
unfolding connection_note environment_notes door_notes first_of decimal
notes show devices alerts logs pairing_expires_in =
    connection_note devices ∷ environment_notes show (first_of "environment" devices)
    ++ door_notes (first_of "doorLock" devices)
    ++ note_if (not (nat_eq alerts 0)) (record {
      level = "warn";
      title = "存在告警记录";
      body = concat ("最近有 " ∷ decimal alerts ∷ " 条告警，可以结合下面的告警表和审计记录一起演示。" ∷ []);
    })
    ++ note_if (leb pairing_expires_in 60)
        (record { level = "warn"; title = "配对码快过期"; body = "一次性配对码剩余不足 60 秒。过期后需要使用网关新生成的配对码。" })
    ++ note_if (not (nat_eq logs 0))
        (record { level = "info"; title = "已有操作记录"; body = "最近的控制或测试操作会显示在审计记录中，方便演示状态变化不是只改了界面。" })

-- `briefing[:6]`
unfoldable pub build_gateway_briefing :
    (ℕ → Float → String) → List (Dict Value) → ℕ → ℕ → ℕ → List Note
unfolding notes
build_gateway_briefing show devices alerts logs pairing_expires_in =
    take 6 (notes show devices alerts logs pairing_expires_in)

length-environment_notes :
    (show : ℕ → Float → String) (o : Option (Dict Value)) → length (environment_notes show o) ≤ 1
unfolding environment_notes
length-environment_notes show none = omega arith
length-environment_notes show (some env) = omega arith

length-door_notes : (o : Option (Dict Value)) → length (door_notes o) ≤ 1
unfolding door_notes
length-door_notes none = omega arith
length-door_notes (some door) = omega arith

length-note_if : (b : Bool) (n : Note) → length (note_if b n) ≤ 1
length-note_if true n = omega arith
length-note_if false n = omega arith

-- Six lists of a note at most, put together.
length-notes :
    (first : Note) (a b c d e : List Note)
    → length a ≤ 1
    → length b ≤ 1
    → length c ≤ 1
    → length d ≤ 1
    → length e ≤ 1
    → length (first ∷ a ++ b ++ c ++ d ++ e) ≤ 6
length-notes first a b c d e la lb lc ld le = grind (arith, length-append)

-- No note is cut off.
pub build_gateway_briefing-notes :
    (show : ℕ → Float → String) (devices : List (Dict Value)) (alerts logs pairing_expires_in : ℕ)
    → build_gateway_briefing show devices alerts logs pairing_expires_in
      ≡ notes show devices alerts logs pairing_expires_in
unfolding build_gateway_briefing notes
build_gateway_briefing-notes show devices alerts logs pairing_expires_in =
    take_of_length-le 6 (notes show devices alerts logs pairing_expires_in) (
      length-notes (connection_note devices) _ _ _ _ _
        (length-environment_notes show (first_of "environment" devices))
        (length-door_notes (first_of "doorLock" devices)) (length-note_if _ _) (length-note_if _ _)
        (length-note_if _ _))
