-- ===== src/Errors.antt =====
-- errors.py, and the other exceptions that a command can raise.
use dev_control_open_harmony.Prelude.{
  ap, ◌≡◌, refl, ◌⊎◌, inl, inr, ℕ, String, Bool, true, false, Option, none, some,
}

pub data ErrorCode : Type 0 where
  auth_failed device_proof_invalid device_offline invalid_command command_timeout : ErrorCode
  state_conflict replay_detected rate_limited internal_error : ErrorCode

pub record GatewayError : Type 0 where
  pub code : ErrorCode
  pub message : String
  pub status_code : ℕ
  pub retry_after_seconds : Option ℕ

-- Python's own exceptions, which the gateway does not turn into a `GatewayError` where they rise.
pub data PythonError : Type 0 where
  key_error value_error overflow_error runtime_error type_error : PythonError

pub data Error : Type 0 where
  gateway : GatewayError → Error
  python : PythonError → Error

pub data Result {ℓ} (A : Type ℓ) : Type ℓ where
  ok : A → Result A
  raise : Error → Result A

infixl 10 ◌>>=◌ ◌>>◌
abbrev pub ◌>>=◌ {ℓ κ} : {X : Type ℓ} {Y : Type κ} → Result X → (X → Result Y) → Result Y
ok value >>= next = next value
raise error >>= next = raise error

abbrev pub ◌>>◌ {ℓ κ} : {A : Type ℓ} {B : Type κ} → Result A → Result B → Result B
first >> second = first >>= λ _. second

-- `GatewayError(code, message)`, with the default status 400
abbrev pub refusal : ErrorCode → String → Error
refusal code message =
    gateway
      (record { code = code; message = message; status_code = 400; retry_after_seconds = none })

-- `if value is None: raise e`
abbrev pub or_raise {ℓ} : {A : Type ℓ} → Option A → Error → Result A
or_raise none e = raise e
or_raise (some a) e = ok a

-- `if refused: raise e`
abbrev pub refuse_if : Bool → Error → Result (Unit {0})
refuse_if true e = raise e
refuse_if false e = ok tt

abbrev pub is_ok {ℓ} : {A : Type ℓ} → Result A → Bool
is_ok (ok a) = true
is_ok (raise e) = false

-- The code of a `GatewayError`.
abbrev pub code_of : Error → Option ErrorCode
code_of (gateway e) = some e.code
code_of (python e) = none

pub Result-cases {ℓ} :
    {A : Type ℓ} (r : Result A) → ((e : Error) × (r ≡ raise e)) ⊎ ((a : A) × (r ≡ ok a))
Result-cases (ok a) = inr (a, refl)
Result-cases (raise e) = inl (e, refl)

-- Inversion of a chain that came out well.
pub >>=-eq-ok {ℓ κ} :
    {A : Type ℓ} {B : Type κ} (first : Result A) (next : A → Result B) {y : B}
    → (first >>= next) ≡ ok y
    → (x : A) × (first ≡ ok x) × (next x ≡ ok y)
>>=-eq-ok (ok x) next came_out = (x, refl, came_out)
>>=-eq-ok (raise e) next came_out = cc

pub or_raise-eq-ok {ℓ} :
    {A : Type ℓ} (o : Option A) (e : Error) {a : A} → or_raise o e ≡ ok a → o ≡ some a
or_raise-eq-ok none e h = cc
or_raise-eq-ok (some a) e h = cc

abbrev pub or_else {ℓ} : {A : Type ℓ} → A → Result A → A
or_else d (ok x) = x
or_else d (raise _) = d

pub ok-injective {ℓ} : {A : Type ℓ} {a b : A} → ok a ≡ ok b → a ≡ b
ok-injective {a} e = ap (or_else a) e
