-- ===== src/Config/Validation.antt =====
-- What validated settings guarantee: bounds, credentials for the broker, topics without empty levels.
use Prim.Native.Char.{Char, code}
use mathlib.Core.Path.{subst}
use dev_control_open_harmony.Prelude.{
  ℕ, ◌*◌, ◌≤◌, ◌≡◌, refl, String, Bool, true, false, not, ◌&&◌, ◌||◌, List, [], ◌∷◌, arith, nat_eq,
  all, Bool-cases, inl, inr,
}
use dev_control_open_harmony.Numbers.{ℤ, pos, int_lt}
use dev_control_open_harmony.Errors.{ok}
use dev_control_open_harmony.Ascii.{is_empty, codes, is_letter, is_digit}
use dev_control_open_harmony.QrCode.{split, attach}
use dev_control_open_harmony.Config.{
  Host, GatewayConfig, validate, validate_mqtt, is_between, is_topic_prefix, is_topic_character,
  has_empty_level, uses_mtls, uses_password,
}

bounded :
    (n : ℤ)
    → is_between 1024 (1024 * 1024) n ≡ true
    → (limit : ℕ) × (n ≡ pos limit) × (1024 ≤ limit) × (limit ≤ 1048576)
bounded (ℤ.pos n) h = (n, refl, ground arith, ground arith)
bounded (ℤ.negsuc n) h = absurd (ground arith)

pub validate-bounds :
    (h : Host) (c : GatewayConfig)
    → validate h c ≡ ok tt
    → (limit : ℕ) × (c.max_transport_message_bytes ≡ pos limit)
      × (1024 ≤ limit)
      × (limit ≤ 1048576)
      × (int_lt (pos 0) c.credential_ttl_seconds ≡ true)
unfolding validate
validate-bounds h c valid =
    let (limit, same, low, high) = bounded c.max_transport_message_bytes (ground arith) in
    (limit, same, low, high, ground arith)

pub validate-broker :
    (h : Host) (c : GatewayConfig)
    → validate h c ≡ ok tt
    → c.mqtt_enabled ≡ true
    → ((uses_mtls c || uses_password c) ≡ true)
      × (h.is_file c.mqtt_ca ≡ true)
      × (is_between 1 65535 c.mqtt_port ≡ true)
unfolding validate validate_mqtt
validate-broker h c valid enabled = (ground arith, ground arith, ground arith)

abbrev is_plain : String → Bool
is_plain s = all (λ c. is_topic_character c && not (nat_eq c b'/')) (codes s)

-- A level of a topic.
unfoldable pub is_level : String → Bool
unfolding is_topic_character is_letter is_digit
is_level s = not (is_empty s) && is_plain s

abbrev starts : String → Bool
starts String.[] = true
starts (String.◌∷◌ c s) = nat_eq (code c) b'/'

-- The pieces of a text, the first of which may be empty only if it `begins` with a slash.
shape : Bool → List String → Bool
unfolding is_level
shape begins [] = false
shape begins (p ∷ ps) = is_plain p && ((begins || not (is_empty p)) && all is_level ps)

no_pieces : shape true ("" ∷ []) ≡ true
unfolding shape is_level
no_pieces = refl

levels-shape : (pieces : List String) → shape false pieces ≡ true → all is_level pieces ≡ true
unfolding shape is_level
levels-shape [] h = absurd (ground arith)
levels-shape (p ∷ ps) h = ground arith

shape-attach :
    (c : Char) (pieces : List String) (begins : Bool)
    → shape begins pieces ≡ true
    → is_topic_character (code c) ≡ true
    → (nat_eq (code c) b'/' && begins) ≡ false
    → shape (nat_eq (code c) b'/') (attach b'/' c pieces) ≡ true
unfolding shape is_level
shape-attach c [] begins h plain apart = absurd (ground arith)
shape-attach c (p ∷ ps) begins h plain apart = elim (Bool-cases (nat_eq (code c) b'/')) [
  | inl slash ↦ ground arith
  | inr other ↦ ground arith
]

shape-split :
    (s : String)
    → all is_topic_character (codes s) ≡ true
    → (is_empty s || not (has_empty_level (codes s))) ≡ true
    → shape (starts s) (split b'/' s) ≡ true
unfolding split has_empty_level
shape-split String.[] plain full = no_pieces
shape-split (String.◌∷◌ c String.[]) plain full =
    shape-attach c ("" ∷ []) true no_pieces (ground arith) (ground arith)
shape-split (String.◌∷◌ c (String.◌∷◌ d s)) plain full =
    shape-attach c (split b'/' (String.◌∷◌ d s)) (nat_eq (code d) b'/')
      (shape-split (String.◌∷◌ d s) (ground arith) (ground arith)) (ground arith) (ground arith)

pub levels-split :
    (s : String)
    → is_topic_prefix (codes s) ≡ true
    → has_empty_level (codes s) ≡ false
    → all is_level (split b'/' s) ≡ true
unfolding is_topic_prefix shape is_level is_topic_character is_letter is_digit
levels-split String.[] plain full = absurd (ground arith)
levels-split (String.◌∷◌ c s) plain full = elim (Bool-cases (nat_eq (code c) b'/')) [
  | inl slash ↦ absurd (ground arith)
  | inr other ↦ levels-shape (split b'/' (String.◌∷◌ c s)) (
      subst (λ b. shape b (split b'/' (String.◌∷◌ c s)) ≡ true) other
        (shape-split (String.◌∷◌ c s) (ground arith) (ground arith)))
]

-- Settings with MQTT that pass validation have a topic prefix whose levels, the pieces between
-- slashes, are all non-empty and have no character but letters, digits, underscore and dash.
pub validate-levels :
    (h : Host) (c : GatewayConfig)
    → validate h c ≡ ok tt
    → c.mqtt_enabled ≡ true
    → all is_level (split b'/' c.mqtt_topic_prefix) ≡ true
unfolding validate validate_mqtt
validate-levels h c valid enabled = levels-split c.mqtt_topic_prefix (ground arith) (ground arith)
