-- ===== src/Service/Windows.antt =====
-- The two dicts of VirtualGateway/devcontrol_gateway/service.py that remember results and nonces,
-- keyed by a pair of strings: the digest of a credential, and a message id or a nonce.
use dev_control_open_harmony.Prelude.{
  ◌≡◌, String, Bool, true, false, Option, none, some, List, [], ◌∷◌, ◌==◌, ◌&&◌, if◌then◌else◌,
  eq_iff, arith,
}

abbrev pub Key : Type 0
Key = String × String

abbrev pub same_key : Key → Key → Bool
same_key (a, b) (c, d) = a == c && b == d

abbrev pub Window {ℓ} : Type ℓ → Type ℓ
Window V = List (Key × V)

module _ {ℓ} {V : Type ℓ} where
  unfoldable pub lookup : Key → Window V → Option V
  lookup k [] = none
  lookup k ((j, v) ∷ w) = if same_key j k then some v else lookup k w

  unfoldable pub store : Key → V → Window V → Window V
  store k v [] = (k, v) ∷ []
  store k v ((j, u) ∷ w) =
      let rest = store k v w in if same_key j k then (j, v) ∷ w else (j, u) ∷ rest

  -- `{key: value for key, value in ... if kept}`
  unfoldable pub keep : (V → Bool) → Window V → Window V
  keep p [] = []
  keep p ((j, v) ∷ w) = let rest = keep p w in if p v then (j, v) ∷ rest else rest

  pub lookup-store : (k : Key) (v : V) (w : Window V) → lookup k (store k v w) ≡ some v
  unfolding lookup store
  lookup-store (a, b) v [] = ground (arith, eq_iff a a, eq_iff b b)
  lookup-store (a, b) v ((j, u) ∷ w) =
      ground (arith, lookup-store (a, b) v w, eq_iff a a, eq_iff b b)

  pub lookup-store_other :
      (k j : Key) (v : V) (w : Window V)
      → same_key j k ≡ false
      → lookup k (store j v w) ≡ lookup k w
  unfolding lookup store
  lookup-store_other k j v [] h = ground arith
  lookup-store_other (a, b) (c, d) v (((e, f), u) ∷ w) h = ground (
    arith,
    lookup-store_other (a, b) (c, d) v w h,
    eq_iff e c,
    eq_iff f d,
    eq_iff e a,
    eq_iff f b,
    eq_iff c a,
    eq_iff d b,
  )

  -- What is found and is kept is still found: an entry that goes does not hide another.
  pub lookup-keep :
      (p : V → Bool) (k : Key) (v : V) (w : Window V)
      → lookup k w ≡ some v
      → p v ≡ true
      → lookup k (keep p w) ≡ some v
  unfolding lookup keep
  lookup-keep p k v [] h kept = ground arith
  lookup-keep p k v ((j, u) ∷ w) h kept = ground (arith, lookup-keep p k v w)
