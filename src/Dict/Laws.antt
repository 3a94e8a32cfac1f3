-- ===== src/Dict/Laws.antt =====
-- The laws of the dictionary.
use dev_control_open_harmony.Prelude.{
  String, ◌≡◌, refl, none, some, [], ◌∷◌, ◌++◌, arith, ◌==◌, eq_iff, if◌then◌else◌, Bool-cases, inl,
  inr, All,
}
use mathlib.Core.Path.{subst₂}
use dev_control_open_harmony.Dict.{Dict, get, put, remove}

module _ {ℓ} {V : Type ℓ} where
  pub get-put :
      (k j : String) (v : V) (d : Dict V) → get j (put k v d) ≡ (if k == j then some v else get j d)
  unfolding get put
  get-put k j v [] = refl
  get-put k j v ((i, w) ∷ d) = ground (arith, eq_iff k j, eq_iff i k, eq_iff i j, get-put k j v d)

  pub get-remove :
      (k j : String) (d : Dict V) → get j (remove k d) ≡ (if k == j then none else get j d)
  unfolding get remove
  get-remove k j [] = ground arith
  get-remove k j ((i, w) ∷ d) = ground (arith, eq_iff k j, eq_iff i k, eq_iff i j, get-remove k j d)

  -- A property of every entry survives a write of an entry that has it, and a removal.
  pub All-put {κ} :
      (P : String × V → Type κ) (k : String) (v : V) (d : Dict V)
      → P (k, v)
      → All P d
      → All P (put k v d)
  unfolding put
  All-put P k v [] p h = (p, tt)
  All-put P k v ((j, w) ∷ d) p h = ground (arith, eq_iff j k, All-put P k v d p)

  pub All-remove {κ} :
      (P : String × V → Type κ) (k : String) (d : Dict V) → All P d → All P (remove k d)
  unfolding remove
  All-remove P k [] h = tt
  All-remove P k ((j, w) ∷ d) h = ground (arith, All-remove P k d h.1)

  pub All-get {κ} :
      (P : String × V → Type κ) (k : String) (d : Dict V) {v : V}
      → All P d
      → get k d ≡ some v
      → P (k, v)
  unfolding get
  All-get P k [] h e = ground arith
  All-get P k ((j, w) ∷ d) {v} h e = elim (Bool-cases (j == k)) [
    | inl q ↦ subst₂ (λ a b. P (a, b)) ((eq_iff j k).0 q) (ground arith) h.0
    | inr q ↦ All-get P k d h.1 (ground arith)
  ]

  -- a new key goes to the end
  pub put_absent : (k : String) (v : V) (d : Dict V) → get k d ≡ none → put k v d ≡ d ++ (k, v) ∷ []
  unfolding get put
  put_absent k v [] h = refl
  put_absent k v ((j, w) ∷ d) h = ground (arith, put_absent k v d)

  pub remove_absent : (k : String) (d : Dict V) → get k d ≡ none → remove k d ≡ d
  unfolding get remove
  remove_absent k [] h = refl
  remove_absent k ((j, w) ∷ d) h = ground (arith, remove_absent k d)

  -- a write under a key that is then removed leaves no trace
  pub remove-put : (k : String) (v : V) (d : Dict V) → remove k (put k v d) ≡ remove k d
  unfolding put remove
  remove-put k v [] = ground (arith, eq_iff k k)
  remove-put k v ((j, w) ∷ d) = ground (arith, eq_iff k k, remove-put k v d)

  -- adding a new key and removing it again gives the dict back, in its order
  pub remove-put_absent :
      (k : String) (v : V) (d : Dict V) → get k d ≡ none → remove k (put k v d) ≡ d
  unfolding get put remove
  remove-put_absent k v [] h = ground (arith, eq_iff k k)
  remove-put_absent k v ((j, w) ∷ d) h = ground (arith, remove-put_absent k v d)

  pub put_self : (k : String) (v : V) (d : Dict V) → get k d ≡ some v → put k v d ≡ d
  unfolding get put
  put_self k v [] h = ground arith
  put_self k v ((j, w) ∷ d) h = ground (arith, put_self k v d)

pub ruleset dict_laws = (get-put, get-remove)
