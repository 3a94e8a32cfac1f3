-- ===== src/Registry/Ticks/Order.antt =====
-- The order in which a round of ticks visits the devices.
use mathlib.Core.List.Permᴰ
use mathlib.Core.List.{Permᴰ}
use dev_control_open_harmony.Prelude.{
  ℕ, ◌≤◌, String, refl, arith, List, [], ◌∷◌, leb, Bool-cases, inl, inr,
}
use dev_control_open_harmony.Registry.Ticks.{insert_by_priority, sort_by_priority}

abbrev pub Sorted : ℕ → List (ℕ × String) → Type 0
Sorted least [] = Unit
Sorted least (e ∷ es) = (least ≤ e.0) × Sorted e.0 es

insert-Sorted :
    (least : ℕ) (e : ℕ × String) (es : List (ℕ × String))
    → least ≤ e.0
    → Sorted least es
    → Sorted least (insert_by_priority e es)
insert-Sorted least e [] h s = (h, tt)
insert-Sorted least e (f ∷ fs) h s = elim (Bool-cases (leb e.0 f.0)) [
  | inl le ↦ rw le (h, (ground arith, s.1))
  | inr gt ↦ rw gt (s.0, insert-Sorted f.0 e fs (ground arith) s.1)
]

insert-Perm : (e : ℕ × String) (es : List (ℕ × String)) → Permᴰ (e ∷ es) (insert_by_priority e es)
insert-Perm e [] = Permᴰ.refl _
insert-Perm e (f ∷ fs) = elim (Bool-cases (leb e.0 f.0)) [
  | inl le ↦ rw le (Permᴰ.refl (e ∷ f ∷ fs))
  | inr gt ↦ rw gt (Permᴰ.trans (Permᴰ.swap refl refl) (Permᴰ.cons refl (insert-Perm e fs)))
]

-- The sorted keys of a round of ticks are the keys that were given, in the order of their
-- priorities.
pub sort_by_priority-Sorted :
    (es : List (ℕ × String)) → Sorted 0 (sort_by_priority es) × Permᴰ es (sort_by_priority es)
unfolding sort_by_priority
sort_by_priority-Sorted [] = (tt, Permᴰ.refl _)
sort_by_priority-Sorted (e ∷ es) =
    let (sorted, permuted) = sort_by_priority-Sorted es in
    (
      insert-Sorted 0 e (sort_by_priority es) (omega arith) sorted,
      Permᴰ.trans (Permᴰ.cons refl permuted) (insert-Perm e (sort_by_priority es)),
    )
