-- ===== src/Http/Stream/Queue.antt =====
-- The queue of an event stream: which events it holds, and for whom they are sent.
use mathlib.Core.List.{append_assoc, append-nil}
use dev_control_open_harmony.Prelude.{
  ℕ, zero, suc, ◌-◌, ◌≤◌, ◌<◌, min, ◌≡◌, refl, sym, ap, ◌∙◌, Bool, false, Option, List, [], ◌∷◌,
  ◌++◌, String, leb, length, drop, length-append, length-drop, arith, inl, inr, Bool-cases,
  if◌then◌else◌,
}
use dev_control_open_harmony.Errors.{ok, Result-cases}
use dev_control_open_harmony.Sessions.{Primitives, SessionRegistry, ClientSession, authenticate}
use dev_control_open_harmony.Http.Stream.{offer, queue_size, yields, Item, turn}

module _ {ℓ} {E : Type ℓ} where
  -- The queue after a run of events.
  unfoldable pub offer_all : List E → List E → List E
  unfolding offer
  offer_all queue [] = queue
  offer_all queue (e ∷ es) = offer_all (offer queue e) es

  -- The last events, as many as the queue holds.
  unfoldable pub newest : List E → List E
  newest es = drop (length es - queue_size) es

  drop-append_le : (n : ℕ) (xs ys : List E) → n ≤ length xs → drop n (xs ++ ys) ≡ drop n xs ++ ys
  drop-append_le zero xs ys h = refl
  drop-append_le (suc n) [] ys h = absurd (omega arith)
  drop-append_le (suc n) (x ∷ xs) ys h = drop-append_le n xs ys (omega arith)

  drop-drop : (n : ℕ) (xs : List E) → drop 1 (drop n xs) ≡ drop (suc n) xs
  drop-drop zero [] = refl
  drop-drop zero (x ∷ xs) = refl
  drop-drop (suc n) [] = refl
  drop-drop (suc n) (x ∷ xs) = drop-drop n xs

  length-newest : (seen : List E) → length (newest seen) ≡ min (length seen) queue_size
  unfolding newest
  length-newest seen = omega (arith, length-drop (length seen - 64) seen)

  -- An event for a full queue, and for one that is not full.
  offer_full :
      (seen : List E) (e : E)
      → 64 ≤ length seen
      → drop 1 (newest seen) ++ e ∷ [] ≡ newest (seen ++ e ∷ [])
  unfolding newest
  offer_full seen e full =
      let cut : suc (length seen - 64) ≡ length (seen ++ e ∷ []) - 64 =
        omega (arith, length-append seen (e ∷ [])) in
      ap (λ xs. xs ++ e ∷ []) (drop-drop (length seen - 64) seen)
      ∙ sym (drop-append_le (suc (length seen - 64)) seen (e ∷ []) (omega arith))
      ∙ ap (λ n. drop n (seen ++ e ∷ [])) cut

  offer_roomy :
      (seen : List E) (e : E) → length seen < 64 → newest seen ++ e ∷ [] ≡ newest (seen ++ e ∷ [])
  unfolding newest
  offer_roomy seen e roomy =
      sym (drop-append_le (length seen - 64) seen (e ∷ []) (omega arith))
      ∙ ap (λ n. drop n (seen ++ e ∷ [])) (omega (arith, length-append seen (e ∷ [])))

  offer-newest : (seen : List E) (e : E) → offer (newest seen) e ≡ newest (seen ++ e ∷ [])
  unfolding offer
  offer-newest seen e = elim (Bool-cases (leb 64 (length (newest seen)))) [
    | inl full ↦
        ap (λ b. (if b then drop 1 (newest seen) else newest seen) ++ e ∷ []) full
        ∙ offer_full seen e (ground (arith, length-newest seen))
    | inr roomy ↦
        ap (λ b. (if b then drop 1 (newest seen) else newest seen) ++ e ∷ []) roomy
        ∙ offer_roomy seen e (ground (arith, length-newest seen))
  ]

  offer_all-seen : (seen es : List E) → offer_all (newest seen) es ≡ newest (seen ++ es)
  unfolding offer_all
  offer_all-seen seen [] = ap newest (sym (append-nil seen))
  offer_all-seen seen (e ∷ es) =
      ap (λ q. offer_all q es) (offer-newest seen e)
      ∙ offer_all-seen (seen ++ e ∷ []) es
      ∙ ap newest (append_assoc seen (e ∷ []) es)

  -- After any run of events the queue of an event stream, empty at first, holds the last 64 of
  -- them in their order.
  pub offer_all-newest : (es : List E) → offer_all [] es ≡ newest es
  unfolding offer_all newest
  offer_all-newest es = offer_all-seen [] es

module _ {ℓ} {E : Type ℓ} (p : Primitives) (credential : String) where
  pub turn-authenticated :
      (wall later now : ℕ) (disconnected : Bool) (arrives : Option E) (queue rest : List E)
      (item : Item E) (r : SessionRegistry)
      → (turn p credential wall later now disconnected arrives queue r).0 ≡ yields item rest
      → (session : ClientSession) × ((authenticate p wall credential r).0 ≡ ok session)
        × (later < session.expires_at)
        × (disconnected ≡ false)
  unfolding turn
  turn-authenticated wall later now disconnected arrives queue rest item r h =
      elim (Result-cases (authenticate p wall credential r).0) [
        | inl refused ↦ absurd (ground arith)
        | inr checked ↦ (checked.0, checked.1, ground arith, ground arith)
      ]
