-- ===== src/Service/Sinks.antt =====
-- The event sinks of VirtualGateway/devcontrol_gateway/service.py, a set of callbacks: `add_sink`,
-- `remove_sink`, `broadcast`. A sink is a number; what sinks keep is a state of their own.
use dev_control_open_harmony.Prelude.{
  ℕ, ◌≡◌, refl, Bool, not, ◌&&◌, List, [], ◌∷◌, nat_eq, if◌then◌else◌, arith, any,
}

-- `sink in self._sinks`
unfoldable pub has : ℕ → List ℕ → Bool
has k sinks = any (λ j. nat_eq j k) sinks

unfoldable pub add_sink : ℕ → List ℕ → List ℕ
unfolding has
add_sink k sinks = if has k sinks then sinks else k ∷ sinks

-- `set.discard`
unfoldable pub remove_sink : ℕ → List ℕ → List ℕ
remove_sink k [] = []
remove_sink k (j ∷ sinks) = let rest = remove_sink k sinks in if nat_eq j k then rest else j ∷ rest

unfoldable pub discard_all : List ℕ → List ℕ → List ℕ
unfolding remove_sink
discard_all [] sinks = sinks
discard_all (k ∷ failed) sinks = discard_all failed (remove_sink k sinks)

-- `send k event s`: whether sink k took the event, and the sinks' states after it.
module _ {ℓ κ} {E : Type ℓ} {S : Type κ} (send : ℕ → E → S → Bool × S) where
  -- The sinks that raised, the first one first.
  unfoldable pub send_all : E → List ℕ → S → List ℕ × S
  send_all event [] s = ([], s)
  send_all event (k ∷ sinks) s =
      let (taken, s') = send k event s in
      let (failed, s'') = send_all event sinks s' in (if taken then failed else k ∷ failed, s'')

  unfoldable pub broadcast : E → List ℕ × S → List ℕ × S
  unfolding send_all discard_all
  broadcast event (sinks, s) =
      let (failed, s') = send_all event sinks s in (discard_all failed sinks, s')

  unfoldable pub broadcast_all : List E → List ℕ × S → List ℕ × S
  unfolding broadcast
  broadcast_all [] state = state
  broadcast_all (e ∷ es) state = broadcast_all es (broadcast e state)

  has-remove_sink :
      (k j : ℕ) (sinks : List ℕ) → has j (remove_sink k sinks) ≡ (has j sinks && not (nat_eq k j))
  unfolding has remove_sink
  has-remove_sink k j [] = refl
  has-remove_sink k j (i ∷ sinks) = ground (arith, has-remove_sink k j sinks)

  has-discard_all :
      (failed sinks : List ℕ) (j : ℕ)
      → has j (discard_all failed sinks) ≡ (has j sinks && not (has j failed))
  unfolding has discard_all
  has-discard_all [] sinks j = ground arith
  has-discard_all (k ∷ failed) sinks j =
      ground (arith, has-discard_all failed (remove_sink k sinks) j, has-remove_sink k j sinks)

  pub has-broadcast :
      (event : E) (sinks : List ℕ) (s : S) (j : ℕ)
      → has j (broadcast event (sinks, s)).0
        ≡ (has j sinks && not (has j (send_all event sinks s).0))
  unfolding broadcast
  has-broadcast event sinks s j = has-discard_all (send_all event sinks s).0 sinks j
