-- ===== src/Storage/History.antt =====
-- The environment history, its pruning, and the registration proofs that were used.
use dev_control_open_harmony.Prelude.{
  ℕ, ◌≤◌, String, true, false, ◌≡◌, refl, arith, List, [], ◌∷◌, leb, filter, take, eq_iff, is_some,
  some, ap,
}
use dev_control_open_harmony.Dict.{Dict, get, put}
use dev_control_open_harmony.Dict.Laws.{get-put}
use dev_control_open_harmony.Storage.{
  EnvironmentRow, GatewayStorage, in_window, order_by_time, effective_limit,
  get_environment_history, prune_environment_history, unexpired, registration_proof_is_consumed,
  consume_registration_proof,
}

filter-in_window :
    (id : String) (from_ms to_ms before_ms : ℕ) (rows : List EnvironmentRow)
    → before_ms ≤ from_ms
    → filter (in_window id from_ms to_ms) (filter (λ row. leb before_ms row.timestamp_ms) rows)
      ≡ filter (in_window id from_ms to_ms) rows
filter-in_window id from_ms to_ms before_ms [] h = refl
filter-in_window id from_ms to_ms before_ms (row ∷ rows) h =
    ground (arith, filter-in_window id from_ms to_ms before_ms rows h)

-- Pruning the environment history changes no answer about a window that starts at the cut or
-- later.
pub prune-get_history :
    (id : String) (from_ms to_ms limit before_ms : ℕ) (s : GatewayStorage)
    → before_ms ≤ from_ms
    → get_environment_history id from_ms to_ms limit (prune_environment_history before_ms s)
      ≡ get_environment_history id from_ms to_ms limit s
unfolding get_environment_history prune_environment_history
prune-get_history id from_ms to_ms limit before_ms s h =
    ap (λ rows. take (effective_limit 50000 limit) (order_by_time rows))
      (filter-in_window id from_ms to_ms before_ms s.environment_history h)

unexpired-get :
    (jti : String) (expires now : ℕ) (d : Dict ℕ)
    → get jti d ≡ some expires
    → now ≤ expires
    → is_some (get jti (unexpired now d)) ≡ true
unfolding get
unexpired-get jti expires now [] h k = ground arith
unexpired-get jti expires now ((j, e) ∷ d) h k = ground (arith, unexpired-get jti expires now d)

-- After a registration proof was consumed as new, a second attempt is told no and changes nothing,
-- and until the proof expires it counts as consumed.
pub consume_once :
    (jti : String) (expires expires' now : ℕ) (s : GatewayStorage)
    → (consume_registration_proof jti expires s).0 ≡ true
    → now ≤ expires
    → let s' = (consume_registration_proof jti expires s).1 in
      (consume_registration_proof jti expires' s' ≡ (false, s'))
      × ((registration_proof_is_consumed jti now s').0 ≡ true)
unfolding consume_registration_proof registration_proof_is_consumed
consume_once jti expires expires' now s h k =
    let stored : get jti (put jti expires s.consumed_registration_proofs) ≡ some expires =
      ground (arith, get-put jti jti expires s.consumed_registration_proofs, eq_iff jti jti) in
    ground (
      arith,
      stored,
      unexpired-get jti expires now (put jti expires s.consumed_registration_proofs) stored k,
    )
