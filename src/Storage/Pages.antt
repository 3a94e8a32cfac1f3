-- ===== src/Storage/Pages.antt =====
-- Reading the audit log page by page.
use mathlib.Core.List.{append-nil}
use native.Mathlib.Decide.{dec_lt}
use native.Mathlib.Numerals.{add-one}
use dev_control_open_harmony.Prelude.{
  ℕ, suc, zero, ◌+◌, ◌<◌, ◌≤◌, ◌≡◌, refl, none, some, Option, List, [], ◌∷◌, ◌++◌, arith, length,
  take, filter, ltb, drop, take-append-drop, length-take, length-drop, take_of_length-le,
  take-take-suc, Bool-cases, inl, inr, ap, ◌∙◌, sym,
}
use dev_control_open_harmony.Storage.{
  AuditLog, GatewayStorage, LogPage, page, before, last_id, get_logs, effective_limit,
}
use dev_control_open_harmony.Storage.Rows.{Descending, LogsOrdered}

abbrev follow : (ℕ → List AuditLog) → LogPage → List AuditLog
follow rest p = p.items ++ (elim p.next_cursor [ none ↦ [] | some c ↦ rest c ])

-- A client that follows the cursors: the rows of every page, in the order in which they come.
-- The fuel bounds the number of pages.
pub read_all : ℕ → ℕ → Option ℕ → GatewayStorage → List AuditLog
read_all zero limit cursor s = []
read_all (suc fuel) limit cursor s =
    follow (λ c. read_all fuel limit (some c) s) (get_logs cursor limit s)

-- rows that all stand before the cursor
filter-before_all :
    (bound c : ℕ) (rows : List AuditLog)
    → Descending bound rows
    → bound ≤ c
    → filter (before (some c)) rows ≡ rows
filter-before_all bound c [] h k = refl
filter-before_all bound c (r ∷ rows) h k =
    ground (arith, filter-before_all r.id c rows h.1 (omega arith))

-- The last row of a page is a row of the list, hence below its bound.
last_id-lt :
    (bound n c : ℕ) (rows : List AuditLog)
    → Descending bound rows
    → last_id (take n rows) ≡ some c
    → c < bound
last_id-lt bound zero c rows h e = ground arith
last_id-lt bound (suc n) c [] h e = ground arith
last_id-lt bound (suc zero) c (r ∷ rows) h e = ground arith
last_id-lt bound (suc (suc n)) c (r ∷ []) h e = ground arith
last_id-lt bound (suc (suc n)) c (r ∷ r' ∷ rows) h e =
    omega (arith, last_id-lt r.id (suc n) c (r' ∷ rows) h.1 e)

-- What stands before the last row of a page is what the page left over.
filter-last_id :
    (bound n c : ℕ) (rows : List AuditLog)
    → Descending bound rows
    → last_id (take n rows) ≡ some c
    → filter (before (some c)) rows ≡ drop n rows
filter-last_id bound zero c rows h e = ground arith
filter-last_id bound (suc n) c [] h e = ground arith
filter-last_id bound (suc zero) c (r ∷ rows) h e =
    ground (arith, filter-before_all r.id c rows h.1 (ground arith))
filter-last_id bound (suc (suc n)) c (r ∷ []) h e = ground arith
filter-last_id bound (suc (suc n)) c (r ∷ r' ∷ rows) h e = ground (
  arith,
  last_id-lt r.id (suc n) c (r' ∷ rows) h.1 e,
  filter-last_id r.id (suc n) c (r' ∷ rows) h.1 e,
)

last_id-some :
    (n : ℕ) (rows : List AuditLog)
    → n < length rows
    → 0 < n
    → (c : ℕ) × (last_id (take n rows) ≡ some c)
last_id-some zero rows h p = absurd (omega arith)
last_id-some (suc zero) (r ∷ rows) h p = (r.id, refl)
last_id-some (suc (suc n)) (r ∷ []) h p = absurd (omega arith)
last_id-some (suc (suc n)) (r ∷ r' ∷ rows) h p =
    last_id-some (suc n) (r' ∷ rows) (omega arith) (omega arith)
last_id-some (suc n) [] h p = absurd (omega arith)

Descending-mono : (b c : ℕ) (rows : List AuditLog) → b ≤ c → Descending b rows → Descending c rows
Descending-mono b c [] k h = tt
Descending-mono b c (r ∷ rows) k h = (omega arith, h.1)

filter-Descending :
    (cursor : Option ℕ) (b : ℕ) (rows : List AuditLog)
    → Descending b rows
    → Descending b (filter (before cursor) rows)
filter-Descending cursor b [] h = tt
filter-Descending cursor b (r ∷ rows) h = elim (Bool-cases (before cursor r)) [
  | inl e ↦ rw e (h.0, filter-Descending cursor r.id rows h.1)
  | inr e ↦ rw e (Descending-mono r.id b _ (omega arith) (filter-Descending cursor r.id rows h.1))
]

-- what stands before a cursor is below it
filter-Descending_cursor :
    (c b : ℕ) (rows : List AuditLog)
    → Descending b rows
    → Descending c (filter (before (some c)) rows)
filter-Descending_cursor c b [] h = tt
filter-Descending_cursor c b (r ∷ rows) h = elim (Bool-cases (ltb r.id c)) [
  | inl e ↦ rw e (ground arith, filter-Descending (some c) r.id rows h.1)
  | inr e ↦ rw e (filter-Descending_cursor c r.id rows h.1)
]

filter-filter-before :
    (cursor c : ℕ) (rows : List AuditLog)
    → c < cursor
    → filter (before (some c)) (filter (before (some cursor)) rows) ≡ filter (before (some c)) rows
filter-filter-before cursor c [] k = refl
filter-filter-before cursor c (r ∷ rows) k = ground (arith, filter-filter-before cursor c rows k)

filter-before-none : (rows : List AuditLog) → filter (before none) rows ≡ rows
filter-before-none [] = refl
filter-before-none (r ∷ rows) = ap (◌∷◌ r) (filter-before-none rows)

-- The rows after a page are those that its cursor asks for.
next_rows :
    (cursor : Option ℕ) (n c b : ℕ) (rows : List AuditLog)
    → Descending b rows
    → last_id (take n (filter (before cursor) rows)) ≡ some c
    → filter (before (some c)) rows ≡ drop n (filter (before cursor) rows)
next_rows none n c b rows h e =
    filter-last_id b n c rows h (rw (filter-before-none rows) at e)
    ∙ ap (drop n) (sym (filter-before-none rows))
next_rows (some cursor) n c b rows h e =
    let below = filter-Descending_cursor cursor b rows h in
    sym (filter-filter-before cursor c rows (last_id-lt cursor n c _ below e))
    ∙ filter-last_id cursor n c _ below e

effective_limit_pos : (limit : ℕ) → 0 < effective_limit 100 limit
effective_limit_pos limit = omega arith

page-last :
    (n : ℕ) (rows : List AuditLog)
    → length rows ≤ n
    → page n (take (n + 1) rows) ≡ record { items = rows; next_cursor = none }
page-last n rows h =
    rw (take_of_length-le (n + 1) rows (omega arith)) (ground (arith, take_of_length-le n rows h))

page-more :
    (n : ℕ) (rows : List AuditLog)
    → n < length rows
    → page n (take (n + 1) rows)
      ≡ record { items = take n rows; next_cursor = last_id (take n rows) }
page-more n rows h = rw (add-one, take-take-suc) (ground (arith, length-take (suc n) rows h))

module _ (limit : ℕ) (s : GatewayStorage) (v : LogsOrdered s) where
  abbrev per_page : ℕ
  per_page = effective_limit 100 limit

  abbrev rows_at : Option ℕ → List AuditLog
  rows_at cursor = filter (before cursor) s.audit_logs

  read_all-more :
      (fuel c : ℕ) (cursor : Option ℕ)
      → per_page < length (rows_at cursor)
      → last_id (take per_page (rows_at cursor)) ≡ some c
      → read_all (suc fuel) limit cursor s
        ≡ take per_page (rows_at cursor) ++ read_all fuel limit (some c) s
  unfolding read_all get_logs
  read_all-more fuel c cursor more last =
      ap (follow (λ c. read_all fuel limit (some c) s)) (page-more per_page (rows_at cursor) more)
      ∙ rw last

  read_all-last :
      (fuel : ℕ) (cursor : Option ℕ)
      → length (rows_at cursor) ≤ per_page
      → read_all (suc fuel) limit cursor s ≡ rows_at cursor
  unfolding read_all get_logs
  read_all-last fuel cursor short =
      ap (follow (λ c. read_all fuel limit (some c) s)) (page-last per_page (rows_at cursor) short)
      ∙ append-nil _

  read_all-rows :
      (fuel : ℕ) (cursor : Option ℕ)
      → length (rows_at cursor) < fuel
      → read_all fuel limit cursor s ≡ rows_at cursor
  read_all-rows zero cursor h = absurd (omega arith)
  read_all-rows (suc fuel) cursor h = elim (dec_lt per_page (length (rows_at cursor))) [
    | no short ↦ read_all-last fuel cursor (omega arith)
    | yes more ↦
        let (c, last) = last_id-some per_page (rows_at cursor) more (effective_limit_pos limit) in
        let rest = next_rows cursor per_page c _ s.audit_logs v.descending last in
        rw (read_all-more fuel c cursor more last) (
          rw
            (
              read_all-rows fuel (some c) (
                  rw rest (
                    omega
                      (arith, length-drop per_page (rows_at cursor), effective_limit_pos limit))),
              rest,
            )
            (take-append-drop per_page (rows_at cursor)))
  ]

  -- Following the cursors of get_logs from the first page on, with fuel for more pages than there
  -- are rows, reads every row of an ordered audit log exactly once, newest first, for every page
  -- size.
  pub read_all_complete :
      (fuel : ℕ) → length s.audit_logs < fuel → read_all fuel limit none s ≡ s.audit_logs
  read_all_complete fuel h =
      let all_rows = filter-before-none s.audit_logs in
      read_all-rows fuel none (rw all_rows h) ∙ all_rows
