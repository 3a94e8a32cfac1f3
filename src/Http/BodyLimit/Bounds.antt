-- ===== src/Http/BodyLimit/Bounds.antt =====
-- The guard of request bodies: what it hands on, and that it comes to an end.
use mathlib.Core.List.{append_assoc, append-nil}
use dev_control_open_harmony.Prelude.{
  ℕ, ◌+◌, ◌≤◌, ◌≡◌, refl, sym, ap, ◌∙◌, String, Bool, true, false, not, ◌||◌, Option, List, [], ◌∷◌,
  ◌++◌, ltb, length, length-append, arith, Bool-cases, inl, inr,
}
use dev_control_open_harmony.Numbers.{ℤ}
use dev_control_open_harmony.Base64.{Bytes}
use dev_control_open_harmony.Http.BodyLimit.{
  Scope, Message, disconnect, request, other, Guarded, waiting, complete, join, collect, guard,
}

-- The bodies of the request messages, put together.
unfoldable pub body_of : List Message → Bytes
body_of [] = []
body_of (request chunk more ∷ rest) = chunk ++ body_of rest
body_of (disconnect ∷ rest) = body_of rest
body_of (other ∷ rest) = body_of rest

-- A message that ends the body is there.
unfoldable pub has_end : List Message → Bool
has_end [] = false
has_end (disconnect ∷ rest) = true
has_end (request chunk more ∷ rest) = not more || has_end rest
has_end (other ∷ rest) = has_end rest

unfoldable pub is_waiting : Guarded → Bool
is_waiting waiting = true
is_waiting _ = false

join-chunk :
    (chunks : List Bytes) (chunk : Bytes) → join (chunks ++ chunk ∷ []) ≡ join chunks ++ chunk
join-chunk [] chunk = append-nil chunk
join-chunk (x ∷ xs) chunk =
    ap (λ ys. x ++ ys) (join-chunk xs chunk) ∙ sym (append_assoc x (join xs) chunk)

length-join :
    (chunks : List Bytes) (chunk : Bytes)
    → length (join (chunks ++ chunk ∷ [])) ≡ length (join chunks) + length chunk
length-join chunks chunk = ap length (join-chunk chunks chunk) ∙ length-append (join chunks) chunk

-- What the guard has read when it hands a body on.
Read : ℕ → List Bytes → List Message → Bytes → List Message → Type 0
unfolding body_of
Read max_body_size chunks messages body rest =
    (taken : List Message) × (messages ≡ taken ++ rest)
    × (body ≡ join chunks ++ body_of taken)
    × (length body ≤ max_body_size)

body_part : Bytes → Guarded → Bytes
body_part d (complete body rest) = body
body_part d _ = d

rest_part : List Message → Guarded → List Message
rest_part d (complete body rest) = rest
rest_part d _ = d

collect-complete :
    (max_body_size size : ℕ) (chunks : List Bytes) (messages : List Message) (body : Bytes)
    (rest : List Message)
    → size ≡ length (join chunks)
    → collect max_body_size size chunks messages ≡ complete body rest
    → Read max_body_size chunks messages body rest
unfolding collect body_of Read body_part rest_part
collect-complete m size chunks [] body rest counted h = absurd (ground arith)
collect-complete m size chunks (disconnect ∷ later) body rest counted h = absurd (ground arith)
collect-complete m size chunks (other ∷ later) body rest counted h =
    let (taken, split, joined, small) = collect-complete m size chunks later body rest counted h in
    (other ∷ taken, ap (λ ms. other ∷ ms) split, joined, small)
collect-complete m size chunks (request chunk true ∷ later) body rest counted h =
    let (taken, split, joined, small) =
      collect-complete m (size + length chunk) (chunks ++ chunk ∷ []) later body rest
        (ground (arith, length-join chunks chunk)) (ground arith) in
    (
      request chunk true ∷ taken,
      ap (λ ms. request chunk true ∷ ms) split,
      joined
          ∙ ap (λ xs. xs ++ body_of taken) (join-chunk chunks chunk)
          ∙ append_assoc (join chunks) chunk (body_of taken),
      small,
    )
collect-complete m size chunks (request chunk false ∷ later) body rest counted h =
    let size' = size + length chunk in
    elim (Bool-cases (ltb m size')) [
      | inl over ↦ absurd (ground arith)
      | inr fits ↦
          let came : complete (join (chunks ++ chunk ∷ [])) later ≡ complete body rest =
            ground arith in
          let same : join (chunks ++ chunk ∷ []) ≡ body = ap (body_part []) came in
          (
            request chunk false ∷ [],
            ap (λ ms. request chunk false ∷ ms) (ap (rest_part []) came),
            sym same
                ∙ join-chunk chunks chunk
                ∙ ap (λ xs. join chunks ++ xs) (sym (append-nil chunk)),
            ground (arith, length-join chunks chunk, ap length same),
          )
    ]

collect-ends :
    (max_body_size size : ℕ) (chunks : List Bytes) (messages : List Message)
    → has_end messages ≡ true
    → is_waiting (collect max_body_size size chunks messages) ≡ false
unfolding collect has_end is_waiting
collect-ends m size chunks [] h = absurd (ground arith)
collect-ends m size chunks (disconnect ∷ rest) h = refl
collect-ends m size chunks (other ∷ rest) h = collect-ends m size chunks rest h
collect-ends m size chunks (request chunk more ∷ rest) h =
    ground (arith, collect-ends m (size + length chunk) (chunks ++ chunk ∷ []) rest)

-- When the guard hands a body on, the body is what the messages read so far carried, put together
-- in their order, it is no longer than the limit, and the messages that are left follow unread.
pub guard-complete :
    (int_of : String → Option ℤ) (max_body_size : ℕ) (scope : Scope) (messages : List Message)
    (body : Bytes) (rest : List Message)
    → guard int_of max_body_size scope messages ≡ complete body rest
    → (taken : List Message) × (messages ≡ taken ++ rest)
      × (body ≡ body_of taken)
      × (length body ≤ max_body_size)
unfolding guard Read
guard-complete int_of m scope messages body rest h =
    collect-complete m 0 [] messages body rest refl (ground arith)

-- If a disconnect or a last part of the body is among the messages, the guard does not go on
-- waiting.
pub guard-ends :
    (int_of : String → Option ℤ) (max_body_size : ℕ) (scope : Scope) (messages : List Message)
    → has_end messages ≡ true
    → is_waiting (guard int_of max_body_size scope messages) ≡ false
unfolding guard is_waiting
guard-ends int_of m scope messages h = ground (arith, collect-ends m 0 [] messages)
