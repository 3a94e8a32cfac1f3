-- ===== src/Http/BodyLimit.antt =====
-- The two middlewares of VirtualGateway/devcontrol_gateway/app.py: `RequestBodyLimitMiddleware`, which
-- reads a request's body before the application does, and `TransportSecurityHeadersMiddleware`.
pub mod Bounds
use text.Mathlib.Text.{starts_with}
use dev_control_open_harmony.Prelude.{
  ℕ, ◌+◌, String, Bool, true, false, not, ◌&&◌, ◌||◌, Option, none, some, List, [], ◌∷◌, ◌++◌, ◌==◌,
  ltb, leb, nat_eq, length, if◌then◌else◌, map, contains,
}
use dev_control_open_harmony.Numbers.{ℤ, pos, int_lt}
use dev_control_open_harmony.Ascii.{codes}
use dev_control_open_harmony.Base64.{Bytes}
use dev_control_open_harmony.Dict.{Dict, put}

-- An ASGI scope and the messages of its `receive`.
pub record Scope : Type 0 where
  pub kind : String
  pub path : String
  pub method : String
  pub headers : List (String × String)

pub data Message : Type 0 where
  disconnect : Message
  request : (body : Bytes) (more_body : Bool) → Message
  other : Message

-- What becomes of a request: the application reads the messages itself; it is answered with 413; it
-- is dropped; the application gets the body as one message, then the messages that are left; or the
-- guard waits for a message that does not come.
pub data Guarded : Type 0 where
  passed_on : List Message → Guarded
  too_large dropped waiting : Guarded
  complete : Bytes → List Message → Guarded

abbrev lower : ℕ → ℕ
lower c = if leb b'A' c && leb c b'Z' then c + 32 else c

abbrev same_codes : List ℕ → List ℕ → Bool
same_codes [] [] = true
same_codes (c ∷ cs) (d ∷ ds) = nat_eq c d && same_codes cs ds
same_codes _ _ = false

-- The first `content-length` header.
unfoldable pub content_length : List (String × String) → Option String
content_length [] = none
content_length ((name, value) ∷ rest) =
    if same_codes (map lower (codes name)) (codes "content-length")
    then some value
    else content_length rest

abbrev pub join : List Bytes → Bytes
join [] = []
join (chunk ∷ chunks) = chunk ++ join chunks

-- The loop that reads the body; `received_size` is the size of the chunks so far.
unfoldable pub collect : ℕ → ℕ → List Bytes → List Message → Guarded
collect max_body_size received_size chunks [] = waiting
collect max_body_size received_size chunks (disconnect ∷ rest) = dropped
collect max_body_size received_size chunks (other ∷ rest) =
    collect max_body_size received_size chunks rest
collect max_body_size received_size chunks (request chunk more_body ∷ rest) =
    let size = received_size + length chunk in
    let later = collect max_body_size size (chunks ++ chunk ∷ []) rest in
    if ltb max_body_size size
    then too_large
    else if more_body
    then later
    else complete (join (chunks ++ chunk ∷ [])) rest

-- `scope["type"] != "http" or ...`, negated
unfoldable pub is_guarded : Scope → Bool
unfolding contains
is_guarded scope =
    scope.kind == "http"
    && (starts_with scope.path "/api/" && contains ("POST" ∷ "PUT" ∷ "PATCH" ∷ []) scope.method)

-- The declared size is over the limit; `int_of` is Python's `int`.
unfoldable pub declares_too_much : (String → Option ℤ) → ℕ → Option String → Bool
declares_too_much int_of max_body_size none = false
declares_too_much int_of max_body_size (some value) = elim (int_of value) [
  | none ↦ true
  | some size ↦ int_lt (pos max_body_size) size
]

unfoldable pub guard : (String → Option ℤ) → ℕ → Scope → List Message → Guarded
unfolding is_guarded content_length declares_too_much collect
guard int_of max_body_size scope messages =
    if not (is_guarded scope)
    then passed_on messages
    else if declares_too_much int_of max_body_size (content_length scope.headers)
    then too_large
    else collect max_body_size 0 [] messages

-- `limited_receive`: the body as one message, and then the messages that are left.
unfoldable pub limited_receive : Guarded → List Message
limited_receive (complete body rest) = request body false ∷ rest
limited_receive (passed_on messages) = messages
limited_receive _ = []

-- The headers of `http.response.start` under `/api/`.
unfoldable pub with_security_headers : Scope → Dict String → Dict String
unfolding put
with_security_headers scope headers =
    if scope.kind == "http" && starts_with scope.path "/api/"
    then put "Referrer-Policy" "no-referrer" (
        put "X-Content-Type-Options" "nosniff" (
          put "Strict-Transport-Security" "max-age=31536000; includeSubDomains"
            (put "Cache-Control" "no-store" headers)))
    else headers
