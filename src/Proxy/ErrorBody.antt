-- ===== src/Proxy/ErrorBody.antt =====
-- internal/proxy/proxy_request.go: the error that a client sees for an upstream's error body.
use osante_ai_proxy.Base.{
  ℕ, ◌+◌, ◌%◌, ◌/◌, Bool, true, false, Option, none, some, List, [], ◌∷◌, ◌++◌, Text, text, same,
  trim_space, is_empty, if◌then◌else◌, not, text_eq, ltb,
}
use osante_ai_proxy.Truncate.{truncate_string}
use osante_ai_proxy.Proxy.Classify.{looks_like_json, err_type}
use osante_ai_proxy.Proxy.State.{Output, proxy_error, replayed}

-- What `json.Unmarshal` gives into an `interface{}`. Of the values that are neither a string nor an
-- object nothing is read here.
mutual
  pub data Json : Type 0 where
    string : Text → Json
    object : Fields → Json
    other : Json

  pub data Fields : Type 0 where
    no_fields : Fields
    field : Text → Json → Fields → Fields

unfoldable pub value_at : Text → Fields → Option Json
value_at key no_fields = none
value_at key (field k v fs) = let rest = value_at key fs in if same k key then some v else rest

-- A string that is not blank, at a key.
unfoldable pub string_at : Text → Fields → Option Text
string_at key fs = elim (value_at key fs) [
  | none ↦ none
  | some (string s) ↦ if is_empty (trim_space s) then none else some s
  | some (object o) ↦ none
  | some other ↦ none
]

unfoldable pub object_at : Text → Fields → Option Fields
object_at key fs = elim (value_at key fs) [
  | none ↦ none
  | some (string s) ↦ none
  | some (object o) ↦ some o
  | some other ↦ none
]

unfoldable pub first_string : List Text → Fields → Option Text
first_string [] fs = none
first_string (key ∷ keys) fs = elim (string_at key fs) [
  | none ↦ first_string keys fs
  | some s ↦ some s
]

unfoldable pub is_error_type : Fields → Bool
is_error_type fs = elim (value_at (text "type") fs) [
  | none ↦ false
  | some (string s) ↦ same s (text "error")
  | some (object o) ↦ false
  | some other ↦ false
]

-- The message in a nested `error` object.
unfoldable pub nested_message : Fields → Option Text
nested_message fs = elim (object_at (text "error") fs) [
  | none ↦ none
  | some o ↦ first_string (text "message" ∷ text "detail" ∷ []) o
]

unfoldable pub anthropic_message : Fields → Option Text
anthropic_message fs =
    if is_error_type fs
    then elim (object_at (text "error") fs) [ none ↦ none | some o ↦ string_at (text "message") o ]
    else none

-- `extractUpstreamErrorMessage`, on the fields of the body.
unfoldable pub extract_message : Option Fields → Text × Bool
extract_message none = ([], false)
extract_message (some fs) = elim (anthropic_message fs) [
  | some msg ↦ (msg, true)
  | none ↦ elim (nested_message fs) [
    | some msg ↦ (msg, false)
    | none ↦
        elim (first_string
          (text "error" ∷ text "message" ∷ text "detail" ∷ text "title" ∷ text "description" ∷ [])
          fs) [ none ↦ ([], false) | some msg ↦ (msg, false) ]
  ]
]

-- `%d`: three digits are enough for a status.
unfoldable pub digits : ℕ → Text
digits n =
    if ltb n 10
    then (b'0' + n) ∷ []
    else if ltb n 100
    then (b'0' + n / 10) ∷ (b'0' + n % 10) ∷ []
    else (b'0' + n / 100 % 10) ∷ (b'0' + n / 10 % 10) ∷ (b'0' + n % 10) ∷ []

-- The error that `writeLastUpstreamError` writes.
unfoldable pub error_output : (Text → Option Fields) → ℕ → Text → Output
error_output unmarshal status body =
    let shown = truncate_string (trim_space body) 500 in
    let (msg, is_anthropic) = extract_message (unmarshal body) in
    if not (looks_like_json body)
    then if is_empty shown
      then proxy_error status (err_type status)
          (text "Upstream returned HTTP " ++ (digits status ++ text " with empty body"))
      else proxy_error status (err_type status) shown
    else if is_anthropic
    then replayed status body
    else if is_empty msg
    then proxy_error status (err_type status) (text "Upstream returned HTTP " ++ digits status)
    else proxy_error status (err_type status) msg
