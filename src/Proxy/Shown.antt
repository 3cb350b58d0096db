-- ===== src/Proxy/Shown.antt =====
-- The error that a client sees in the end.
use osante_ai_proxy.Base.{
  ℕ, ◌≡◌, refl, true, false, Option, none, some, [], ◌∷◌, ◌++◌, Text, text, Bool-cases,
  Option-cases, inl, inr, arith, is_empty, trim_space,
}
use osante_ai_proxy.Truncate.{truncate_string}
use osante_ai_proxy.Proxy.Classify.{err_type, looks_like_json}
use osante_ai_proxy.Proxy.State.{Output, proxy_error, replayed}
use osante_ai_proxy.Proxy.ErrorBody.{
  Fields, error_output, extract_message, digits, string_at, object_at, anthropic_message,
  nested_message, first_string,
}

-- What is shown for an upstream's error: an error of the proxy's own, with the upstream's status and a
-- message, or the upstream's body, if it has a message that is not blank in the Anthropic form.
pub data Shown (unmarshal : Text → Option Fields) (status : ℕ) (body : Text) (o : Output)
    : Type 0 where
  shown :
      (msg : Text)
      → is_empty msg ≡ false
      → o ≡ proxy_error status (err_type status) msg
      → Shown unmarshal status body o
  passed_on :
      (fs : Fields) (msg : Text)
      → unmarshal body ≡ some fs
      → anthropic_message fs ≡ some msg
      → is_empty (trim_space msg) ≡ false
      → o ≡ replayed status body
      → Shown unmarshal status body o

string_at-not_blank :
    (key : Text) (fs : Fields) (s : Text)
    → string_at key fs ≡ some s
    → is_empty (trim_space s) ≡ false
unfolding string_at
string_at-not_blank key fs s e = ground (arith, e)

anthropic_message-not_blank :
    (fs : Fields) (msg : Text) → anthropic_message fs ≡ some msg → is_empty (trim_space msg) ≡ false
unfolding anthropic_message
anthropic_message-not_blank fs msg e = elim (Option-cases (object_at (text "error") fs)) [
  | inl f ↦ absurd (ground (arith, e, f))
  | inr (o, f) ↦ string_at-not_blank (text "message") o msg (ground (arith, e, f))
]

record IsAnthropic (o : Option Fields) (msg : Text) : Type 0 where
  fields : Fields
  is_read : o ≡ some fields
  has_message : anthropic_message fields ≡ some msg

not_anthropic : (fs : Fields) → anthropic_message fs ≡ none → (extract_message (some fs)).1 ≡ false
unfolding extract_message
not_anthropic fs e = elim (Option-cases (nested_message fs)) [
  | inr (msg, f) ↦ rw (extract_message, e, f)
  | inl f ↦
      elim (Option-cases (
        first_string
          (text "error" ∷ text "message" ∷ text "detail" ∷ text "title" ∷ text "description" ∷ [])
          fs)) [
            | inl g ↦ rw (extract_message, e, f, g)
            | inr (msg, g) ↦ rw (extract_message, e, f, g)
          ]
]

extract-IsAnthropic :
    (o : Option Fields) → (extract_message o).1 ≡ true → IsAnthropic o (extract_message o).0
unfolding extract_message
extract-IsAnthropic none e = absurd (cc)
extract-IsAnthropic (some fs) e = elim (Option-cases (anthropic_message fs)) [
  | inr (msg, f) ↦ rw (extract_message, f) (record { fields = fs; is_read = refl; has_message = f })
  | inl f ↦ absurd (cc (not_anthropic fs f, e))
]

prefix_message : (rest : Text) → is_empty (text "Upstream returned HTTP " ++ rest) ≡ false
unfolding is_empty text
prefix_message rest = refl

-- The error that ends the attempts is the proxy's own, with the upstream's status and a message
-- that is not empty, or the upstream's body, which then has a message that is not blank in the
-- Anthropic form.
pub error_output-Shown :
    (unmarshal : Text → Option Fields) (status : ℕ) (body : Text)
    → Shown unmarshal status body (error_output unmarshal status body)
unfolding error_output
error_output-Shown unmarshal status body =
    let trimmed = truncate_string (trim_space body) 500 in
    let extracted = extract_message (unmarshal body) in
    elim (Bool-cases (looks_like_json body)) [
      | inr e ↦ elim (Bool-cases (is_empty trimmed)) [
        | inl t ↦
            simp (error_output, e, t)
              (shown _ (prefix_message (digits status ++ text " with empty body")) refl)
        | inr t ↦ simp (error_output, e, t) (shown trimmed t refl)
      ]
      | inl e ↦ elim (Bool-cases extracted.1) [
        | inl t ↦
            simp (error_output, e, t)
              (let h = extract-IsAnthropic (unmarshal body) t in
                passed_on h.fields extracted.0 h.is_read h.has_message
                  (anthropic_message-not_blank h.fields extracted.0 h.has_message) refl)
        | inr t ↦ elim (Bool-cases (is_empty extracted.0)) [
          | inl f ↦ simp (error_output, e, t, f) (shown _ (prefix_message (digits status)) refl)
          | inr f ↦ simp (error_output, e, t, f) (shown extracted.0 f refl)
        ]
      ]
    ]
