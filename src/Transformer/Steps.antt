-- ===== src/Transformer/Steps.antt =====
-- Steps of a stream that the two conversions to Claude share: text with think tags, and its end.
use osante_ai_proxy.Base.{
  ◌<◌, ◌≡◌, refl, sym, ◌∙◌, ap, Bool, true, false, Option, none, some, List, [], ◌∷◌, ◌++◌,
  append-nil, Text, is_empty, arith, length, has_prefix, Bool-cases, inl, inr, if◌then◌else◌,
}
use osante_ai_proxy.Transformer.Context.{Stream, StreamContext, ClaudeEvent}
use osante_ai_proxy.Transformer.ThinkTags.{
  set_buffer, emit_text, emit_thinking, flush_think_tagged_stream, consume_think_tagged_stream,
}
use osante_ai_proxy.Transformer.OpenAiStream.{emit_text_with_close, emit_thinking_with_close}
use osante_ai_proxy.Transformer.Tagged.{mark, tagged, tag_of, has_prefix-length}
use osante_ai_proxy.Transformer.Said.{
  said, Says, emit_text-Says, emit_thinking-Says, emit_text_with_close-Says,
  emit_thinking_with_close-Says,
}
use osante_ai_proxy.Transformer.Delivered.{IsDelivered, consume_loop-IsDelivered}

-- All events of a stream, in order, by a conversion of each datum; `none` when a call fails.
unfoldable pub events_of :
    {D : Type 0}
    → (D → StreamContext → Option Stream)
    → List D
    → StreamContext
    → Option (List ClaudeEvent)
events_of convert [] ctx = some []
events_of convert (d ∷ ds) ctx = elim (convert d ctx) [
  | none ↦ none
  | some s ↦ elim (events_of convert ds s.ctx) [ none ↦ none | some es ↦ some (s.result ++ es) ]
]

abbrev pub IsShort : StreamContext → Type 0
IsShort ctx = length ctx.thinking_buffer < length (tag_of ctx.in_thinking_tag)

pub IsDelivered-quiet :
    (x : Text) (s s1 s2 : Stream) → IsDelivered x s s1 → Says [] s1 s2 → IsDelivered x s s2
IsDelivered-quiet x s s1 s2 d q = record {
  all_said = λ rest. rw (q.0, q.1, q.2, append-nil (said s1.result)) (d.all_said rest);
  short_buffer = rw (q.1, q.2) d.short_buffer;
}

pub quiet-IsDelivered :
    (x : Text) (s s1 s2 : Stream) → Says [] s s1 → IsDelivered x s1 s2 → IsDelivered x s s2
quiet-IsDelivered x s s1 s2 q d = record {
  all_said = λ rest. d.all_said rest ∙ rw (q.0, q.1, append-nil (said s.result)) refl;
  short_buffer = d.short_buffer;
}

-- A text, after what was kept back.
pub deliver_text :
    (t : Text) (s : Stream)
    → IsDelivered (s.ctx.thinking_buffer ++ t) s (
        consume_think_tagged_stream
          (s.ctx.thinking_buffer ++ t)
          emit_text_with_close
          emit_thinking_with_close
          (set_buffer [] s))
unfolding consume_think_tagged_stream set_buffer
deliver_text t s =
    let whole = s.ctx.thinking_buffer ++ t in
    let s1 = set_buffer [] s in
    let d =
      consume_loop-IsDelivered emit_text_with_close emit_thinking_with_close
        emit_text_with_close-Says emit_thinking_with_close-Says (length whole) whole s1
        (omega arith) refl in
    record { all_said = d.all_said; short_buffer = d.short_buffer }

short_tagged : (m : Bool) (b : Text) → length b < length (tag_of m) → tagged m 0 b ≡ mark m b
unfolding tagged mark has_prefix
short_tagged m [] h = refl
short_tagged m (c ∷ b) h = elim (Bool-cases (has_prefix (c ∷ b) (tag_of m))) [
  | inl hit ↦ absurd (omega (arith, has_prefix-length (c ∷ b) (tag_of m) hit, h))
  | inr miss ↦ rw miss (ap (λ r. (m, c) ∷ r) (short_tagged m b (omega (arith, h))))
]

pub nothing_said :
    (t : Text) (s s1 : Stream)
    → IsShort s.ctx
    → t ≡ []
    → Says [] s s1
    → IsDelivered (s.ctx.thinking_buffer ++ t) s s1
nothing_said t s s1 h e q =
    let kept : IsDelivered s.ctx.thinking_buffer s s = record {
      all_said = λ rest. refl;
      short_buffer = h;
    } in
    rw (e, append-nil s.ctx.thinking_buffer) (IsDelivered-quiet s.ctx.thinking_buffer s s s1 kept q)

flush_says :
    (m : Bool) (b : Text) (s : Stream)
    → said (if is_empty b then s else if m then emit_thinking b s else emit_text b s).result
      ≡ said s.result ++ mark m b
unfolding is_empty mark
flush_says m [] s = sym (append-nil (said s.result))
flush_says true (c ∷ b) s = (emit_thinking-Says (c ∷ b) s).0
flush_says false (c ∷ b) s = (emit_text-Says (c ∷ b) s).0

-- The flush says what is left in the buffer.
pub flush_delivers :
    (s : Stream)
    → IsShort s.ctx
    → said (flush_think_tagged_stream emit_text emit_thinking s).result
      ≡ said s.result ++ tagged s.ctx.in_thinking_tag 0 s.ctx.thinking_buffer
unfolding flush_think_tagged_stream
flush_delivers s h =
    flush_says s.ctx.in_thinking_tag s.ctx.thinking_buffer s
    ∙ ap (λ r. said s.result ++ r)
        (sym (short_tagged s.ctx.in_thinking_tag s.ctx.thinking_buffer h))
