-- ===== src/Transformer/Chunks.antt =====
-- A whole stream from OpenAI Chat to Claude, chunk by chunk to the marker of the end.
use osante_ai_proxy.Base.{
  ◌≡◌, refl, ◌∙◌, ap, subst, true, false, Option, none, some, List, [], ◌∷◌, ◌++◌, append_assoc,
  append-nil, Text, text, is_empty, arith, &&_true, All, map, Bool-cases, inl, inr, if◌then◌else◌,
}
use osante_ai_proxy.Transformer.Context.{
  Stream, StreamContext, ClaudeEvent, Choice, OpenAiStreamChunk, new_stream_context, message_delta,
  message_stop, Usage,
}
use osante_ai_proxy.Transformer.ThinkTags.{
  send, emit_text, emit_thinking, flush_think_tagged_stream,
}
use osante_ai_proxy.Transformer.OpenAiStream.{
  chunk_data, done_marker, open_ai_stream_to_claude, on_content, on_chunk, on_choice, on_reasoning,
  on_done, begin_message, bare, send_usage, on_tool_calls, on_finish, end_blocks,
}
use osante_ai_proxy.Transformer.Tagged.{tagged, tag_length}
use osante_ai_proxy.Transformer.Said.{
  said, said-append, said_by, Says, Says-nothing, before_quiet, send-Says, quiet_send, if_Says,
}
use osante_ai_proxy.Transformer.Quiet.{
  begin_message-Says, send_usage-Says, on_tool_calls-Says, on_finish-Says, end_blocks-Says,
}
use osante_ai_proxy.Transformer.Delivered.{IsDelivered}
use osante_ai_proxy.Transformer.Steps.{
  events_of, IsShort, IsDelivered-quiet, quiet-IsDelivered, deliver_text, nothing_said,
  flush_delivers,
}

-- The text of a chunk, that of its first choice.
unfoldable pub content_of : OpenAiStreamChunk → Text
content_of chunk = elim chunk.choices [ [] ↦ [] | c ∷ _ ↦ c.content ]

unfoldable pub reasoning_of : OpenAiStreamChunk → Text
reasoning_of chunk = elim chunk.choices [ [] ↦ [] | c ∷ _ ↦ c.reasoning_content ]

unfoldable pub contents : List OpenAiStreamChunk → Text
unfolding content_of
contents [] = []
contents (chunk ∷ chunks) = content_of chunk ++ contents chunks

on_content-IsDelivered :
    (t : Text) (s : Stream)
    → IsShort s.ctx
    → IsDelivered (s.ctx.thinking_buffer ++ t) s (on_content t s)
unfolding on_content
on_content-IsDelivered [] s h = record {
  all_said = λ rest. rw (append-nil s.ctx.thinking_buffer) refl;
  short_buffer = h;
}
on_content-IsDelivered (c ∷ r) s h = deliver_text (c ∷ r) s

-- A chunk without reasoning of its own.
on_choice-IsDelivered :
    (c : Choice) (s : Stream)
    → IsShort s.ctx
    → c.reasoning_content ≡ []
    → IsDelivered (s.ctx.thinking_buffer ++ c.content) s (on_choice c s)
unfolding on_choice on_reasoning
on_choice-IsDelivered c s h e =
    let whole = s.ctx.thinking_buffer ++ c.content in
    let s1 = on_content c.content s in
    let s2 = on_tool_calls c.tool_calls s1 in
    simp e (
      IsDelivered-quiet whole s s1 (on_finish c.finish_reason s2)
        (on_content-IsDelivered c.content s h)
        (before_quiet [] s1 s2 (on_finish c.finish_reason s2) (on_tool_calls-Says c.tool_calls s1)
          (on_finish-Says c.finish_reason s2)))

is_empty_nil : (t : Text) → is_empty t ≡ true → t ≡ []
unfolding is_empty
is_empty_nil [] h = refl
is_empty_nil (c ∷ t) h = absurd (cc)

bare_content : (c : Choice) → bare c ≡ true → c.content ≡ []
unfolding bare
bare_content c h =
    is_empty_nil c.content (&&_true (is_empty c.content) _ (&&_true (is_empty c.role) _ h).1).0

-- A choice after the start of the message.
started_choice-IsDelivered :
    (c : Choice) (s s1 : Stream)
    → IsShort s.ctx
    → c.reasoning_content ≡ []
    → Says [] s s1
    → IsDelivered (s.ctx.thinking_buffer ++ c.content) s (on_choice c s1)
started_choice-IsDelivered c s s1 h e q =
    let short1 : IsShort s1.ctx = rw (q.1, q.2) h in
    quiet-IsDelivered (s.ctx.thinking_buffer ++ c.content) s s1 (on_choice c s1) q (
      subst (λ r. IsDelivered (r ++ c.content) s1 (on_choice c s1)) q.2
        (on_choice-IsDelivered c s1 short1 e))

usage_only :
    (u : Usage) (t : Text) (s s1 : Stream)
    → IsShort s.ctx
    → t ≡ []
    → Says [] s s1
    → IsDelivered (s.ctx.thinking_buffer ++ t) s (send_usage u s1)
usage_only u t s s1 h e q =
    nothing_said t s (send_usage u s1) h e
      (before_quiet [] s s1 (send_usage u s1) q (send_usage-Says u s1))

chunk-IsDelivered :
    (id : Text) (cs : List Choice) (usage : Option Usage) (s : Stream)
    → IsShort s.ctx
    → reasoning_of (record { chunk_id = id; choices = cs; usage = usage }) ≡ []
    → IsDelivered
        (s.ctx.thinking_buffer
          ++ content_of (record { chunk_id = id; choices = cs; usage = usage }))
        s
        (on_chunk (record { chunk_id = id; choices = cs; usage = usage }) s)
unfolding on_chunk content_of reasoning_of
chunk-IsDelivered id [] none s h e =
    nothing_said [] s (begin_message id s) h refl (begin_message-Says id s)
chunk-IsDelivered id [] (some u) s h e =
    usage_only u [] s (begin_message id s) h refl (begin_message-Says id s)
chunk-IsDelivered id (c ∷ cs) none s h e =
    started_choice-IsDelivered c s (begin_message id s) h e (begin_message-Says id s)
chunk-IsDelivered id (c ∷ cs) (some u) s h e =
    let s1 = begin_message id s in
    elim (Bool-cases (bare c)) [
      | inl plain ↦
          rw plain (usage_only u c.content s s1 h (bare_content c plain) (begin_message-Says id s))
      | inr choice ↦ rw choice (started_choice-IsDelivered c s s1 h e (begin_message-Says id s))
    ]

-- The end says what is left in the buffer.
on_done_says :
    (s : Stream)
    → IsShort s.ctx
    → said (on_done s).result
      ≡ said s.result ++ tagged s.ctx.in_thinking_tag 0 s.ctx.thinking_buffer
unfolding on_done said_by
on_done_says s h =
    let s1 = flush_think_tagged_stream emit_text emit_thinking s in
    let s2 = end_blocks s1 in
    let stop_delta = message_delta (some (text "end_turn")) none 0 in
    let s3 = if s2.ctx.finish_reason_sent then s2 else send stop_delta s2 in
    let last : Says [] s2 s3 =
      if_Says s2.ctx.finish_reason_sent [] s2 s2 (send stop_delta s2) (Says-nothing s2)
        (send-Says stop_delta s2) in
    let quiet =
      quiet_send message_stop s1 s3 (before_quiet [] s1 s2 s3 (end_blocks-Says s1) last) in
    quiet.0 ∙ append-nil (said s1.result) ∙ flush_delivers s h

-- The events from a context on say what is still buffered and the contents that follow.
events_say :
    (chunks : List OpenAiStreamChunk) (ctx : StreamContext)
    → IsShort ctx
    → All (λ chunk. reasoning_of chunk ≡ []) chunks
    → (es : List ClaudeEvent) × (events_of open_ai_stream_to_claude
          (map chunk_data chunks ++ done_marker ∷ [])
          ctx
        ≡ some es)
      × (said es ≡ tagged ctx.in_thinking_tag 0 (ctx.thinking_buffer ++ contents chunks))
unfolding events_of open_ai_stream_to_claude contents said
events_say [] ctx h all =
    let s : Stream = record { ctx = ctx; result = [] } in
    (
      (on_done s).result,
      rw (append-nil (on_done s).result) refl,
      rw (append-nil ctx.thinking_buffer) (on_done_says s h),
    )
events_say (chunk ∷ chunks) ctx h all =
    let s : Stream = record { ctx = ctx; result = [] } in
    let s1 = on_chunk chunk s in
    let d = chunk-IsDelivered chunk.chunk_id chunk.choices chunk.usage s h all.0 in
    let rest = events_say chunks s1.ctx d.short_buffer all.1 in
    (
      s1.result ++ rest.0,
      rw (rest.1) refl,
      said-append s1.result rest.0
          ∙ ap (λ r. said s1.result ++ r) rest.2
          ∙ d.all_said (contents chunks)
          ∙ ap (tagged ctx.in_thinking_tag 0)
              (append_assoc ctx.thinking_buffer (content_of chunk) (contents chunks)),
    )

-- For a stream of chunks without reasoning content, closed by the end marker and read with a new context,
-- the conversion succeeds, and its text and thinking deltas together say exactly what the whole text
-- says when its think tags are read byte by byte: however the upstream cuts the text into chunks, also
-- in the middle of a tag, no byte is lost, doubled, moved or said in the wrong mode.
pub stream_says_contents :
    (chunks : List OpenAiStreamChunk)
    → All (λ chunk. reasoning_of chunk ≡ []) chunks
    → (es : List ClaudeEvent) × (events_of open_ai_stream_to_claude
          (map chunk_data chunks ++ done_marker ∷ [])
          new_stream_context
        ≡ some es)
      × (said es ≡ tagged false 0 (contents chunks))
stream_says_contents chunks all =
    events_say chunks new_stream_context (omega (arith, tag_length false)) all
