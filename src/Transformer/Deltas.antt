-- ===== src/Transformer/Deltas.antt =====
-- A whole stream from OpenAI Responses to Claude, event by event to its completion.
use osante_ai_proxy.Base.{
  ◌≡◌, refl, ◌∙◌, ap, Bool, true, false, Option, none, some, List, [], ◌∷◌, ◌++◌, append_assoc,
  append-nil, Text, text, is_empty, arith, All, map, ltb, ◌||◌, ◌&&◌, not, if◌then◌else◌,
}
use osante_ai_proxy.Transformer.Context.{
  Stream, StreamContext, ClaudeEvent, new_stream_context, message_start, message_delta,
  message_stop, content_block_start, content_block_delta, content_block_stop, tool_use_block,
  input_json_delta,
}
use osante_ai_proxy.Transformer.ThinkTags.{
  send, emit_text, emit_thinking, flush_think_tagged_stream, close_text_block,
}
use osante_ai_proxy.Transformer.OpenAiStream.{close_thinking_block, end_text_block}
use osante_ai_proxy.Transformer.ResponsesStream.{
  ResponsesEvent, event_data, Response, OutputItem, created, completed, output_text_delta,
  arguments_delta, item_added, item_done, other_event, note_usage, noted, noted_with_id, on_created,
  on_text_delta, start_call, on_item_added, on_arguments, end_call, on_item_done, on_completed,
  on_event, is_function_call, responses_stream_to_claude,
}
use osante_ai_proxy.Transformer.Tagged.{tagged, tag_length}
use osante_ai_proxy.Transformer.Said.{
  said, said-append, said_by, Says, Says-nothing, before_quiet, send-Says, quiet_send, if_Says,
  close_text_block-Says, close_thinking_block-Says,
}
use osante_ai_proxy.Transformer.Quiet.{end_text_block-Says}
use osante_ai_proxy.Transformer.Delivered.{IsDelivered}
use osante_ai_proxy.Transformer.Steps.{
  events_of, IsShort, deliver_text, nothing_said, flush_delivers,
}

-- The text of an event; the completion has none.
unfoldable pub delta_of : ResponsesEvent → Text
delta_of (output_text_delta t) = t
delta_of (created r) = []
delta_of (completed r) = []
delta_of (arguments_delta t) = []
delta_of (item_added item) = []
delta_of (item_done item) = []
delta_of other_event = []

unfoldable pub is_completion : ResponsesEvent → Bool
is_completion (completed r) = true
is_completion (output_text_delta t) = false
is_completion (created r) = false
is_completion (arguments_delta t) = false
is_completion (item_added item) = false
is_completion (item_done item) = false
is_completion other_event = false

unfoldable pub deltas : List ResponsesEvent → Text
unfolding delta_of
deltas [] = []
deltas (e ∷ es) = delta_of e ++ deltas es

on_created-Says : (r : Option Response) (s : Stream) → Says [] s (on_created r s)
unfolding on_created noted_with_id note_usage said_by
on_created-Says none s =
    send-Says
      (message_start s.ctx.message_id s.ctx.model_name
        (record { input_tokens = s.ctx.input_tokens; output_tokens = s.ctx.output_tokens }))
      s
on_created-Says (some r) s =
    let s1 = note_usage r (record s { ctx = record s.ctx { message_id = r.response_id } }) in
    send-Says
      (message_start s1.ctx.message_id s1.ctx.model_name
        (record { input_tokens = s1.ctx.input_tokens; output_tokens = s1.ctx.output_tokens }))
      s1

start_call-Says : (item : OutputItem) (s : Stream) → Says [] s (start_call item s)
unfolding start_call said_by
start_call-Says item s =
    let s0 = close_thinking_block s in
    let s1 = close_text_block s0 in
    let id = if is_empty item.call_id then item.item_id else item.call_id in
    let start = content_block_start s1.ctx.content_index (tool_use_block id item.item_name) in
    let s2 = record s1 {
      ctx = record s1.ctx {
        tool_block_started = true;
        tool_index = s1.ctx.content_index;
        current_tool_id = id;
        current_tool_name = item.item_name;
        tool_arguments = [];
      };
    } in
    before_quiet [] s s1 (send start s2)
      (before_quiet [] s s0 s1 (close_thinking_block-Says s) (close_text_block-Says s0))
      (send-Says start s2)

on_item_added-Says : (item : Option OutputItem) (s : Stream) → Says [] s (on_item_added item s)
unfolding on_item_added
on_item_added-Says none s = Says-nothing s
on_item_added-Says (some item) s =
    if_Says (is_function_call item.item_type) [] s (start_call item s) s (start_call-Says item s)
      (Says-nothing s)

on_arguments-Says : (t : Text) (s : Stream) → Says [] s (on_arguments t s)
unfolding on_arguments said_by
on_arguments-Says t s =
    let delta = content_block_delta s.ctx.tool_index (input_json_delta t) in
    let s1 = record s { ctx = record s.ctx { tool_arguments = s.ctx.tool_arguments ++ t } } in
    if_Says s.ctx.tool_block_started [] s (send delta s1) s (send-Says delta s1) (Says-nothing s)

on_item_done-Says : (item : Option OutputItem) (s : Stream) → Says [] s (on_item_done item s)
unfolding on_item_done end_call said_by
on_item_done-Says none s = Says-nothing s
on_item_done-Says (some item) s =
    if_Says (is_function_call item.item_type && s.ctx.tool_block_started) [] s (end_call s) s
      (send-Says (content_block_stop s.ctx.tool_index) s) (Says-nothing s)

on_event-IsDelivered :
    (e : ResponsesEvent) (s : Stream)
    → IsShort s.ctx
    → is_completion e ≡ false
    → IsDelivered (s.ctx.thinking_buffer ++ delta_of e) s (on_event e s)
unfolding on_event delta_of is_completion on_text_delta
on_event-IsDelivered (output_text_delta t) s h k = deliver_text t s
on_event-IsDelivered (created r) s h k =
    nothing_said [] s (on_created r s) h refl (on_created-Says r s)
on_event-IsDelivered (completed r) s h k = absurd (cc)
on_event-IsDelivered (arguments_delta t) s h k =
    nothing_said [] s (on_arguments t s) h refl (on_arguments-Says t s)
on_event-IsDelivered (item_added item) s h k =
    nothing_said [] s (on_item_added item s) h refl (on_item_added-Says item s)
on_event-IsDelivered (item_done item) s h k =
    nothing_said [] s (on_item_done item s) h refl (on_item_done-Says item s)
on_event-IsDelivered other_event s h k = nothing_said [] s s h refl (Says-nothing s)

flush_noted :
    (response : Option Response) (s : Stream)
    → IsShort s.ctx
    → said (flush_think_tagged_stream emit_text emit_thinking (noted response s)).result
      ≡ said s.result ++ tagged s.ctx.in_thinking_tag 0 s.ctx.thinking_buffer
unfolding noted note_usage
flush_noted none s h = flush_delivers s h
flush_noted (some r) s h = flush_delivers (note_usage r s) h

-- The completion says what is left in the buffer.
on_completed_says :
    (response : Option Response) (s : Stream)
    → IsShort s.ctx
    → said (on_completed response s).result
      ≡ said s.result ++ tagged s.ctx.in_thinking_tag 0 s.ctx.thinking_buffer
unfolding on_completed said_by
on_completed_says response s h =
    let s1 = flush_think_tagged_stream emit_text emit_thinking (noted response s) in
    let s2 = close_thinking_block s1 in
    let s3 = end_text_block s2 in
    let reason =
      if ltb 0 s3.ctx.tool_index || not (is_empty s3.ctx.current_tool_id)
      then text "tool_use"
      else text "end_turn" in
    let delta = message_delta (some reason) none s3.ctx.output_tokens in
    let quiet = quiet_send message_stop s1 (send delta s3) (
      before_quiet [] s1 s3 (send delta s3)
        (before_quiet [] s1 s2 s3 (close_thinking_block-Says s1) (end_text_block-Says s2))
        (send-Says delta s3)) in
    quiet.0 ∙ append-nil (said s1.result) ∙ flush_noted response s h

deltas_say :
    (es : List ResponsesEvent) (r : Option Response) (ctx : StreamContext)
    → IsShort ctx
    → All (λ e. is_completion e ≡ false) es
    → (out : List ClaudeEvent) × (events_of responses_stream_to_claude
          (map event_data es ++ event_data (completed r) ∷ [])
          ctx
        ≡ some out)
      × (said out ≡ tagged ctx.in_thinking_tag 0 (ctx.thinking_buffer ++ deltas es))
unfolding events_of responses_stream_to_claude on_event deltas said
deltas_say [] r ctx h all =
    let s : Stream = record { ctx = ctx; result = [] } in
    (
      (on_completed r s).result,
      rw (append-nil (on_completed r s).result) refl,
      rw (append-nil ctx.thinking_buffer) (on_completed_says r s h),
    )
deltas_say (e ∷ es) r ctx h all =
    let s : Stream = record { ctx = ctx; result = [] } in
    let s1 = on_event e s in
    let d = on_event-IsDelivered e s h all.0 in
    let rest = deltas_say es r s1.ctx d.short_buffer all.1 in
    (
      s1.result ++ rest.0,
      rw (rest.1) refl,
      said-append s1.result rest.0
          ∙ ap (λ x. said s1.result ++ x) rest.2
          ∙ d.all_said (deltas es)
          ∙ ap (tagged ctx.in_thinking_tag 0)
              (append_assoc ctx.thinking_buffer (delta_of e) (deltas es)),
    )

-- For a stream of the Responses API, any events and then its completion, read with a new context, the
-- conversion succeeds, and its text and thinking deltas together say exactly what the text of all the
-- text deltas says when its think tags are read byte by byte, however that text is cut.
pub stream_says_deltas :
    (es : List ResponsesEvent) (r : Option Response)
    → All (λ e. is_completion e ≡ false) es
    → (out : List ClaudeEvent) × (events_of responses_stream_to_claude
          (map event_data es ++ event_data (completed r) ∷ [])
          new_stream_context
        ≡ some out)
      × (said out ≡ tagged false 0 (deltas es))
stream_says_deltas es r all =
    deltas_say es r new_stream_context (omega (arith, tag_length false)) all
