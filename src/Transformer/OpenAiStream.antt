-- ===== src/Transformer/OpenAiStream.antt =====
-- OpenAIStreamToClaude (internal/transformer/convert/claude_openai.go): one event of an OpenAI Chat
-- stream becomes the events of a Claude stream. What encoding/json reads from the event's data is the
-- argument; a failure of the function is `none`.
use osante_ai_proxy.Base.{
  ◌+◌, Bool, true, false, Option, none, some, List, [], ◌∷◌, ◌++◌, ◌&&◌, not, Text, text, is_empty,
  same, if◌then◌else◌,
}
use osante_ai_proxy.Transformer.Context.{
  Stream, StreamContext, Choice, ToolCall, Usage, no_usage, OpenAiStreamChunk, message_start,
  message_delta, message_stop, content_block_start, content_block_delta, content_block_stop,
  tool_use_block, thinking_delta, input_json_delta,
}
use osante_ai_proxy.Transformer.ThinkTags.{
  send, set_buffer, consume_think_tagged_stream, flush_think_tagged_stream, emit_text,
  emit_thinking, open_thinking_block, close_text_block,
}

-- The data of a server-sent event: none, the marker of the end, not valid JSON, or a chunk.
pub data StreamData : Type 0 where
  no_data done_marker not_json : StreamData
  chunk_data : OpenAiStreamChunk → StreamData

unfoldable pub close_thinking_block : Stream → Stream
unfolding send
close_thinking_block s =
    if s.ctx.thinking_block_started
    then (let s1 = send (content_block_stop s.ctx.thinking_index) s in
        record s1 { ctx = record s1.ctx { thinking_block_started = false } })
    else s

-- Closes the text block at the end of a message, which leaves the index as it is.
unfoldable pub end_text_block : Stream → Stream
unfolding send
end_text_block s =
    if s.ctx.content_block_started
    then (let s1 = send (content_block_stop s.ctx.content_index) s in
        record s1 { ctx = record s1.ctx { content_block_started = false } })
    else s

unfoldable pub end_tool_block : Stream → Stream
unfolding send
end_tool_block s =
    if s.ctx.tool_block_started
    then (let s1 = send (content_block_stop s.ctx.tool_index) s in
        record s1 { ctx = record s1.ctx { tool_block_started = false } })
    else s

-- The three closings that the marker of the end and a finish reason share.
unfoldable pub end_blocks : Stream → Stream
unfolding close_thinking_block end_text_block end_tool_block
end_blocks s = end_tool_block (end_text_block (close_thinking_block s))

-- The branch of the marker of the end.
unfoldable pub on_done : Stream → Stream
unfolding end_blocks send flush_think_tagged_stream emit_text emit_thinking text
on_done s =
    let s1 = end_blocks (flush_think_tagged_stream emit_text emit_thinking s) in
    send message_stop (
      if s1.ctx.finish_reason_sent
      then s1
      else send (message_delta (some (text "end_turn")) none 0) s1)

unfoldable pub begin_message : Text → Stream → Stream
unfolding send
begin_message id s =
    if s.ctx.message_start_sent
    then s
    else send (message_start id s.ctx.model_name no_usage)
        (record s { ctx = record s.ctx { message_start_sent = true; message_id = id } })

unfoldable pub send_usage : Usage → Stream → Stream
unfolding send
send_usage u s = send (message_delta none (some u.input_tokens) u.output_tokens) s

-- `delta.ReasoningContent`
unfoldable pub on_reasoning : Text → Stream → Stream
unfolding open_thinking_block send
on_reasoning [] s = s
on_reasoning (c ∷ r) s =
    let s1 = if s.ctx.thinking_block_started then s else open_thinking_block s in
    send (content_block_delta s1.ctx.thinking_index (thinking_delta (c ∷ r))) s1

-- `emitTextWithClose`
unfoldable pub emit_text_with_close : Text → Stream → Stream
unfolding emit_text send
emit_text_with_close [] s = s
emit_text_with_close (c ∷ r) s = emit_text (c ∷ r) (
    if s.ctx.thinking_block_started
      && (not s.ctx.content_block_started && not s.ctx.in_thinking_tag)
    then (let s1 = send (content_block_stop s.ctx.thinking_index) s in
        record s1 { ctx = record s1.ctx { thinking_block_started = false } })
    else s)

-- `emitThinkingWithClose`
unfoldable pub emit_thinking_with_close : Text → Stream → Stream
unfolding emit_thinking close_thinking_block
emit_thinking_with_close [] s = s
emit_thinking_with_close (c ∷ r) s = close_thinking_block (emit_thinking (c ∷ r) s)

-- `delta.Content`
unfoldable pub on_content : Text → Stream → Stream
unfolding set_buffer consume_think_tagged_stream emit_text_with_close emit_thinking_with_close
on_content [] s = s
on_content (c ∷ r) s =
    consume_think_tagged_stream (s.ctx.thinking_buffer ++ (c ∷ r)) emit_text_with_close
      emit_thinking_with_close (set_buffer [] s)

-- A tool call with an id starts a block; the previous ones are closed.
unfoldable pub start_tool_block : ToolCall → Stream → Stream
unfolding close_thinking_block close_text_block send
start_tool_block tc s =
    let s1 = close_text_block (close_thinking_block s) in
    let s2 =
      if s1.ctx.tool_block_started
      then (let closed = send (content_block_stop s1.ctx.tool_index) s1 in
          record closed {
            ctx = record closed.ctx { content_index = closed.ctx.content_index + 1 };
          })
      else s1 in
    send (content_block_start s2.ctx.content_index (tool_use_block tc.id tc.name)) (record s2 {
      ctx = record s2.ctx {
        tool_block_started = true;
        tool_index = s2.ctx.content_index;
        current_tool_id = tc.id;
        current_tool_name = tc.name;
        tool_arguments = [];
      };
    })

unfoldable pub add_arguments : Text → Stream → Stream
unfolding send
add_arguments [] s = s
add_arguments (c ∷ r) s =
    send (content_block_delta s.ctx.tool_index (input_json_delta (c ∷ r)))
      (record s { ctx = record s.ctx { tool_arguments = s.ctx.tool_arguments ++ (c ∷ r) } })

-- One round of the loop over `delta.ToolCalls`.
unfoldable pub on_tool_call : ToolCall → Stream → Stream
unfolding is_empty start_tool_block add_arguments
on_tool_call tc s = add_arguments tc.arguments (if is_empty tc.id then s else start_tool_block tc s)

unfoldable pub on_tool_calls : List ToolCall → Stream → Stream
unfolding on_tool_call
on_tool_calls [] s = s
on_tool_calls (tc ∷ tcs) s = on_tool_calls tcs (on_tool_call tc s)

-- `choice.FinishReason`
unfoldable pub on_finish : Option Text → Stream → Stream
unfolding end_blocks send same text
on_finish none s = s
on_finish (some reason) s =
    let stop_reason =
      if same reason (text "tool_calls") then text "tool_use" else text "end_turn" in
    let s1 = send (message_delta (some stop_reason) none 0) (end_blocks s) in
    record s1 { ctx = record s1.ctx { finish_reason_sent = true } }

-- The test for a chunk that only reports usage.
unfoldable pub bare : Choice → Bool
unfolding is_empty
bare c =
    is_empty c.role
    && (is_empty c.content
        && (is_empty c.reasoning_content
            && (elim c.tool_calls [ [] ↦ true | _ ∷ _ ↦ false ]
                && elim c.finish_reason [ none ↦ true | some _ ↦ false ])))

unfoldable pub on_choice : Choice → Stream → Stream
unfolding on_reasoning on_content on_tool_calls on_finish
on_choice c s =
    on_finish c.finish_reason
      (on_tool_calls c.tool_calls (on_content c.content (on_reasoning c.reasoning_content s)))

unfoldable pub on_chunk : OpenAiStreamChunk → Stream → Stream
unfolding begin_message send_usage bare on_choice
on_chunk chunk s0 =
    let s = begin_message chunk.chunk_id s0 in
    elim chunk.choices [
      | [] ↦ elim chunk.usage [ none ↦ s | some u ↦ send_usage u s ]
      | c ∷ _ ↦ elim chunk.usage [
        | none ↦ on_choice c s
        | some u ↦ if bare c then send_usage u s else on_choice c s
      ]
    ]

unfoldable pub open_ai_stream_to_claude : StreamData → StreamContext → Option Stream
unfolding on_done on_chunk
open_ai_stream_to_claude no_data ctx = some (record { ctx = ctx; result = [] })
open_ai_stream_to_claude done_marker ctx = some (on_done (record { ctx = ctx; result = [] }))
open_ai_stream_to_claude not_json ctx = none
open_ai_stream_to_claude (chunk_data chunk) ctx =
    some (on_chunk chunk (record { ctx = ctx; result = [] }))
