-- ===== src/Transformer/ResponsesStream.antt =====
-- OpenAI2StreamToClaude (internal/transformer/convert/claude_openai2.go): one event of an OpenAI
-- Responses stream becomes the events of a Claude stream. What encoding/json reads from the event's
-- data is the argument; a failure of the function is `none`.
use osante_ai_proxy.Base.{
  ◌+◌, Bool, true, false, Option, none, some, [], ◌++◌, ◌&&◌, ◌||◌, not, Text, text, is_empty, same,
  ltb, if◌then◌else◌,
}
use osante_ai_proxy.Transformer.Context.{
  Stream, StreamContext, Usage, message_start, message_delta, message_stop, content_block_start,
  content_block_delta, content_block_stop, tool_use_block, input_json_delta,
}
use osante_ai_proxy.Transformer.ThinkTags.{
  send, set_buffer, consume_think_tagged_stream, flush_think_tagged_stream, emit_text,
  emit_thinking, close_text_block,
}
use osante_ai_proxy.Transformer.OpenAiStream.{
  close_thinking_block, end_text_block, end_tool_block, emit_text_with_close,
  emit_thinking_with_close,
}

-- `OpenAI2OutputItem`
pub record OutputItem : Type 0 where
  pub item_type : Text
  pub call_id : Text
  pub item_id : Text
  pub item_name : Text

-- `OpenAI2Response`
pub record Response : Type 0 where
  pub response_id : Text
  pub response_usage : Usage

-- `OpenAI2StreamEvent`, by its type; `other_event` is every type without a case.
pub data ResponsesEvent : Type 0 where
  created completed : Option Response → ResponsesEvent
  output_text_delta arguments_delta : Text → ResponsesEvent
  item_added item_done : Option OutputItem → ResponsesEvent
  other_event : ResponsesEvent

pub data ResponsesData : Type 0 where
  no_data done_marker not_json : ResponsesData
  event_data : ResponsesEvent → ResponsesData

-- `if evt.Response.Usage.InputTokens > 0 { ctx.InputTokens = … }`, and the output tokens.
unfoldable pub note_usage : Response → Stream → Stream
note_usage r s = record s {
  ctx = record s.ctx {
    input_tokens =
        if ltb 0 r.response_usage.input_tokens
        then r.response_usage.input_tokens
        else s.ctx.input_tokens;
    output_tokens =
        if ltb 0 r.response_usage.output_tokens
        then r.response_usage.output_tokens
        else s.ctx.output_tokens;
  };
}

-- `if evt.Response != nil`, at the completion and at the creation.
unfoldable pub noted : Option Response → Stream → Stream
unfolding note_usage
noted none s = s
noted (some r) s = note_usage r s

unfoldable pub noted_with_id : Option Response → Stream → Stream
unfolding note_usage
noted_with_id none s = s
noted_with_id (some r) s =
    note_usage r (record s { ctx = record s.ctx { message_id = r.response_id } })

-- "response.created"
unfoldable pub on_created : Option Response → Stream → Stream
unfolding noted_with_id send
on_created response s =
    let s1 = noted_with_id response s in
    send
      (message_start s1.ctx.message_id s1.ctx.model_name
        (record { input_tokens = s1.ctx.input_tokens; output_tokens = s1.ctx.output_tokens }))
      s1

-- "response.output_text.delta"
unfoldable pub on_text_delta : Text → Stream → Stream
unfolding set_buffer consume_think_tagged_stream emit_text_with_close emit_thinking_with_close
on_text_delta t s =
    consume_think_tagged_stream (s.ctx.thinking_buffer ++ t) emit_text_with_close
      emit_thinking_with_close (set_buffer [] s)

unfoldable pub is_function_call : Text → Bool
unfolding same text
is_function_call t = same t (text "function_call")

-- The start of the block of a function call.
unfoldable pub start_call : OutputItem → Stream → Stream
unfolding close_thinking_block close_text_block send is_empty
start_call item s =
    let s1 = close_text_block (close_thinking_block s) in
    let id = if is_empty item.call_id then item.item_id else item.call_id in
    send (content_block_start s1.ctx.content_index (tool_use_block id item.item_name)) (record s1 {
      ctx = record s1.ctx {
        tool_block_started = true;
        tool_index = s1.ctx.content_index;
        current_tool_id = id;
        current_tool_name = item.item_name;
        tool_arguments = [];
      };
    })

-- "response.output_item.added"
unfoldable pub on_item_added : Option OutputItem → Stream → Stream
unfolding is_function_call start_call
on_item_added none s = s
on_item_added (some item) s = if is_function_call item.item_type then start_call item s else s

-- "response.function_call_arguments.delta"
unfoldable pub on_arguments : Text → Stream → Stream
unfolding send
on_arguments t s =
    if s.ctx.tool_block_started
    then send (content_block_delta s.ctx.tool_index (input_json_delta t))
        (record s { ctx = record s.ctx { tool_arguments = s.ctx.tool_arguments ++ t } })
    else s

unfoldable pub end_call : Stream → Stream
unfolding send
end_call s =
    let s1 = send (content_block_stop s.ctx.tool_index) s in
    record s1 {
      ctx = record s1.ctx { tool_block_started = false; content_index = s1.ctx.content_index + 1 };
    }

-- "response.output_item.done"
unfoldable pub on_item_done : Option OutputItem → Stream → Stream
unfolding is_function_call end_call
on_item_done none s = s
on_item_done (some item) s =
    if is_function_call item.item_type && s.ctx.tool_block_started then end_call s else s

-- "response.completed"
unfoldable pub on_completed : Option Response → Stream → Stream
unfolding noted flush_think_tagged_stream emit_text emit_thinking close_thinking_block
    end_text_block send text is_empty
on_completed response s =
    let s1 = noted response s in
    let s2 =
      end_text_block
        (close_thinking_block (flush_think_tagged_stream emit_text emit_thinking s1)) in
    let stop_reason =
      if ltb 0 s2.ctx.tool_index || not (is_empty s2.ctx.current_tool_id)
      then text "tool_use"
      else text "end_turn" in
    let s3 =
      send message_stop (send (message_delta (some stop_reason) none s2.ctx.output_tokens) s2) in
    record s3 { ctx = record s3.ctx { finish_reason_sent = true } }

-- The branch of the marker of the end.
unfoldable pub on_responses_done : Stream → Stream
unfolding flush_think_tagged_stream emit_text emit_thinking close_thinking_block end_text_block
    end_tool_block send
on_responses_done s =
    let s1 = end_tool_block (
      end_text_block
        (close_thinking_block (flush_think_tagged_stream emit_text emit_thinking s))) in
    if s1.ctx.finish_reason_sent
    then s1
    else (let s2 = send message_stop s1 in
        record s2 { ctx = record s2.ctx { finish_reason_sent = true } })

unfoldable pub on_event : ResponsesEvent → Stream → Stream
unfolding on_created on_completed on_text_delta on_arguments on_item_added on_item_done
on_event (created r) s = on_created r s
on_event (completed r) s = on_completed r s
on_event (output_text_delta t) s = on_text_delta t s
on_event (arguments_delta t) s = on_arguments t s
on_event (item_added item) s = on_item_added item s
on_event (item_done item) s = on_item_done item s
on_event other_event s = s

unfoldable pub responses_stream_to_claude : ResponsesData → StreamContext → Option Stream
unfolding on_event on_responses_done
responses_stream_to_claude no_data ctx = some (record { ctx = ctx; result = [] })
responses_stream_to_claude done_marker ctx =
    some (on_responses_done (record { ctx = ctx; result = [] }))
responses_stream_to_claude not_json ctx = none
responses_stream_to_claude (event_data e) ctx =
    some (on_event e (record { ctx = ctx; result = [] }))
