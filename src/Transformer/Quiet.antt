-- ===== src/Transformer/Quiet.antt =====
-- The steps of a chunk that say nothing: the start of a message, tool calls, usage and the end.
use osante_ai_proxy.Base.{
  ◌+◌, true, false, Option, none, some, List, [], ◌∷◌, ◌++◌, Text, text, is_empty, same,
  if◌then◌else◌,
}
use osante_ai_proxy.Transformer.Context.{
  Stream, ToolCall, Usage, no_usage, message_start, message_delta, content_block_start,
  content_block_delta, content_block_stop, tool_use_block, input_json_delta,
}
use osante_ai_proxy.Transformer.ThinkTags.{send, close_text_block}
use osante_ai_proxy.Transformer.OpenAiStream.{
  close_thinking_block, end_text_block, end_tool_block, end_blocks, begin_message, send_usage,
  start_tool_block, add_arguments, on_tool_call, on_tool_calls, on_finish,
}
use osante_ai_proxy.Transformer.Said.{
  said_by, Says, Says-nothing, send-Says, quiet_send, before_quiet, if_Says, close_text_block-Says,
  close_thinking_block-Says,
}

pub end_text_block-Says : (s : Stream) → Says [] s (end_text_block s)
unfolding end_text_block said_by
end_text_block-Says s =
    let stop = content_block_stop s.ctx.content_index in
    if_Says s.ctx.content_block_started [] s
      (record (send stop s) { ctx = record (send stop s).ctx { content_block_started = false } }) s
      (send-Says stop s) (Says-nothing s)

end_tool_block-Says : (s : Stream) → Says [] s (end_tool_block s)
unfolding end_tool_block said_by
end_tool_block-Says s =
    let stop = content_block_stop s.ctx.tool_index in
    if_Says s.ctx.tool_block_started [] s
      (record (send stop s) { ctx = record (send stop s).ctx { tool_block_started = false } }) s
      (send-Says stop s) (Says-nothing s)

pub end_blocks-Says : (s : Stream) → Says [] s (end_blocks s)
unfolding end_blocks
end_blocks-Says s =
    let s1 = close_thinking_block s in
    let s2 = end_text_block s1 in
    before_quiet [] s s2 (end_tool_block s2)
      (before_quiet [] s s1 s2 (close_thinking_block-Says s) (end_text_block-Says s1))
      (end_tool_block-Says s2)

pub begin_message-Says : (id : Text) (s : Stream) → Says [] s (begin_message id s)
unfolding begin_message said_by
begin_message-Says id s =
    let s1 = record s { ctx = record s.ctx { message_start_sent = true; message_id = id } } in
    let start = message_start id s.ctx.model_name no_usage in
    if_Says s.ctx.message_start_sent [] s s (send start s1) (Says-nothing s) (send-Says start s1)

pub send_usage-Says : (u : Usage) (s : Stream) → Says [] s (send_usage u s)
unfolding send_usage said_by
send_usage-Says u s = send-Says (message_delta none (some u.input_tokens) u.output_tokens) s

close_tool_block : Stream → Stream
close_tool_block s =
    if s.ctx.tool_block_started
    then (let closed = send (content_block_stop s.ctx.tool_index) s in
        record closed { ctx = record closed.ctx { content_index = closed.ctx.content_index + 1 } })
    else s

close_tool_block-Says : (s : Stream) → Says [] s (close_tool_block s)
unfolding close_tool_block said_by
close_tool_block-Says s =
    let stop = content_block_stop s.ctx.tool_index in
    let closed = send stop s in
    if_Says s.ctx.tool_block_started [] s
      (record closed { ctx = record closed.ctx { content_index = closed.ctx.content_index + 1 } }) s
      (send-Says stop s) (Says-nothing s)

start_tool_block-Says : (tc : ToolCall) (s : Stream) → Says [] s (start_tool_block tc s)
unfolding start_tool_block close_tool_block said_by
start_tool_block-Says tc s =
    let s0 = close_thinking_block s in
    let s1 = close_text_block s0 in
    let s2 = close_tool_block s1 in
    let start = content_block_start s2.ctx.content_index (tool_use_block tc.id tc.name) in
    let s3 = record s2 {
      ctx = record s2.ctx {
        tool_block_started = true;
        tool_index = s2.ctx.content_index;
        current_tool_id = tc.id;
        current_tool_name = tc.name;
        tool_arguments = [];
      };
    } in
    before_quiet [] s s2 (send start s3)
      (before_quiet [] s s1 s2
        (before_quiet [] s s0 s1 (close_thinking_block-Says s) (close_text_block-Says s0))
        (close_tool_block-Says s1))
      (send-Says start s3)

add_arguments-Says : (t : Text) (s : Stream) → Says [] s (add_arguments t s)
unfolding add_arguments said_by
add_arguments-Says [] s = Says-nothing s
add_arguments-Says (c ∷ r) s =
    send-Says (content_block_delta s.ctx.tool_index (input_json_delta (c ∷ r)))
      (record s { ctx = record s.ctx { tool_arguments = s.ctx.tool_arguments ++ (c ∷ r) } })

pub on_tool_calls-Says : (tcs : List ToolCall) (s : Stream) → Says [] s (on_tool_calls tcs s)
unfolding on_tool_calls on_tool_call
on_tool_calls-Says [] s = Says-nothing s
on_tool_calls-Says (tc ∷ tcs) s =
    let s1 = if is_empty tc.id then s else start_tool_block tc s in
    let s2 = add_arguments tc.arguments s1 in
    before_quiet [] s s2 (on_tool_calls tcs s2)
      (before_quiet [] s s1 s2
        (if_Says (is_empty tc.id) [] s s (start_tool_block tc s) (Says-nothing s)
          (start_tool_block-Says tc s))
        (add_arguments-Says tc.arguments s1))
      (on_tool_calls-Says tcs s2)

pub on_finish-Says : (reason : Option Text) (s : Stream) → Says [] s (on_finish reason s)
unfolding on_finish said_by
on_finish-Says none s = Says-nothing s
on_finish-Says (some reason) s =
    quiet_send
      (message_delta
        (some (if same reason (text "tool_calls") then text "tool_use" else text "end_turn")) none
        0)
      s (end_blocks s) (end_blocks-Says s)
