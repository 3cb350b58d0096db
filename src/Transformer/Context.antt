-- ===== src/Transformer/Context.antt =====
-- The state of a stream (StreamContext, internal/transformer/types.go), the events that are sent to a
-- Claude client, and the chunks that an OpenAI upstream sends. An event is kept as a value;
-- buildClaudeEvent (internal/transformer/convert/common.go) prints it.
use osante_ai_proxy.Base.{ℕ, Bool, false, List, [], Option, Text}

-- The fields that the two conversions to Claude use.
pub record StreamContext : Type 0 where
  pub message_start_sent : Bool
  pub content_block_started : Bool
  pub thinking_block_started : Bool
  pub tool_block_started : Bool
  pub message_id : Text
  pub model_name : Text
  pub input_tokens : ℕ
  pub output_tokens : ℕ
  pub content_index : ℕ
  pub thinking_index : ℕ
  pub tool_index : ℕ
  pub finish_reason_sent : Bool
  pub current_tool_id : Text
  pub current_tool_name : Text
  pub tool_arguments : Text
  pub in_thinking_tag : Bool
  pub thinking_buffer : Text
  pub pending_thinking_text : Text

-- `NewStreamContext`
abbrev pub new_stream_context : StreamContext
new_stream_context = record {
  message_start_sent = false;
  content_block_started = false;
  thinking_block_started = false;
  tool_block_started = false;
  message_id = [];
  model_name = [];
  input_tokens = 0;
  output_tokens = 0;
  content_index = 0;
  thinking_index = 0;
  tool_index = 0;
  finish_reason_sent = false;
  current_tool_id = [];
  current_tool_name = [];
  tool_arguments = [];
  in_thinking_tag = false;
  thinking_buffer = [];
  pending_thinking_text = [];
}

pub data BlockKind : Type 0 where
  text_block thinking_block : BlockKind
  -- id and name
  tool_use_block : Text → Text → BlockKind

pub data Delta : Type 0 where
  text_delta thinking_delta input_json_delta : Text → Delta

pub record Usage : Type 0 where
  pub input_tokens : ℕ
  pub output_tokens : ℕ

abbrev pub no_usage : Usage
no_usage = record { input_tokens = 0; output_tokens = 0 }

-- The events, `buildClaudeEvent`'s arguments.
pub data ClaudeEvent : Type 0 where
  -- id, model and usage
  message_start : Text → Text → Usage → ClaudeEvent
  content_block_start : ℕ → BlockKind → ClaudeEvent
  content_block_delta : ℕ → Delta → ClaudeEvent
  content_block_stop : ℕ → ClaudeEvent
  -- the stop reason, the input tokens if they are given, and the output tokens
  message_delta : Option Text → Option ℕ → ℕ → ClaudeEvent
  message_stop : ClaudeEvent

-- `OpenAIToolCall`
pub record ToolCall : Type 0 where
  pub id : Text
  pub name : Text
  pub arguments : Text

pub record Choice : Type 0 where
  pub role : Text
  pub content : Text
  pub reasoning_content : Text
  pub tool_calls : List ToolCall
  pub finish_reason : Option Text

-- `OpenAIStreamChunk`
pub record OpenAiStreamChunk : Type 0 where
  pub chunk_id : Text
  pub choices : List Choice
  pub usage : Option Usage

-- The context with the events that one call has appended to its result.
pub record Stream : Type 0 where
  pub ctx : StreamContext
  pub result : List ClaudeEvent
