-- ===== src/Transformer/Tests.antt =====
-- Runs of the conversion, and the theorems at concrete streams.
use osante_ai_proxy.Base.{◌≡◌, refl, false, none, some, List, [], ◌∷◌, ◌++◌, Text, text, map, All}
use osante_ai_proxy.Transformer.Context.{
  ClaudeEvent, OpenAiStreamChunk, new_stream_context, no_usage, message_start, message_delta,
  message_stop, content_block_start, content_block_delta, content_block_stop, text_block,
  text_delta,
}
use osante_ai_proxy.Transformer.ThinkTags.{
  Block, text_of, thinking_of, split_loop, split_think_tagged_text,
}
use osante_ai_proxy.Transformer.OpenAiStream.{open_ai_stream_to_claude, chunk_data, done_marker}
use osante_ai_proxy.Transformer.Tagged.{tagged}
use osante_ai_proxy.Transformer.Said.{said}
use osante_ai_proxy.Transformer.Chunks.{reasoning_of, contents, stream_says_contents}
use osante_ai_proxy.Transformer.Steps.{events_of}
use osante_ai_proxy.Transformer.ResponsesStream.{
  ResponsesEvent, created, output_text_delta, arguments_delta, completed, event_data,
  responses_stream_to_claude,
}
use osante_ai_proxy.Transformer.Deltas.{is_completion, deltas, stream_says_deltas}
use osante_ai_proxy.Transformer.Blocks.{block_said, closed_reading, split_think_tagged_text_lem}

abbrev content_chunk : Text → OpenAiStreamChunk
content_chunk t = record {
  chunk_id = text "m";
  choices =
      record {
        role = [];
        content = t;
        reasoning_content = [];
        tool_calls = [];
        finish_reason = none;
      }
      ∷ [];
  usage = none;
}

abbrev cut_tag : List OpenAiStreamChunk
cut_tag =
    content_chunk (text "a<th")
    ∷ content_chunk (text "ink>b</think")
    ∷ content_chunk (text ">c<")
    ∷ []

cut_tag_plain : All (λ chunk. reasoning_of chunk ≡ []) cut_tag
unfolding reasoning_of
cut_tag_plain = (refl, (refl, (refl, tt)))

stream_says_contents_example :
    (es : List ClaudeEvent) × (events_of open_ai_stream_to_claude
        (map chunk_data cut_tag ++ done_marker ∷ [])
        new_stream_context
      ≡ some es)
    × (said es ≡ tagged false 0 (contents cut_tag))
stream_says_contents_example = stream_says_contents cut_tag cut_tag_plain

split_think_tagged_text_lem_example :
    (bs : List Block) × (split_think_tagged_text (text "a<think>b</think>c<think>d") ≡ some bs)
    × (block_said bs ≡ closed_reading false 0 (text "a<think>b</think>c<think>d"))
split_think_tagged_text_lem_example =
    split_think_tagged_text_lem (text "a<think>b</think>c<think>d")

split_runs :
    split_think_tagged_text (text "a<think>b</think>c<think>d")
    ≡ some
        (text_of (text "a") ∷ thinking_of (text "b") ∷ text_of (text "c") ∷ text_of (text "d") ∷ [])
unfolding split_think_tagged_text split_loop text
split_runs = refl

-- A stream that ends its last text with what could be the start of a tag: the rest of the text comes
-- in a block that is opened after the stop reason, with the index of the block before it.
late_text :
    events_of open_ai_stream_to_claude
      (chunk_data (content_chunk (text "a<"))
        ∷ chunk_data (record {
          chunk_id = text "m";
          choices =
              record {
                role = [];
                content = [];
                reasoning_content = [];
                tool_calls = [];
                finish_reason = some (text "stop");
              }
              ∷ [];
          usage = none;
        })
        ∷ done_marker
        ∷ [])
      new_stream_context
    ≡ some (
        message_start (text "m") [] no_usage
        ∷ content_block_start 0 text_block
        ∷ content_block_delta 0 (text_delta (text "a"))
        ∷ content_block_stop 0
        ∷ message_delta (some (text "end_turn")) none 0
        ∷ content_block_start 0 text_block
        ∷ content_block_delta 0 (text_delta (text "<"))
        ∷ content_block_stop 0
        ∷ message_stop
        ∷ [])
unfolding events_of open_ai_stream_to_claude text
late_text = refl

abbrev cut_deltas : List ResponsesEvent
cut_deltas =
    created none
    ∷ output_text_delta (text "a<th")
    ∷ arguments_delta (text "{}")
    ∷ output_text_delta (text "ink>b</think>")
    ∷ output_text_delta (text "c<")
    ∷ []

cut_deltas-open : All (λ e. is_completion e ≡ false) cut_deltas
unfolding is_completion
cut_deltas-open = (refl, (refl, (refl, (refl, (refl, tt)))))

stream_says_deltas_example :
    (out : List ClaudeEvent) × (events_of responses_stream_to_claude
        (map event_data cut_deltas ++ event_data (completed none) ∷ [])
        new_stream_context
      ≡ some out)
    × (said out ≡ tagged false 0 (deltas cut_deltas))
stream_says_deltas_example = stream_says_deltas cut_deltas none cut_deltas-open
