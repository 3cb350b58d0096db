-- ===== src/Transformer/ThinkTags.antt =====
-- Think tags in text (internal/transformer/convert/think_tags.go): the split of a whole text into
-- blocks, and the same over a stream whose chunks may cut a tag in two. A loop runs on fuel, the
-- length of its text, since each round drops a tag.
use osante_ai_proxy.Base.{
  ℕ, zero, suc, ◌+◌, ◌-◌, Bool, true, false, Option, none, some, List, [], ◌∷◌, ◌++◌, Text, text,
  is_empty, has_prefix, index, length, take, drop, ltb, min, if◌then◌else◌,
}
use osante_ai_proxy.Transformer.Context.{
  Stream, content_block_start, content_block_delta, content_block_stop, text_block, thinking_block,
  text_delta, thinking_delta, ClaudeEvent,
}

abbrev pub think_tag_open : Text
think_tag_open = text "<think>"

abbrev pub think_tag_close : Text
think_tag_close = text "</think>"

-- A content block: `{"type": "text"}` or `{"type": "thinking"}`.
pub data Block : Type 0 where
  text_of thinking_of : Text → Block

-- `splitThinkTaggedText`; `none` when the fuel runs out.
unfoldable pub split_loop : ℕ → Text → List Block → Option (List Block)
unfolding index is_empty text
split_loop zero t blocks = none
split_loop (suc fuel) t blocks = elim (index t think_tag_open) [
  | none ↦ some (if is_empty t then blocks else blocks ++ text_of t ∷ [])
  | some open_idx ↦
      let blocks1 = if ltb 0 open_idx then blocks ++ text_of (take open_idx t) ∷ [] else blocks in
      let inner = drop (open_idx + length think_tag_open) t in
      elim (index inner think_tag_close) [
        | none ↦ some (if is_empty inner then blocks1 else blocks1 ++ text_of inner ∷ [])
        | some close_idx ↦ split_loop fuel (drop (close_idx + length think_tag_close) inner) (
            if ltb 0 close_idx then blocks1 ++ thinking_of (take close_idx inner) ∷ [] else blocks1)
      ]
]

unfoldable pub split_think_tagged_text : Text → Option (List Block)
unfolding split_loop
split_think_tagged_text t = split_loop (suc (length t)) t []

-- The loop `for i := max; i > 0; i--` of `splitTrailingPartialTag`.
unfoldable pub partial_loop : ℕ → Text → Text → Text × Text
unfolding has_prefix
partial_loop zero s tag = (s, [])
partial_loop (suc i) s tag =
    let cut : ℕ = length s - suc i in
    if has_prefix tag (drop cut s) then (take cut s, drop cut s) else partial_loop i s tag

-- `splitTrailingPartialTag`
unfoldable pub split_trailing_partial_tag : Text → Text → Text × Text
unfolding partial_loop is_empty
split_trailing_partial_tag s tag =
    if is_empty s
    then (s, [])
    else if is_empty tag
    then (s, [])
    else partial_loop (min (length tag - 1) (length s)) s tag

-- `*result = append(*result, ...)`
unfoldable pub send : ClaudeEvent → Stream → Stream
send e s = record s { result = s.result ++ e ∷ [] }

unfoldable pub set_in_tag : Bool → Stream → Stream
set_in_tag b s = record s { ctx = record s.ctx { in_thinking_tag = b } }

unfoldable pub set_buffer : Text → Stream → Stream
set_buffer t s = record s { ctx = record s.ctx { thinking_buffer = t } }

-- The loop of `consumeThinkTaggedStream`, with its two callbacks.
unfoldable pub consume_loop :
    ℕ → Text → (Text → Stream → Stream) → (Text → Stream → Stream) → Stream → Stream
unfolding index is_empty text set_in_tag set_buffer split_trailing_partial_tag
consume_loop fuel [] emit_text emit_thinking s = s
consume_loop zero (c ∷ r) emit_text emit_thinking s = s
consume_loop (suc fuel) (c ∷ r) emit_text emit_thinking s = elim s.ctx.in_thinking_tag [
  | true ↦ elim (index (c ∷ r) think_tag_close) [
    | none ↦
        let cut = split_trailing_partial_tag (c ∷ r) think_tag_close in
        set_buffer cut.1 (if is_empty cut.0 then s else emit_thinking cut.0 s)
    | some close_idx ↦
        consume_loop fuel (drop (close_idx + length think_tag_close) (c ∷ r)) emit_text
          emit_thinking
          (set_in_tag false
            (if ltb 0 close_idx then emit_thinking (take close_idx (c ∷ r)) s else s))
  ]
  | false ↦ elim (index (c ∷ r) think_tag_open) [
    | none ↦
        let cut = split_trailing_partial_tag (c ∷ r) think_tag_open in
        set_buffer cut.1 (emit_text cut.0 s)
    | some open_idx ↦
        consume_loop fuel (drop (open_idx + length think_tag_open) (c ∷ r)) emit_text emit_thinking
          (set_in_tag true (emit_text (take open_idx (c ∷ r)) s))
  ]
]

unfoldable pub consume_think_tagged_stream :
    Text → (Text → Stream → Stream) → (Text → Stream → Stream) → Stream → Stream
unfolding consume_loop
consume_think_tagged_stream content emit_text emit_thinking s =
    consume_loop (length content) content emit_text emit_thinking s

-- `flushThinkTaggedStream`
unfoldable pub flush_think_tagged_stream :
    (Text → Stream → Stream) → (Text → Stream → Stream) → Stream → Stream
unfolding is_empty
flush_think_tagged_stream emit_text emit_thinking s =
    let buffer = s.ctx.thinking_buffer in
    let flushed =
      if is_empty buffer
      then s
      else if s.ctx.in_thinking_tag
      then emit_thinking buffer s
      else emit_text buffer s in
    record flushed {
      ctx = record flushed.ctx {
        in_thinking_tag = false;
        thinking_buffer = [];
        pending_thinking_text = [];
      };
    }

unfoldable pub start_text_block : Stream → Stream
unfolding send
start_text_block s =
    if s.ctx.content_block_started
    then s
    else send (content_block_start s.ctx.content_index text_block)
        (record s { ctx = record s.ctx { content_block_started = true } })

-- `emitText` of `makeThinkEmitters`
unfoldable pub emit_text : Text → Stream → Stream
unfolding start_text_block is_empty send
emit_text [] s = s
emit_text (c ∷ r) s =
    let s1 = start_text_block s in
    send (content_block_delta s1.ctx.content_index (text_delta (c ∷ r))) s1

unfoldable pub close_text_block : Stream → Stream
unfolding send
close_text_block s =
    if s.ctx.content_block_started
    then (let s1 = send (content_block_stop s.ctx.content_index) s in
        record s1 {
          ctx = record s1.ctx {
            content_block_started = false;
            content_index = s1.ctx.content_index + 1;
          };
        })
    else s

unfoldable pub open_thinking_block : Stream → Stream
unfolding send
open_thinking_block s = send (content_block_start s.ctx.content_index thinking_block) (record s {
  ctx = record s.ctx {
    thinking_block_started = true;
    thinking_index = s.ctx.content_index;
    content_index = s.ctx.content_index + 1;
  };
})

unfoldable pub start_thinking_block : Stream → Stream
unfolding close_text_block open_thinking_block
start_thinking_block s =
    if s.ctx.thinking_block_started then s else open_thinking_block (close_text_block s)

-- `emitThinking` of `makeThinkEmitters`
unfoldable pub emit_thinking : Text → Stream → Stream
unfolding start_thinking_block send
emit_thinking [] s = s
emit_thinking (c ∷ r) s =
    let s1 = start_thinking_block s in
    send (content_block_delta s1.ctx.thinking_index (thinking_delta (c ∷ r))) s1
