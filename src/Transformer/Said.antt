-- ===== src/Transformer/Said.antt =====
-- What the events of a Claude stream say, and what each step of the conversion adds to it.
use osante_ai_proxy.Base.{
  ◌+◌, ◌≡◌, refl, sym, ◌∙◌, ap, subst, Bool, true, false, List, [], ◌∷◌, ◌++◌, append_assoc,
  append-nil, Text, not, ◌&&◌, Bool-cases, inl, inr, if◌then◌else◌,
}
use osante_ai_proxy.Transformer.Context.{
  Stream, ClaudeEvent, content_block_stop, content_block_start, text_block, thinking_block, Delta,
  content_block_delta, text_delta, thinking_delta,
}
use osante_ai_proxy.Transformer.ThinkTags.{
  send, start_text_block, emit_text, start_thinking_block, open_thinking_block, close_text_block,
  emit_thinking,
}
use osante_ai_proxy.Transformer.OpenAiStream.{
  close_thinking_block, emit_text_with_close, emit_thinking_with_close,
}
use osante_ai_proxy.Transformer.Tagged.{Said, mark}

unfoldable pub said_by : ClaudeEvent → Said
unfolding mark
said_by (content_block_delta i (text_delta t)) = mark false t
said_by (content_block_delta i (thinking_delta t)) = mark true t
said_by (content_block_delta i (Delta.input_json_delta t)) = []
said_by (ClaudeEvent.message_start a b u) = []
said_by (ClaudeEvent.content_block_start i k) = []
said_by (ClaudeEvent.content_block_stop i) = []
said_by (ClaudeEvent.message_delta a u n) = []
said_by ClaudeEvent.message_stop = []

-- The bytes of text and thinking in a list of events.
unfoldable pub said : List ClaudeEvent → Said
unfolding said_by
said [] = []
said (e ∷ es) = said_by e ++ said es

pub said-append : (es fs : List ClaudeEvent) → said (es ++ fs) ≡ said es ++ said fs
unfolding said
said-append [] fs = refl
said-append (e ∷ es) fs = simp (said-append es fs, append_assoc)

-- A step from one state to another says something, and leaves the think-tag mode and its buffer.
abbrev pub Says : Said → Stream → Stream → Type 0
Says u s s' =
    (said s'.result ≡ said s.result ++ u)
    × (s'.ctx.in_thinking_tag ≡ s.ctx.in_thinking_tag)
    × (s'.ctx.thinking_buffer ≡ s.ctx.thinking_buffer)

pub Says-nothing : (s : Stream) → Says [] s s
Says-nothing s = (sym (append-nil (said s.result)), refl, refl)

pub send-Says : (e : ClaudeEvent) (s : Stream) → Says (said_by e) s (send e s)
unfolding send said
send-Says e s = (rw (said-append s.result (e ∷ []), append-nil (said_by e)) refl, refl, refl)

pub Says-trans : (u v : Said) (s s1 s2 : Stream) → Says u s s1 → Says v s1 s2 → Says (u ++ v) s s2
Says-trans u v s s1 s2 h k =
    (k.0 ∙ ap (λ r. r ++ v) h.0 ∙ append_assoc (said s.result) u v, k.1 ∙ h.1, k.2 ∙ h.2)

pub quiet_send : (e : ClaudeEvent) (s s1 : Stream) → Says [] s s1 → Says (said_by e) s (send e s1)
quiet_send e s s1 h = Says-trans [] (said_by e) s s1 (send e s1) h (send-Says e s1)

pub before_quiet : (u : Said) (s s1 s2 : Stream) → Says u s s1 → Says [] s1 s2 → Says u s s2
before_quiet u s s1 s2 h k = subst (λ r. Says r s s2) (append-nil u) (Says-trans u [] s s1 s2 h k)

pub after_quiet : (u : Said) (s s1 s2 : Stream) → Says [] s s1 → Says u s1 s2 → Says u s s2
after_quiet u s s1 s2 h k = Says-trans [] u s s1 s2 h k

pub if_Says :
    (b : Bool) (u : Said) (s x y : Stream) → Says u s x → Says u s y → Says u s (if b then x else y)
if_Says true u s x y h k = h
if_Says false u s x y h k = k

start_text_block-Says : (s : Stream) → Says [] s (start_text_block s)
unfolding start_text_block said_by
start_text_block-Says s =
    let s1 = record s { ctx = record s.ctx { content_block_started = true } } in
    let start = content_block_start s.ctx.content_index text_block in
    if_Says s.ctx.content_block_started [] s s (send start s1) (Says-nothing s) (send-Says start s1)

pub close_text_block-Says : (s : Stream) → Says [] s (close_text_block s)
unfolding close_text_block said_by
close_text_block-Says s = elim (Bool-cases s.ctx.content_block_started) [
  | inl e ↦ rw e (send-Says _ s)
  | inr e ↦ rw e (Says-nothing s)
]

open_thinking_block-Says : (s : Stream) → Says [] s (open_thinking_block s)
unfolding open_thinking_block said_by
open_thinking_block-Says s =
    send-Says (content_block_start s.ctx.content_index thinking_block) (record s {
      ctx = record s.ctx {
        thinking_block_started = true;
        thinking_index = s.ctx.content_index;
        content_index = s.ctx.content_index + 1;
      };
    })

pub emit_text-Says : (t : Text) (s : Stream) → Says (mark false t) s (emit_text t s)
unfolding emit_text said_by mark
emit_text-Says [] s = Says-nothing s
emit_text-Says (c ∷ r) s =
    let s1 = start_text_block s in
    quiet_send (content_block_delta s1.ctx.content_index (text_delta (c ∷ r))) s s1
      (start_text_block-Says s)

start_thinking_block-Says : (s : Stream) → Says [] s (start_thinking_block s)
unfolding start_thinking_block
start_thinking_block-Says s =
    let s1 = close_text_block s in
    if_Says s.ctx.thinking_block_started [] s s (open_thinking_block s1) (Says-nothing s) (
      before_quiet [] s s1 (open_thinking_block s1) (close_text_block-Says s)
        (open_thinking_block-Says s1))

pub emit_thinking-Says : (t : Text) (s : Stream) → Says (mark true t) s (emit_thinking t s)
unfolding emit_thinking said_by mark
emit_thinking-Says [] s = Says-nothing s
emit_thinking-Says (c ∷ r) s =
    let s1 = start_thinking_block s in
    quiet_send (content_block_delta s1.ctx.thinking_index (thinking_delta (c ∷ r))) s s1
      (start_thinking_block-Says s)

pub close_thinking_block-Says : (s : Stream) → Says [] s (close_thinking_block s)
unfolding close_thinking_block said_by
close_thinking_block-Says s = elim (Bool-cases s.ctx.thinking_block_started) [
  | inl e ↦ rw e (send-Says (content_block_stop s.ctx.thinking_index) s)
  | inr e ↦ rw e (Says-nothing s)
]

pub emit_text_with_close-Says :
    (t : Text) (s : Stream) → Says (mark false t) s (emit_text_with_close t s)
unfolding emit_text_with_close said_by mark
emit_text_with_close-Says [] s = Says-nothing s
emit_text_with_close-Says (c ∷ r) s =
    elim (Bool-cases (
      s.ctx.thinking_block_started
      && (not s.ctx.content_block_started && not s.ctx.in_thinking_tag))) [
        | inl e ↦
            let s1 = send (content_block_stop s.ctx.thinking_index) s in
            let s2 = record s1 { ctx = record s1.ctx { thinking_block_started = false } } in
            rw e (
              after_quiet (mark false (c ∷ r)) s s2 (emit_text (c ∷ r) s2)
                (send-Says (content_block_stop s.ctx.thinking_index) s) (emit_text-Says (c ∷ r) s2))
        | inr e ↦ rw e (emit_text-Says (c ∷ r) s)
      ]

pub emit_thinking_with_close-Says :
    (t : Text) (s : Stream) → Says (mark true t) s (emit_thinking_with_close t s)
unfolding emit_thinking_with_close mark
emit_thinking_with_close-Says [] s = Says-nothing s
emit_thinking_with_close-Says (c ∷ r) s =
    let s1 = emit_thinking (c ∷ r) s in
    before_quiet (mark true (c ∷ r)) s s1 (close_thinking_block s1) (emit_thinking-Says (c ∷ r) s)
      (close_thinking_block-Says s1)
