-- ===== src/Transformer/Delivered.antt =====
-- What consumeThinkTaggedStream says of a chunk, whatever its two callbacks send besides.
use osante_ai_proxy.Base.{
  ℕ, zero, suc, ◌+◌, ◌≤◌, ◌<◌, ◌≡◌, refl, sym, ◌∙◌, ap, subst, Bool, true, false, none, some, List,
  [], ◌∷◌, ◌++◌, append_assoc, Text, is_empty, arith, not, take, drop, length, length-drop, index,
  ltb, Bool-cases, lt→ltb, Option-cases, inl, inr, if◌then◌else◌,
}
use osante_ai_proxy.Transformer.Context.{Stream}
use osante_ai_proxy.Transformer.ThinkTags.{
  consume_loop, set_in_tag, set_buffer, split_trailing_partial_tag, think_tag_open, think_tag_close,
}
use osante_ai_proxy.Transformer.Tagged.{
  Said, mark, tagged, tag_of, tag_length, tagged_plain, tagged_tag, index-some, has_prefix-append,
}
use osante_ai_proxy.Transformer.Partial.{split_trailing_partial_tag_lem}
use osante_ai_proxy.Transformer.Said.{said, Says, Says-nothing}

on_suc : (i n : ℕ) → suc i + n ≡ suc (i + n)
on_suc i n = omega arith

drop-drop {ℓ} : {A : Type ℓ} (i n : ℕ) (xs : List A) → drop n (drop i xs) ≡ drop (i + n) xs
drop-drop zero n xs = let e : 0 + n ≡ n = omega arith in rw e refl
drop-drop (suc i) zero [] = rw (on_suc i 0) refl
drop-drop (suc i) (suc n) [] = rw (on_suc i (suc n)) refl
drop-drop (suc i) n (x ∷ xs) = rw (on_suc i n) (drop-drop i n xs)

-- What is said up to a tag, and after it.
pub tagged_found :
    (m : Bool) (s t : Text) (i : ℕ)
    → index s (tag_of m) ≡ some i
    → tagged m 0 (s ++ t)
      ≡ mark m (take i s) ++ tagged (not m) 0 (drop (i + length (tag_of m)) s ++ t)
tagged_found m s t i h =
    let found = index-some s (tag_of m) i h in
    let room = found.0 in
    tagged_plain m i s t (omega (arith, room)) (λ j l.
      has_prefix-append (drop j s) (tag_of m) t (omega (arith, room, l, length-drop j s))
      ∙ found.2 j l)
    ∙ ap (λ r. mark m (take i s) ++ r)
        (tagged_tag m (drop i s) t
            (has_prefix-append (drop i s) (tag_of m) t (omega (arith, room, length-drop i s))
              ∙ found.1)
            (omega (arith, room, length-drop i s))
          ∙ ap (λ r. tagged (not m) 0 (r ++ t)) (drop-drop i (length (tag_of m)) s))

-- From a state on, a content is delivered: it is said, but for a buffer that cannot be a whole tag.
pub record IsDelivered (content : Text) (s s' : Stream) : Type 0 where
  pub all_said :
      (rest : Text)
      → said s'.result ++ tagged s'.ctx.in_thinking_tag 0 (s'.ctx.thinking_buffer ++ rest)
        ≡ said s.result ++ tagged s.ctx.in_thinking_tag 0 (content ++ rest)
  pub short_buffer : length s'.ctx.thinking_buffer < length (tag_of s'.ctx.in_thinking_tag)

said_then :
    (m m' : Bool) (u : Said) (a b : Text) (s s1 : Stream)
    → Says u s s1
    → s.ctx.in_thinking_tag ≡ m
    → tagged m 0 a ≡ u ++ tagged m' 0 b
    → said s1.result ++ tagged m' 0 b ≡ said s.result ++ tagged s.ctx.in_thinking_tag 0 a
said_then m m' u a b s s1 h e k =
    ap (λ r. r ++ tagged m' 0 b) h.0
    ∙ append_assoc (said s.result) u (tagged m' 0 b)
    ∙ ap (λ r. said s.result ++ r) (sym k)
    ∙ ap (λ r. said s.result ++ tagged r 0 a) (sym e)

-- The end of the loop: what may begin a tag stays in the buffer.
kept_back-IsDelivered :
    (m : Bool) (content : Text) (s s1 : Stream)
    → s.ctx.in_thinking_tag ≡ m
    → index content (tag_of m) ≡ none
    → Says (mark m (split_trailing_partial_tag content (tag_of m)).0) s s1
    → IsDelivered content s (set_buffer (split_trailing_partial_tag content (tag_of m)).1 s1)
unfolding set_buffer
kept_back-IsDelivered m content s s1 e h k =
    let cut = split_trailing_partial_tag content (tag_of m) in
    let now : s1.ctx.in_thinking_tag ≡ m = k.1 ∙ e in
    record {
      all_said = λ rest.
          ap (λ r. said s1.result ++ tagged r 0 (cut.1 ++ rest)) now
          ∙ said_then m m (mark m cut.0) (content ++ rest) (cut.1 ++ rest) s s1 k e
              (split_trailing_partial_tag_lem m content rest h).0;
      short_buffer =
          subst (λ r. length cut.1 < length (tag_of r)) (sym now)
            (split_trailing_partial_tag_lem m content [] h).1;
    }

-- A round of the loop: a tag switches the mode.
switched-IsDelivered :
    (m : Bool) (content : Text) (i : ℕ) (s s1 s2 : Stream)
    → s.ctx.in_thinking_tag ≡ m
    → index content (tag_of m) ≡ some i
    → Says (mark m (take i content)) s s1
    → IsDelivered (drop (i + length (tag_of m)) content) (set_in_tag (not m) s1) s2
    → IsDelivered content s s2
unfolding set_in_tag
switched-IsDelivered m content i s s1 s2 e h k d = record {
  all_said = λ rest.
      d.all_said rest
      ∙ said_then m (not m) (mark m (take i content)) (content ++ rest)
          (drop (i + length (tag_of m)) content ++ rest) s s1 k e (tagged_found m content rest i h);
  short_buffer = d.short_buffer;
}

module _ (emit_text emit_thinking : Text → Stream → Stream)
    (text_law : (t : Text) (s : Stream) → Says (mark false t) s (emit_text t s))
    (thinking_law : (t : Text) (s : Stream) → Says (mark true t) s (emit_thinking t s)) where
  thinking_unless_empty :
      (t : Text) (s : Stream) → Says (mark true t) s (if is_empty t then s else emit_thinking t s)
  unfolding is_empty mark
  thinking_unless_empty [] s = Says-nothing s
  thinking_unless_empty (c ∷ r) s = thinking_law (c ∷ r) s

  thinking_unless_at_start :
      (i : ℕ) (t : Text) (s : Stream)
      → Says (mark true (take i t)) s (if ltb 0 i then emit_thinking (take i t) s else s)
  unfolding mark
  thinking_unless_at_start zero t s = Says-nothing s
  thinking_unless_at_start (suc i) t s =
      rw (lt→ltb 0 (suc i) (omega arith)) (thinking_law (take (suc i) t) s)

  pub consume_loop-IsDelivered :
      (fuel : ℕ) (content : Text) (s : Stream)
      → length content ≤ fuel
      → s.ctx.thinking_buffer ≡ []
      → IsDelivered content s (consume_loop fuel content emit_text emit_thinking s)
  unfolding consume_loop tag_of set_in_tag
  consume_loop-IsDelivered fuel [] s h e = record {
    all_said = λ rest. ap (λ r. said s.result ++ tagged s.ctx.in_thinking_tag 0 (r ++ rest)) e;
    short_buffer = rw e (omega (arith, tag_length s.ctx.in_thinking_tag));
  }
  consume_loop-IsDelivered zero (c ∷ r) s h e = absurd (omega (arith, h))
  consume_loop-IsDelivered (suc fuel) (c ∷ r) s h e =
      let content : Text = c ∷ r in
      let shorter : (i k : ℕ) → length (drop (i + suc k) content) ≤ fuel =
        λ i k. omega (arith, length-drop (i + suc k) content, h) in
      elim (Bool-cases s.ctx.in_thinking_tag) [
        | inl inside ↦ elim (Option-cases (index content think_tag_close)) [
          | inl missing ↦
              let said_part = (split_trailing_partial_tag content think_tag_close).0 in
              simp (consume_loop, inside, missing)
                (kept_back-IsDelivered true content s
                  (if is_empty said_part then s else emit_thinking said_part s) inside missing
                  (thinking_unless_empty said_part s))
          | inr (i, found) ↦
              let s1 = if ltb 0 i then emit_thinking (take i content) s else s in
              let says = thinking_unless_at_start i content s in
              simp (consume_loop, inside, found)
                (switched-IsDelivered true content i s s1
                  (consume_loop fuel (drop (i + length think_tag_close) content) emit_text
                    emit_thinking (set_in_tag false s1))
                  inside found says
                  (consume_loop-IsDelivered fuel (drop (i + length think_tag_close) content)
                    (set_in_tag false s1) (shorter i 7) (says.2 ∙ e)))
        ]
        | inr outside ↦ elim (Option-cases (index content think_tag_open)) [
          | inl missing ↦
              let said_part = (split_trailing_partial_tag content think_tag_open).0 in
              simp (consume_loop, outside, missing)
                (kept_back-IsDelivered false content s (emit_text said_part s) outside missing
                  (text_law said_part s))
          | inr (i, found) ↦
              let s1 = emit_text (take i content) s in
              let says = text_law (take i content) s in
              simp (consume_loop, outside, found)
                (switched-IsDelivered false content i s s1
                  (consume_loop fuel (drop (i + length think_tag_open) content) emit_text
                    emit_thinking (set_in_tag true s1))
                  outside found says
                  (consume_loop-IsDelivered fuel (drop (i + length think_tag_open) content)
                    (set_in_tag true s1) (shorter i 6) (says.2 ∙ e)))
        ]
      ]
