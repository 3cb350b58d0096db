-- ===== src/Transformer/Blocks.antt =====
-- What splitThinkTaggedText makes of a whole text.
use osante_ai_proxy.Base.{
  subst, ◌-◌, ◌&&◌, is_some, ℕ, zero, suc, ◌+◌, ◌<◌, ◌≡◌, refl, sym, ◌∙◌, ap, Bool, true, false,
  none, some, List, [], ◌∷◌, ◌++◌, append_assoc, append-nil, Text, is_empty, arith, not, take, drop,
  length, length-drop, index, has_prefix, ltb, lt→ltb, Option-cases, Bool-cases, inl, inr,
  if◌then◌else◌,
}
use osante_ai_proxy.Transformer.ThinkTags.{
  Block, text_of, thinking_of, split_loop, split_think_tagged_text, think_tag_open, think_tag_close,
}
use osante_ai_proxy.Transformer.Tagged.{Said, mark, tag_of, tag_length, index-none, index-some}

-- What blocks say.
unfoldable pub block_said : List Block → Said
unfolding mark
block_said [] = []
block_said (text_of t ∷ bs) = mark false t ++ block_said bs
block_said (thinking_of t ∷ bs) = mark true t ++ block_said bs

block_said-append : (bs cs : List Block) → block_said (bs ++ cs) ≡ block_said bs ++ block_said cs
unfolding block_said
block_said-append [] cs = refl
block_said-append (text_of t ∷ bs) cs = simp (block_said-append bs cs, append_assoc)
block_said-append (thinking_of t ∷ bs) cs = simp (block_said-append bs cs, append_assoc)

-- In a mode, whether a closing tag is still to come.
unfoldable pub is_closed : Bool → Text → Bool
is_closed m s = m && is_some (index s think_tag_close)

-- What a text says whose blocks are read as a whole: as in `tagged`, but that a byte after an opening tag is
-- thinking only if a closing tag is still to come, and text otherwise.
unfoldable pub closed_reading : Bool → ℕ → Text → Said
unfolding tag_of has_prefix is_closed
closed_reading m skip [] = []
closed_reading m (suc skip) (c ∷ s) = closed_reading m skip s
closed_reading m zero (c ∷ s) =
    if has_prefix (c ∷ s) (tag_of m)
    then closed_reading (not m) (length (tag_of m) - 1) s
    else (is_closed m (c ∷ s), c) ∷ closed_reading m 0 s

closed_reading_skip :
    (m : Bool) (n : ℕ) (s : Text) → closed_reading m n s ≡ closed_reading m 0 (drop n s)
unfolding closed_reading
closed_reading_skip m zero s = refl
closed_reading_skip m (suc n) [] = refl
closed_reading_skip m (suc n) (c ∷ s) = closed_reading_skip m n s

is_closed-none : (m : Bool) (s : Text) → index s (tag_of m) ≡ none → is_closed m s ≡ false
unfolding is_closed tag_of
is_closed-none false s h = refl
is_closed-none true s h = ap is_some h

is_closed-some : (m : Bool) (s : Text) (i : ℕ) → index s (tag_of m) ≡ some i → is_closed m s ≡ m
unfolding is_closed tag_of
is_closed-some false s i h = refl
is_closed-some true s i h = ap is_some h

index_tail-none : (c : ℕ) (s p : Text) → index (c ∷ s) p ≡ none → index s p ≡ none
unfolding index
index_tail-none c s p h = elim (Option-cases (index s p)) [
  | inl missing ↦ missing
  | inr (k, found) ↦ absurd (ground (arith, found, h))
]

index_tail-some :
    (c : ℕ) (s p : Text) (i : ℕ)
    → has_prefix (c ∷ s) p ≡ false
    → index (c ∷ s) p ≡ some i
    → (k : ℕ) × (index s p ≡ some k) × (i ≡ suc k)
unfolding index
index_tail-some c s p i miss h = elim (Option-cases (index s p)) [
  | inl missing ↦ absurd (ground (arith, miss, missing, h))
  | inr (k, found) ↦ (k, found, ground (arith, miss, found, h))
]

index_here :
    (c : ℕ) (s p : Text) (i : ℕ) → has_prefix (c ∷ s) p ≡ true → index (c ∷ s) p ≡ some i → 0 ≡ i
unfolding index
index_here c s p i hit h = ground (arith, hit, h)

-- Where the tag that ends the mode does not occur, everything is text.
closed_reading-none :
    (m : Bool) (s : Text) → index s (tag_of m) ≡ none → closed_reading m 0 s ≡ mark false s
unfolding closed_reading mark
closed_reading-none m [] h = refl
closed_reading-none m (c ∷ s) h =
    rw (index-none (c ∷ s) (tag_of m) 0 (omega (arith, tag_length m)) h, is_closed-none m (c ∷ s) h)
      (ap (λ r. (false, c) ∷ r) (closed_reading-none m s (index_tail-none c s (tag_of m) h)))

closed_reading_tag :
    (m : Bool) (c : ℕ) (s : Text)
    → has_prefix (c ∷ s) (tag_of m) ≡ true
    → closed_reading m 0 (c ∷ s) ≡ closed_reading (not m) 0 (drop (length (tag_of m)) (c ∷ s))
closed_reading_tag m c s hit =
    let n = length (tag_of m) - 1 in
    let whole : length (tag_of m) ≡ suc n = omega (arith, tag_length m) in
    let step : closed_reading m 0 (c ∷ s) ≡ closed_reading (not m) n s =
      unfold closed_reading in rw hit refl in
    step
    ∙ closed_reading_skip (not m) n s
    ∙ ap (λ k. closed_reading (not m) 0 (drop k (c ∷ s))) (sym whole)

-- Where it occurs, the bytes before it are said in the mode.
closed_reading-some :
    (m : Bool) (s : Text) (i : ℕ)
    → index s (tag_of m) ≡ some i
    → closed_reading m 0 s
      ≡ mark m (take i s) ++ closed_reading (not m) 0 (drop (i + length (tag_of m)) s)
unfolding mark
closed_reading-some m [] i h =
    absurd (omega (arith, (index-some [] (tag_of m) i h).0, tag_length m))
closed_reading-some m (c ∷ s) i h = elim (Bool-cases (has_prefix (c ∷ s) (tag_of m))) [
  | inl hit ↦
      let n = length (tag_of m) in
      let at_start : closed_reading m 0 (c ∷ s) ≡ closed_reading (not m) 0 (drop (0 + n) (c ∷ s)) =
        closed_reading_tag m c s hit
        ∙ ap (λ (k : ℕ). closed_reading (not m) 0 (drop k (c ∷ s))) (omega arith) in
      subst
        (λ (k : ℕ).
          closed_reading m 0 (c ∷ s)
          ≡ mark m (take k (c ∷ s)) ++ closed_reading (not m) 0 (drop (k + n) (c ∷ s)))
        (index_here c s (tag_of m) i hit h) at_start
  | inr miss ↦
      let after = index_tail-some c s (tag_of m) i miss h in
      let step : closed_reading m 0 (c ∷ s) ≡ (m, c) ∷ closed_reading m 0 s =
        unfold closed_reading in rw (miss, is_closed-some m (c ∷ s) i h) refl in
      let n = length (tag_of m) in
      let one_on : suc (after.0 + n) ≡ suc after.0 + n = omega arith in
      let rest : closed_reading (not m) 0 (drop (after.0 + n) s)
          ≡ closed_reading (not m) 0 (drop (suc after.0 + n) (c ∷ s)) =
        ap (λ (j : ℕ). closed_reading (not m) 0 (drop j (c ∷ s))) one_on in
      rw (after.2) (
        step
        ∙ ap (λ r. (m, c) ∷ r) (closed_reading-some m s after.0 after.1)
        ∙ ap (λ r. mark m (take (suc after.0) (c ∷ s)) ++ r) rest)
]

add_text :
    (t : Text) (bs : List Block)
    → block_said (if is_empty t then bs else bs ++ text_of t ∷ []) ≡ block_said bs ++ mark false t
unfolding is_empty mark block_said
add_text [] bs = sym (append-nil (block_said bs))
add_text (c ∷ t) bs =
    rw (block_said-append bs (text_of (c ∷ t) ∷ []))
      (ap (λ r. block_said bs ++ r) (append-nil (mark false (c ∷ t))))

add_text_before :
    (i : ℕ) (t : Text) (bs : List Block)
    → block_said (if ltb 0 i then bs ++ text_of (take i t) ∷ [] else bs)
      ≡ block_said bs ++ mark false (take i t)
unfolding mark block_said
add_text_before zero t bs = sym (append-nil (block_said bs))
add_text_before (suc i) t bs =
    rw (lt→ltb 0 (suc i) (omega arith), block_said-append bs (text_of (take (suc i) t) ∷ []))
      (ap (λ r. block_said bs ++ r) (append-nil (mark false (take (suc i) t))))

add_thinking_before :
    (i : ℕ) (t : Text) (bs : List Block)
    → block_said (if ltb 0 i then bs ++ thinking_of (take i t) ∷ [] else bs)
      ≡ block_said bs ++ mark true (take i t)
unfolding mark block_said
add_thinking_before zero t bs = sym (append-nil (block_said bs))
add_thinking_before (suc i) t bs =
    rw (lt→ltb 0 (suc i) (omega arith), block_said-append bs (thinking_of (take (suc i) t) ∷ []))
      (ap (λ r. block_said bs ++ r) (append-nil (mark true (take (suc i) t))))

split_loop_says :
    (fuel : ℕ) (t : Text) (bs : List Block)
    → length t < fuel
    → (cs : List Block) × (split_loop fuel t bs ≡ some cs)
      × (block_said cs ≡ block_said bs ++ closed_reading false 0 t)
unfolding split_loop tag_of
split_loop_says zero t bs h = absurd (omega (arith, h))
split_loop_says (suc fuel) t bs h = elim (Option-cases (index t think_tag_open)) [
  | inl missing ↦ (
    (if is_empty t then bs else bs ++ text_of t ∷ []),
    rw (split_loop, missing) refl,
    add_text t bs ∙ ap (λ r. block_said bs ++ r) (sym (closed_reading-none false t missing)),
  )
  | inr (i, found) ↦
      let inner = drop (i + length think_tag_open) t in
      let bs1 = if ltb 0 i then bs ++ text_of (take i t) ∷ [] else bs in
      let whole = closed_reading-some false t i found in
      elim (Option-cases (index inner think_tag_close)) [
        | inl missing ↦ (
          (if is_empty inner then bs1 else bs1 ++ text_of inner ∷ []),
          rw (split_loop, found, missing) refl,
          add_text inner bs1
              ∙ simp
                  (
                    add_text_before i t bs,
                    whole,
                    closed_reading-none true inner missing,
                    append_assoc,
                  )
                  refl,
        )
        | inr (j, closes) ↦
            let bs2 = if ltb 0 j then bs1 ++ thinking_of (take j inner) ∷ [] else bs1 in
            let rest = drop (j + length think_tag_close) inner in
            let ih = split_loop_says fuel rest bs2 (
              omega (
                arith,
                h,
                length-drop (j + 8) inner,
                length-drop (i + 7) t,
                index-some t think_tag_open i found,
              )) in
            (
              ih.0,
              rw (split_loop, found, closes) ih.1,
              ih.2
                  ∙ simp
                      (
                        add_thinking_before j inner bs1,
                        add_text_before i t bs,
                        whole,
                        closed_reading-some true inner j closes,
                        append_assoc,
                      )
                      refl,
            )
      ]
]

-- The split of a text ends on every text, and its blocks say, byte for byte, what the text says when its
-- tags are read one after the other: a byte is thinking exactly if the last tag before it is an opening one
-- and a closing one is still to come, and text otherwise.
pub split_think_tagged_text_lem :
    (t : Text)
    → (bs : List Block) × (split_think_tagged_text t ≡ some bs)
      × (block_said bs ≡ closed_reading false 0 t)
unfolding split_think_tagged_text block_said
split_think_tagged_text_lem t = split_loop_says (suc (length t)) t [] (omega arith)
