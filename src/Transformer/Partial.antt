-- ===== src/Transformer/Partial.antt =====
-- What splitTrailingPartialTag keeps back: the longest end of a text that may begin a tag.
use osante_ai_proxy.Base.{
  ℕ, zero, suc, ◌+◌, ◌-◌, ◌≤◌, ◌<◌, ◌≡◌, refl, ◌∙◌, ap, Bool, true, false, none, List, [], ◌∷◌,
  ◌++◌, Text, text, is_empty, has_prefix, index, length, take, drop, arith, Bool-cases, inl, inr,
  length-drop, min, ◌==◌, ==_iff, leb,
}
use osante_ai_proxy.Transformer.ThinkTags.{partial_loop, split_trailing_partial_tag}
use osante_ai_proxy.Transformer.Tagged.{
  mark, tag_of, tagged, tag_length, tagged_plain, index-none, has_prefix-append, has_prefix_swap,
}

module _ {ℓ} {A : Type ℓ} where
  take_all : (xs : List A) → take (length xs) xs ≡ xs
  take_all [] = refl
  take_all (x ∷ xs) = ap (λ r. x ∷ r) (take_all xs)

  drop_all : (xs : List A) → drop (length xs) xs ≡ []
  drop_all [] = refl
  drop_all (x ∷ xs) = drop_all xs

-- A cut among the last `i` positions before which no proper end of the text begins the tag.
record IsCut (s tag : Text) (i : ℕ) (p : Text × Text) : Type 0 where
  at_ : ℕ
  halves : p ≡ (take at_ s, drop at_ s)
  inside : at_ ≤ length s
  near : length s ≤ at_ + i
  longest : (j : ℕ) → length s ≤ j + i → j < at_ → has_prefix tag (drop j s) ≡ false

partial_loop-IsCut : (i : ℕ) (s tag : Text) → i ≤ length s → IsCut s tag i (partial_loop i s tag)
unfolding partial_loop
partial_loop-IsCut zero s tag h = record {
  at_ = length s;
  halves = rw (take_all s, drop_all s) refl;
  inside = omega arith;
  near = omega arith;
  longest = λ j l k. absurd (omega (arith, l, k));
}
partial_loop-IsCut (suc i) s tag h =
    elim (Bool-cases (has_prefix tag (drop (length s - suc i) s))) [
      | inl hit ↦ rw hit (record {
        at_ = length s - suc i;
        halves = refl;
        inside = omega (arith, h);
        near = omega (arith, h);
        longest = λ j l k. absurd (omega (arith, l, k, h));
      })
      | inr miss ↦
          let ih = partial_loop-IsCut i s tag (omega (arith, h)) in
          rw miss (record {
            at_ = ih.at_;
            halves = ih.halves;
            inside = ih.inside;
            near = omega (arith, ih.near);
            longest = λ j l k. elim (Bool-cases (j == length s - suc i)) [
              | inl same_place ↦ rw ((==_iff j (length s - suc i)).0 same_place) miss
              | inr later ↦ ih.longest j (ground (arith, later, l)) k
            ];
          })
    ]

tag_nonempty : (m : Bool) → is_empty (tag_of m) ≡ false
unfolding is_empty tag_of text
tag_nonempty true = refl
tag_nonempty false = refl

-- No tag starts before the cut, whatever follows the text.
plain_at :
    (m : Bool) (s t : Text) (j : ℕ)
    → index s (tag_of m) ≡ none
    → (length s < j + length (tag_of m) → has_prefix (tag_of m) (drop j s) ≡ false)
    → has_prefix (drop j s ++ t) (tag_of m) ≡ false
plain_at m s t j h near = elim (Bool-cases (leb (length (tag_of m)) (length (drop j s)))) [
  | inl fits ↦
      has_prefix-append (drop j s) (tag_of m) t (ground (arith, fits))
      ∙ index-none s (tag_of m) j (omega (arith, tag_length m)) h
  | inr longer ↦
      let over : length (drop j s) < length (tag_of m) = ground (arith, longer) in
      let miss = near (omega (arith, length-drop j s, over, tag_length m)) in
      elim (Bool-cases (has_prefix (drop j s ++ t) (tag_of m))) [
        | inl hit ↦
            absurd (cc (miss, has_prefix_swap (drop j s) (tag_of m) t (omega (arith, over)) hit))
        | inr e ↦ e
      ]
]

cut_says :
    (m : Bool) (s t : Text) (i : ℕ) (p : Text × Text)
    → IsCut s (tag_of m) i p
    → i ≡ min (length (tag_of m) - 1) (length s)
    → index s (tag_of m) ≡ none
    → (tagged m 0 (s ++ t) ≡ mark m p.0 ++ tagged m 0 (p.1 ++ t)) × (length p.1 < length (tag_of m))
cut_says m s t i p c e h = rw c.halves (
  tagged_plain m c.at_ s t c.inside
      (λ j l. plain_at m s t j h (λ k. c.longest j (omega (arith, e, k, tag_length m)) l)),
  omega (arith, length-drop c.at_ s, c.near, e, tag_length m),
)

pub split_trailing_partial_tag_lem :
    (m : Bool) (s t : Text)
    → index s (tag_of m) ≡ none
    → (tagged m 0 (s ++ t)
        ≡ mark m (split_trailing_partial_tag s (tag_of m)).0
          ++ tagged m 0 ((split_trailing_partial_tag s (tag_of m)).1 ++ t))
      × (length (split_trailing_partial_tag s (tag_of m)).1 < length (tag_of m))
unfolding split_trailing_partial_tag is_empty mark
split_trailing_partial_tag_lem m [] t h = (refl, omega (arith, tag_length m))
split_trailing_partial_tag_lem m (c ∷ s) t h =
    let i = min (length (tag_of m) - 1) (length (c ∷ s)) in
    rw (tag_nonempty m) (
      cut_says m (c ∷ s) t i (partial_loop i (c ∷ s) (tag_of m))
        (partial_loop-IsCut i (c ∷ s) (tag_of m) (omega arith)) refl h)
