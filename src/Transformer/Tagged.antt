-- ===== src/Transformer/Tagged.antt =====
-- An independent description of think tags: a text is read byte by byte, a tag that starts at the
-- current byte switches between text and thinking, every other byte is said in the current mode.
use osante_ai_proxy.Base.{
  ℕ, zero, suc, ◌+◌, ◌-◌, ◌≤◌, ◌<◌, ◌≡◌, refl, sym, ◌∙◌, ap, Bool, true, false, none, some, List,
  [], ◌∷◌, ◌++◌, Text, text, has_prefix, index, length, take, drop, arith, not, Bool-cases,
  Option-cases, inl, inr, if◌then◌else◌,
}
use osante_ai_proxy.Transformer.ThinkTags.{think_tag_open, think_tag_close}

-- A byte with whether it is thinking.
abbrev pub Said : Type 0
Said = List (Bool × ℕ)

unfoldable pub mark : Bool → Text → Said
mark m [] = []
mark m (c ∷ s) = (m, c) ∷ mark m s

-- The tag that ends a mode.
unfoldable pub tag_of : Bool → Text
unfolding text
tag_of true = think_tag_close
tag_of false = think_tag_open

-- `skip` counts the bytes of a tag that are still to be passed over.
unfoldable pub tagged : Bool → ℕ → Text → Said
unfolding tag_of has_prefix
tagged m skip [] = []
tagged m (suc skip) (c ∷ s) = tagged m skip s
tagged m zero (c ∷ s) =
    if has_prefix (c ∷ s) (tag_of m)
    then tagged (not m) (length (tag_of m) - 1) s
    else (m, c) ∷ tagged m 0 s

pub tag_length : (m : Bool) → 1 < length (tag_of m)
unfolding tag_of text
tag_length true = omega arith
tag_length false = omega arith

pub tagged_skip :
    (m : Bool) (n : ℕ) (s t : Text)
    → n ≤ length s
    → tagged m n (s ++ t) ≡ tagged m 0 (drop n s ++ t)
unfolding tagged
tagged_skip m zero s t h = refl
tagged_skip m (suc n) [] t h = absurd (omega (arith, h))
tagged_skip m (suc n) (c ∷ s) t h = tagged_skip m n s t (omega (arith, h))

pub has_prefix-length : (s p : Text) → has_prefix s p ≡ true → length p ≤ length s
unfolding has_prefix
has_prefix-length s [] h = omega arith
has_prefix-length [] (b ∷ p) h = absurd (cc)
has_prefix-length (a ∷ s) (b ∷ p) h = ground (arith, has_prefix-length s p)

-- A prefix that fits into a text is found in it whatever follows.
pub has_prefix-append :
    (s p t : Text) → length p ≤ length s → has_prefix (s ++ t) p ≡ has_prefix s p
unfolding has_prefix
has_prefix-append s [] t h = refl
has_prefix-append [] (b ∷ p) t h = absurd (omega (arith, h))
has_prefix-append (a ∷ s) (b ∷ p) t h = ground (arith, has_prefix-append s p t)

-- A text that is no longer than a pattern and starts it together with what follows is a prefix of
-- the pattern.
pub has_prefix_swap :
    (s p t : Text) → length s ≤ length p → has_prefix (s ++ t) p ≡ true → has_prefix p s ≡ true
unfolding has_prefix
has_prefix_swap [] p t h e = refl
has_prefix_swap (a ∷ s) [] t h e = absurd (omega (arith, h))
has_prefix_swap (a ∷ s) (b ∷ p) t h e = ground (arith, has_prefix_swap s p t)

-- What is said where a tag starts.
pub tagged_tag :
    (m : Bool) (s t : Text)
    → has_prefix (s ++ t) (tag_of m) ≡ true
    → length (tag_of m) ≤ length s
    → tagged m 0 (s ++ t) ≡ tagged (not m) 0 (drop (length (tag_of m)) s ++ t)
tagged_tag m [] t e h = absurd (omega (arith, tag_length m, h))
tagged_tag m (c ∷ s) t e h =
    let n = length (tag_of m) - 1 in
    let whole : length (tag_of m) ≡ suc n = omega (arith, tag_length m) in
    let step : tagged m 0 (c ∷ s ++ t) ≡ tagged (not m) n (s ++ t) = unfold tagged in rw e refl in
    step
    ∙ tagged_skip (not m) n s t (omega (arith, h, whole))
    ∙ ap (λ k. tagged (not m) 0 (drop k (c ∷ s) ++ t)) (sym whole)

-- Bytes before which no tag starts are said as they are.
pub tagged_plain :
    (m : Bool) (n : ℕ) (s t : Text)
    → n ≤ length s
    → ((j : ℕ) → j < n → has_prefix (drop j s ++ t) (tag_of m) ≡ false)
    → tagged m 0 (s ++ t) ≡ mark m (take n s) ++ tagged m 0 (drop n s ++ t)
unfolding mark
tagged_plain m zero s t h none_starts = refl
tagged_plain m (suc n) [] t h none_starts = absurd (omega (arith, h))
tagged_plain m (suc n) (c ∷ s) t h none_starts =
    let here = none_starts 0 (omega arith) in
    let step : tagged m 0 (c ∷ s ++ t) ≡ (m, c) ∷ tagged m 0 (s ++ t) =
      unfold tagged in rw here refl in
    step
    ∙ ap (λ r. (m, c) ∷ r)
        (tagged_plain m n s t (omega (arith, h)) (λ j l. none_starts (suc j) (omega (arith, l))))

-- Where strings.Index finds a pattern.
pub index-some :
    (s p : Text) (i : ℕ)
    → index s p ≡ some i
    → (i + length p ≤ length s)
      × (has_prefix (drop i s) p ≡ true)
      × ((j : ℕ) → j < i → has_prefix (drop j s) p ≡ false)
unfolding index
index-some [] p i e = elim (Bool-cases (has_prefix [] p)) [
  | inl hit ↦
      let at_start : i ≡ 0 = ground (arith, hit, e) in
      rw at_start (omega (arith, has_prefix-length [] p hit), hit, λ j l. absurd (omega (arith, l)))
  | inr miss ↦ absurd (ground (arith, miss, e))
]
index-some (a ∷ s) p i e = elim (Bool-cases (has_prefix (a ∷ s) p)) [
  | inl hit ↦
      let at_start : i ≡ 0 = ground (arith, hit, e) in
      rw at_start
        (omega (arith, has_prefix-length (a ∷ s) p hit), hit, λ j l. absurd (omega (arith, l)))
  | inr miss ↦ elim (Option-cases (index s p)) [
    | inl none_after ↦ absurd (ground (arith, miss, none_after, e))
    | inr (k, found) ↦
        let one_on : i ≡ suc k = ground (arith, miss, found, e) in
        let ih = index-some s p k found in
        rw one_on (
          omega (arith, ih.0),
          ih.1,
          λ j. elim j as (λ j. j < suc k → has_prefix (drop j (a ∷ s)) p ≡ false) [
            | zero ↦ λ l. miss
            | suc m ↦ λ l. ih.2 m (omega (arith, l))
          ],
        )
  ]
]

-- Where it finds none.
pub index-none :
    (s p : Text) (j : ℕ) → 0 < length p → index s p ≡ none → has_prefix (drop j s) p ≡ false
unfolding index
index-none [] p zero h e = ground (arith, e)
index-none [] p (suc j) h e = ground (arith, e)
index-none (a ∷ s) p zero h e = ground (arith, e)
index-none (a ∷ s) p (suc j) h e = index-none s p j h (elim (Option-cases (index s p)) [
  | inl none_after ↦ none_after
  | inr (k, found) ↦ absurd (ground (arith, found, e))
])
