-- ===== src/Truncate/Bounds.antt =====
-- Where the two functions cut.
use osante_ai_proxy.Base.{
  ◌++◌, text, ℕ, zero, suc, ◌≤◌, ◌<◌, ◌≡◌, refl, ◌≢◌, true, false, Text, leb, length, take,
  length-take, ◌==◌, arith, Bool-cases, inl, inr, text, ap, ◌∙◌,
}
use osante_ai_proxy.Truncate.{
  starts_at, cut_back, truncate_err_msg, truncate_string, max_err_msg_bytes,
}

cut_back-le : (s : Text) (cut : ℕ) → cut_back s cut ≤ cut
unfolding cut_back
cut_back-le s zero = omega arith
cut_back-le s (suc cut) = ground (arith, cut_back-le s cut)

-- The cut is at the start of a rune, or at the start of the text.
cut_back-start : (s : Text) (cut : ℕ) → cut_back s cut ≢ 0 → starts_at s (cut_back s cut) ≡ true
unfolding cut_back
cut_back-start s zero n = absurd (n refl)
cut_back-start s (suc cut) n = elim (Bool-cases (starts_at s (suc cut))) [
  | inl e ↦ rw e e
  | inr e ↦ rw e (cut_back-start s cut (ground (arith, n, e)))
]

-- No rune starts between the cut and the limit.
cut_back-nearest : (s : Text) (cut i : ℕ) → cut_back s cut < i → i ≤ cut → starts_at s i ≡ false
unfolding cut_back
cut_back-nearest s zero i l h = absurd (omega (arith, l, h))
cut_back-nearest s (suc cut) i l h = elim (Bool-cases (starts_at s (suc cut))) [
  | inl e ↦ absurd (ground (arith, l, h, e))
  | inr e ↦ elim (Bool-cases (i == suc cut)) [
    | inl f ↦ let here : i ≡ suc cut = ground (arith, f) in ap (starts_at s) here ∙ e
    | inr f ↦ cut_back-nearest s cut i (ground (arith, l, e)) (ground (arith, h, f))
  ]
]

take-cut : (n : ℕ) (s : Text) → n ≤ length s → length (take n s) ≡ n
take-cut n s h = omega (arith, length-take n s, h)

-- A message of at most 500 bytes is stored as it is; of a longer one the start is stored, up to
-- the last start of a rune at or before byte 500.
pub truncate_err_msg_lem :
    (msg : Text)
    → (length msg ≤ max_err_msg_bytes → truncate_err_msg msg ≡ msg)
      × (max_err_msg_bytes < length msg
          → let n = length (truncate_err_msg msg) in
            (n ≤ max_err_msg_bytes)
            × (truncate_err_msg msg ≡ take n msg)
            × (n ≢ 0 → starts_at msg n ≡ true)
            × ((i : ℕ) → n < i → i ≤ max_err_msg_bytes → starts_at msg i ≡ false))
unfolding truncate_err_msg
truncate_err_msg_lem msg = (
  λ h. ground (arith, h),
  λ h.
      let n = cut_back msg max_err_msg_bytes in
      let le = cut_back-le msg max_err_msg_bytes in
      let short : leb (length msg) max_err_msg_bytes ≡ false = ground (arith, h) in
      let whole : length (take n msg) ≡ n = take-cut n msg (omega (arith, le, h)) in
      rw (short, whole)
        (le, refl, cut_back-start msg max_err_msg_bytes, cut_back-nearest msg max_err_msg_bytes),
)

-- A text within the limit is kept whole; of a longer one the start is kept, up to the last start of a rune
-- at or before the limit, and three dots are added.
pub truncate_string_lem :
    (value : Text) (limit : ℕ)
    → (length value ≤ limit → truncate_string value limit ≡ value)
      × (limit < length value
          → (n : ℕ) × (truncate_string value limit ≡ take n value ++ text "...")
            × (n ≤ limit)
            × (n ≢ 0 → starts_at value n ≡ true)
            × ((i : ℕ) → n < i → i ≤ limit → starts_at value i ≡ false))
unfolding truncate_string
truncate_string_lem value limit = (
  λ h. ground (arith, h),
  λ h.
      let long : leb (length value) limit ≡ false = ground (arith, h) in
      (
        cut_back value limit,
        rw long refl,
        cut_back-le value limit,
        cut_back-start value limit,
        cut_back-nearest value limit,
      ),
)
