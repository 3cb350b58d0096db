-- ===== src/Truncate/Tests.antt =====
-- Cutting a text of two-byte runes.
use osante_ai_proxy.Base.{
  ◌++◌, text, ℕ, ◌≡◌, ◌≢◌, ◌≤◌, ◌<◌, refl, true, false, [], ◌∷◌, Text, length, take,
}
use osante_ai_proxy.Truncate.{truncate_err_msg, truncate_string, starts_at, max_err_msg_bytes}
use osante_ai_proxy.Truncate.Bounds.{truncate_err_msg_lem, truncate_string_lem}

-- "жж"
abbrev word : Text
word = 0xd0 ∷ 0xb6 ∷ 0xd0 ∷ 0xb6 ∷ []

cut_in_rune : truncate_string word 3 ≡ 0xd0 ∷ 0xb6 ∷ 46 ∷ 46 ∷ 46 ∷ []
unfolding truncate_string
cut_in_rune = refl

truncate_string_example :
    (length word ≤ 3 → truncate_string word 3 ≡ word)
    × (3 < length word
        → (n : ℕ) × (truncate_string word 3 ≡ take n word ++ text "...")
          × (n ≤ 3)
          × (n ≢ 0 → starts_at word n ≡ true)
          × ((i : ℕ) → n < i → i ≤ 3 → starts_at word i ≡ false))
truncate_string_example = truncate_string_lem word 3

truncate_err_msg_example :
    (length word ≤ max_err_msg_bytes → truncate_err_msg word ≡ word)
    × (max_err_msg_bytes < length word
        → let n = length (truncate_err_msg word) in
          (n ≤ max_err_msg_bytes)
          × (truncate_err_msg word ≡ take n word)
          × (n ≢ 0 → starts_at word n ≡ true)
          × ((i : ℕ) → n < i → i ≤ max_err_msg_bytes → starts_at word i ≡ false))
truncate_err_msg_example = truncate_err_msg_lem word
