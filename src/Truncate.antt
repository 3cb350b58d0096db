-- ===== src/Truncate.antt =====
-- Cutting a byte string on a rune boundary: truncateErrMsg (internal/storage/credentials.go) and
-- truncateString (internal/proxy/proxy_request.go).
pub mod Bounds
mod Tests
use osante_ai_proxy.Base.{
  ℕ, zero, suc, Bool, true, none, some, ◌++◌, Text, ltb, leb, ◌||◌, if◌then◌else◌, length, take,
  get_elem?, text,
}

-- `utf8.RuneStart`: every byte but 10xxxxxx.
unfoldable pub rune_start : ℕ → Bool
rune_start b = ltb b 128 || leb 192 b

unfoldable pub starts_at : Text → ℕ → Bool
unfolding rune_start
starts_at s i = elim (get_elem? s i) [ none ↦ true | some b ↦ rune_start b ]

-- `for cut > 0 && !utf8.RuneStart(s[cut]) { cut-- }`
unfoldable pub cut_back : Text → ℕ → ℕ
unfolding starts_at
cut_back s zero = 0
cut_back s (suc cut) = if starts_at s (suc cut) then suc cut else cut_back s cut

abbrev pub max_err_msg_bytes : ℕ
max_err_msg_bytes = 500

-- `truncateErrMsg`
unfoldable pub truncate_err_msg : Text → Text
unfolding cut_back
truncate_err_msg msg =
    if leb (length msg) max_err_msg_bytes then msg else take (cut_back msg max_err_msg_bytes) msg

-- `truncateString`
unfoldable pub truncate_string : Text → ℕ → Text
unfolding cut_back text
truncate_string value limit =
    if leb (length value) limit then value else take (cut_back value limit) value ++ text "..."
