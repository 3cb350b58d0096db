-- ===== src/Config/Codec.antt =====
-- The functions of strconv, encoding/json, net/url and path that the configuration uses.
use osante_ai_proxy.Base.{
  ltb, true, Bool, false, Option, some, List, Text, is_empty, ◌≡◌, Bool, true,
}
use osante_ai_proxy.Config.Types.{ℤ, pos, negsuc}

-- The values of Go's `int`, of 64 bits.
unfoldable pub is_int : ℤ → Bool
is_int (pos n) = ltb n 9223372036854775808
is_int (negsuc n) = ltb n 9223372036854775808

pub record Codec : Type 0 where
  -- `strconv.Itoa` and `strconv.Atoi`
  pub itoa : ℤ → Text
  pub atoi : Text → Option ℤ
  -- `json.Marshal` and `json.Unmarshal` on a list of texts
  pub marshal_dirs : List Text → Text
  pub unmarshal_dirs : Text → Option (List Text)
  -- `utf8.ValidString`, on all texts of a list
  pub are_utf8 : List Text → Bool
  -- `url.Parse`: the host and the path
  pub parse_url : Text → Option (Text × Text)
  pub clean_path : Text → Text

-- The documented behaviour of strconv and encoding/json that the round trip needs: json.Marshal replaces
-- what is not UTF-8.
pub record IsCodec (codec : Codec) : Type 0 where
  pub reads_numbers : (n : ℤ) → is_int n ≡ true → codec.atoi (codec.itoa n) ≡ some n
  pub numbers_nonempty : (n : ℤ) → is_empty (codec.itoa n) ≡ false
  pub reads_dirs :
      (dirs : List Text)
      → codec.are_utf8 dirs ≡ true
      → codec.unmarshal_dirs (codec.marshal_dirs dirs) ≡ some dirs
  pub dirs_nonempty : (dirs : List Text) → is_empty (codec.marshal_dirs dirs) ≡ false
