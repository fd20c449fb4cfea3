-- ===== src/Server/Names.antt =====
-- The two regular expressions of cmd/httpd/main.go, as recognisers of ASCII texts.
pub mod Laws
pub mod Regexp
use Prim.Native.Char.{code}
use Prim.Native.String
use Prim.Native.String.{len}
use isoboot.Prelude.{
  ℕ, zero, suc, String, Bool, true, false, not, ◌&&◌, ◌||◌, ◌==◌, nat_eq, leb, ltb,
}

abbrev pub is_digit : ℕ → Bool
is_digit c = leb b'0' c && leb c b'9'

abbrev pub is_lower : ℕ → Bool
is_lower c = leb b'a' c && leb c b'z'

-- `[0-9a-fA-F]`
unfoldable pub is_hex : ℕ → Bool
is_hex c = is_digit c || (leb b'a' c && leb c b'f' || leb b'A' c && leb c b'F')

-- `[0-9a-fA-F]{2}`, and before it k times the same with a dash.
unfoldable pub hex_pairs : ℕ → String → Bool
unfolding is_hex nat_eq
hex_pairs zero (String.◌∷◌ a (String.◌∷◌ b String.[])) = is_hex (code a) && is_hex (code b)
hex_pairs (suc k) (String.◌∷◌ a (String.◌∷◌ b (String.◌∷◌ c s))) =
    is_hex (code a) && (is_hex (code b) && (code c == b'-' && hex_pairs k s))
hex_pairs _ _ = false

-- `macRegexp`
unfoldable pub mac_matches : String → Bool
unfolding hex_pairs
mac_matches s = hex_pairs 5 s

-- `[a-z0-9]`
unfoldable pub is_alphanumeric : ℕ → Bool
is_alphanumeric c = is_lower c || is_digit c

-- `[a-z0-9.-]`
unfoldable pub is_name_char : ℕ → Bool
unfolding is_alphanumeric nat_eq
is_name_char c = is_alphanumeric c || (c == b'.' || c == b'-')

-- `([a-z0-9.-]*[a-z0-9])?` behind a character that the flag describes: the last one, this one if
-- there is no other, is a letter or a digit.
unfoldable pub name_rest : Bool → String → Bool
unfolding is_alphanumeric is_name_char
name_rest last String.[] = last
name_rest last (String.◌∷◌ c s) = is_name_char (code c) && name_rest (is_alphanumeric (code c)) s

-- `nameRegexp`
unfoldable pub name_matches : String → Bool
unfolding is_alphanumeric name_rest
name_matches String.[] = false
name_matches (String.◌∷◌ c s) = is_alphanumeric (code c) && name_rest true s

-- The guard of the handlers: `!nameRegexp.MatchString(name) || len(name) > 253`, negated.
unfoldable pub is_valid_name : String → Bool
unfolding name_matches
is_valid_name name = name_matches name && not (ltb 253 (len name))
