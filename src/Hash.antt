-- ===== src/Hash.antt =====
-- `strings.EqualFold` on ASCII texts, which the pattern of the digests in the specification admits.
use Prim.Native.Char.{code}
use isoboot.Prelude.{ℕ, ◌+◌, String, Bool, true, false, ◌&&◌, ◌==◌, nat_eq, leb, if◌then◌else◌}

unfoldable pub to_lower : ℕ → ℕ
to_lower c = if leb b'A' c && leb c b'Z' then c + 32 else c

unfoldable pub equal_fold : String → String → Bool
unfolding to_lower nat_eq
equal_fold String.[] String.[] = true
equal_fold (String.◌∷◌ c s) (String.◌∷◌ d t) =
    to_lower (code c) == to_lower (code d) && equal_fold s t
equal_fold _ _ = false
