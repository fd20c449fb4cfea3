-- ===== src/Server/Names/Laws.antt =====
-- What the patterns of cmd/httpd/main.go admit.
use Prim.Native.Char.{code}
use Prim.Native.String.{len}
use isoboot.Prelude.{◌≤◌, String, ◌≡◌, refl, Bool, true, false, arith, nat_eq, subst}
use isoboot.Paths.Safety.{NoSlash, IsName}
use isoboot.Server.Names.{is_alphanumeric, name_rest, name_matches, is_valid_name}

name_rest-NoSlash : (last : Bool) (s : String) → name_rest last s ≡ true → NoSlash s
unfolding name_rest
name_rest-NoSlash last String.[] h = tt
name_rest-NoSlash last (String.◌∷◌ c s) h =
    (ground arith, name_rest-NoSlash (is_alphanumeric (code c)) s (ground arith))

dot_refused : (s : String) → name_matches s ≡ false → name_matches s ≡ true → ⊥
dot_refused s h k = cc

name_matches-IsName : (s : String) → name_matches s ≡ true → IsName s
unfolding name_matches
name_matches-IsName String.[] h = cc
name_matches-IsName (String.◌∷◌ c s) h = record {
  not_empty = λ e. cc;
  not_dot = λ e. dot_refused "." refl (subst (λ t. name_matches t ≡ true) e h);
  not_dots = λ e. dot_refused ".." refl (subst (λ t. name_matches t ≡ true) e h);
  no_slash = (ground arith, name_rest-NoSlash true s (ground arith));
}

-- A provision's name that the handlers admit is one component of a path, of at most 253 bytes.
pub is_valid_name-IsName :
    (name : String) → is_valid_name name ≡ true → IsName name × (len name ≤ 253)
unfolding is_valid_name
is_valid_name-IsName name h = (name_matches-IsName name (ground arith), ground arith)
