-- ===== src/Server/Hosts.antt =====
-- `net.SplitHostPort` and `net.JoinHostPort` of Go's standard library, on ASCII texts, and
-- `resolveHost` (cmd/httpd/main.go).
pub mod Ports
use Prim.Native.Char.{code}
use Prim.Native.String
use isoboot.Prelude.{
  ℕ, String, ◌<>◌, Option, none, some, Bool, true, false, ◌||◌, ◌==◌, string_eq, nat_eq,
  if◌then◌else◌,
}
use isoboot.Server.Http.{Request}

-- `strings.IndexByte(s, c) >= 0`
unfoldable pub has_byte : ℕ → String → Bool
unfolding nat_eq
has_byte k String.[] = false
has_byte k (String.◌∷◌ c s) = code c == k || has_byte k s

-- The text before the last colon and the text behind it, if there is a colon.
unfoldable pub cut_last_colon : String → Option (String × String)
unfolding nat_eq
cut_last_colon String.[] = none
cut_last_colon (String.◌∷◌ c s) = elim (cut_last_colon s) [
  | some (before, after) ↦ some (String.◌∷◌ c before, after)
  | none ↦ if code c == b':' then some ("", s) else none
]

-- The text before the first closing bracket and the text behind it, if there is one.
unfoldable pub cut_bracket : String → Option (String × String)
unfolding nat_eq
cut_bracket String.[] = none
cut_bracket (String.◌∷◌ c s) =
    let rest = cut_bracket s in
    if code c == b']'
    then some ("", s)
    else elim rest [ some (before, after) ↦ some (String.◌∷◌ c before, after) | none ↦ none ]

-- A port behind a colon, with no other colon and no bracket.
unfoldable pub port_behind : String → Option String
unfolding nat_eq has_byte
port_behind String.[] = none
port_behind (String.◌∷◌ c port) =
    if code c == b':'
    then if has_byte b':' port || (has_byte b'[' port || has_byte b']' port)
      then none
      else some port
    else none

-- The address behind an opening bracket.
unfoldable pub split_bracketed : String → Option (String × String)
unfolding cut_bracket port_behind has_byte
split_bracketed s = elim (cut_bracket s) [
  | none ↦ none
  | some (host, behind) ↦
      if has_byte b'[' host
      then none
      else elim (port_behind behind) [ none ↦ none | some port ↦ some (host, port) ]
]

unfoldable pub split_plain : String → Option (String × String)
unfolding cut_last_colon has_byte
split_plain s = elim (cut_last_colon s) [
  | none ↦ none
  | some (host, port) ↦
      if has_byte b':' host || (has_byte b'[' s || has_byte b']' s) then none else some (host, port)
]

-- `net.SplitHostPort`, `none` for an error.
unfoldable pub split_host_port : String → Option (String × String)
unfolding split_bracketed split_plain nat_eq
split_host_port String.[] = none
split_host_port (String.◌∷◌ c s) =
    if code c == b'[' then split_bracketed s else split_plain (String.◌∷◌ c s)

-- `net.JoinHostPort`
unfoldable pub join_host_port : String → String → String
unfolding has_byte
join_host_port host port =
    if has_byte b':' host then "[" <> host <> "]:" <> port else host <> ":" <> port

-- `h, _, _ := net.SplitHostPort(host); if h != "" { host = h }`
unfoldable pub without_port : String → String
unfolding split_host_port
without_port host = elim (split_host_port host) [
  | none ↦ host
  | some (h, _) ↦ if h == "" then host else h
]

-- `resolveHost`
unfoldable pub resolve_host : Request → String
unfolding without_port join_host_port
resolve_host r =
    let forwarded = r.header "X-Forwarded-Host" in
    let host = if forwarded == "" then r.host else forwarded in
    let port = r.header "X-Forwarded-Port" in
    if port == "" then host else join_host_port (without_port host) port
