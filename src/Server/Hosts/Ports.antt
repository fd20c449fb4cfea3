-- ===== src/Server/Hosts/Ports.antt =====
-- What `resolveHost` (cmd/httpd/main.go) makes of a forwarded port.
use text.Mathlib.TextLemmas.{nil-append, cons-append, append-nil}
use isoboot.Prelude.{
  ℕ, String, ◌<>◌, ◌≡◌, ◌≢◌, refl, ◌∙◌, ◌⊎◌, inl, inr, none, some, true, false, ◌||◌, ◌==◌,
  string_eq, nat_eq, arith, if◌then◌else◌,
}
use isoboot.Server.Http.{Request}
use isoboot.Server.Hosts.{
  has_byte, cut_last_colon, cut_bracket, port_behind, split_bracketed, split_plain, split_host_port,
  join_host_port, without_port, resolve_host,
}

has_byte-append : (k : ℕ) (s t : String) → has_byte k (s <> t) ≡ (has_byte k s || has_byte k t)
unfolding has_byte
has_byte-append k String.[] t = rw nil-append
has_byte-append k (String.◌∷◌ c s) t = rw cons-append (ground (arith, has_byte-append k s t))

cut_last_colon-none : (s : String) → has_byte b':' s ≡ false → cut_last_colon s ≡ none
unfolding cut_last_colon has_byte
cut_last_colon-none String.[] h = refl
cut_last_colon-none (String.◌∷◌ c s) h = ground (arith, cut_last_colon-none s)

cut_last_colon-append :
    (s t before after : String)
    → cut_last_colon t ≡ some (before, after)
    → cut_last_colon (s <> t) ≡ some (s <> before, after)
unfolding cut_last_colon
cut_last_colon-append String.[] t before after h = rw (nil-append, nil-append) h
cut_last_colon-append (String.◌∷◌ c s) t before after h =
    rw (cons-append, cons-append) (ground (arith, cut_last_colon-append s t before after h))

cut_bracket-append :
    (s t : String) → has_byte b']' s ≡ false → cut_bracket (s <> ("]" <> t)) ≡ some (s, t)
unfolding cut_bracket has_byte
cut_bracket-append String.[] t h = rw (nil-append, cons-append, nil-append) (ground arith)
cut_bracket-append (String.◌∷◌ c s) t h = rw cons-append (ground (arith, cut_bracket-append s t))

cut_last_colon-colon :
    (s : String) → has_byte b':' s ≡ false → cut_last_colon (":" <> s) ≡ some ("", s)
unfolding cut_last_colon
cut_last_colon-colon s h = rw (cons-append, nil-append) (ground (arith, cut_last_colon-none s h))

-- A name or an IPv4 address, or a port: no colon and no bracket.
pub record IsPlain (s : String) : Type 0 where
  pub no_colon : has_byte b':' s ≡ false
  pub no_open : has_byte b'[' s ≡ false
  pub no_close : has_byte b']' s ≡ false

-- A text that does not begin with a bracket is split as plain.
split_host_port-plain :
    (s : String) → has_byte b'[' s ≡ false → split_plain s ≡ none → split_host_port s ≡ none
unfolding split_host_port has_byte
split_host_port-plain String.[] h k = refl
split_host_port-plain (String.◌∷◌ c s) h k = ground arith

split_host_port_of_plain :
    (s : String) (parts : String × String)
    → has_byte b'[' s ≡ false
    → split_plain s ≡ some parts
    → split_host_port s ≡ some parts
unfolding split_host_port has_byte split_plain cut_last_colon
split_host_port_of_plain String.[] parts h k = cc
split_host_port_of_plain (String.◌∷◌ c s) parts h k = ground arith

colon-has_byte : (k : ℕ) → has_byte k ":" ≡ (b':' == k)
unfolding has_byte
colon-has_byte k = ground arith

split_host_port-bare : (host : String) → IsPlain host → split_host_port host ≡ none
unfolding split_plain
split_host_port-bare host h = split_host_port-plain host h.no_open (bare host h.no_colon)
  where
    bare : (s : String) → has_byte b':' s ≡ false → split_plain s ≡ none
    bare s k = rw (cut_last_colon-none s k, split_plain)

pub split_host_port-port :
    (host port : String)
    → IsPlain host
    → IsPlain port
    → split_host_port (host <> (":" <> port)) ≡ some (host, port)
unfolding split_plain
split_host_port-port host port h k =
    split_host_port_of_plain (host <> (":" <> port)) (host, port)
      (no_byte b'[' h.no_open (ground arith) k.no_open)
      (ground (
        arith,
        cut_last_colon-append host (":" <> port) "" port (cut_last_colon-colon port k.no_colon),
        append-nil host,
        h.no_colon,
        no_byte b'[' h.no_open (ground arith) k.no_open,
        no_byte b']' h.no_close (ground arith) k.no_close,
      ))
  where
    no_byte :
        (c : ℕ)
        → has_byte c host ≡ false
        → (b':' == c) ≡ false
        → has_byte c port ≡ false
        → has_byte c (host <> (":" <> port)) ≡ false
    no_byte c p q r = rw (
      has_byte-append c host (":" <> port),
      has_byte-append c ":" port,
      colon-has_byte c,
      p,
      q,
      r,
    )

-- The host that the request was sent to, as far as the proxy tells.
abbrev pub told_host : Request → String
told_host r = if r.header "X-Forwarded-Host" == "" then r.host else r.header "X-Forwarded-Host"

resolve_host-told :
    (r : Request)
    → r.header "X-Forwarded-Port" ≢ ""
    → resolve_host r ≡ join_host_port (without_port (told_host r)) (r.header "X-Forwarded-Port")
unfolding resolve_host
resolve_host-told r f = ground (arith, f)

without_port-plain :
    (host port told : String)
    → IsPlain host
    → host ≢ ""
    → IsPlain port
    → (told ≡ host) ⊎ (told ≡ host <> (":" <> port))
    → without_port told ≡ host
unfolding without_port
without_port-plain host port told h n k (inl e) =
    rw (e, split_host_port-bare host h, without_port) e
without_port-plain host port told h n k (inr e) =
    rw (e, split_host_port-port host port h k, without_port) (ground (arith, n))

-- Where the host is told as a name or an IPv4 address (not empty, without colons and brackets), alone
-- or with a port that has no colon or bracket either, a forwarded port that is not empty takes the
-- place of that port, or is added where there is none.
pub resolve_host-forwarded_port :
    (r : Request) (host port : String)
    → IsPlain host
    → host ≢ ""
    → r.header "X-Forwarded-Port" ≢ ""
    → IsPlain port
    → (told_host r ≡ host) ⊎ (told_host r ≡ host <> (":" <> port))
    → resolve_host r ≡ host <> (":" <> r.header "X-Forwarded-Port")
unfolding join_host_port
resolve_host-forwarded_port r host port h n f k told =
    resolve_host-told r f
    ∙ rw (without_port-plain host port (told_host r) h n k told)
        (join_plain host (r.header "X-Forwarded-Port") h.no_colon)
  where
    join_plain : (a b : String) → has_byte b':' a ≡ false → join_host_port a b ≡ a <> (":" <> b)
    join_plain a b e = rw (e, join_host_port)

split_bracketed-bare :
    (address : String)
    → has_byte b'[' address ≡ false
    → has_byte b']' address ≡ false
    → split_bracketed (address <> "]") ≡ none
unfolding split_bracketed port_behind
split_bracketed-bare address k l =
    ground (arith, cut_bracket-append address "" l, append-nil "]", k)

split_host_port-bracketed :
    (address : String)
    → has_byte b'[' address ≡ false
    → has_byte b']' address ≡ false
    → split_host_port ("[" <> (address <> "]")) ≡ none
unfolding split_host_port
split_host_port-bracketed address k l =
    rw (cons-append, nil-append) (ground (arith, split_bracketed-bare address k l))

-- An IPv6 address that is told in brackets and without a port is put into brackets once more, before
-- the forwarded port.
pub resolve_host-bracketed :
    (r : Request) (address : String)
    → has_byte b':' address ≡ true
    → has_byte b'[' address ≡ false
    → has_byte b']' address ≡ false
    → r.header "X-Forwarded-Port" ≢ ""
    → told_host r ≡ "[" <> (address <> "]")
    → resolve_host r ≡ "[" <> (("[" <> (address <> "]")) <> ("]:" <> r.header "X-Forwarded-Port"))
unfolding join_host_port without_port
resolve_host-bracketed r address h k l f told =
    resolve_host-told r f
    ∙ rw (told, split_host_port-bracketed address k l, without_port)
        (ground
          (arith, has_byte-append b':' "[" (address <> "]"), has_byte-append b':' address "]", h))
