-- ===== src/Server/Names/Regexp.antt =====
-- What the two regular expressions of cmd/httpd/main.go match, by the meaning of their operators.
use Prim.Native.Char.{Char, code}
use text.Mathlib.TextLemmas.{nil-append, cons-append, append_assoc}
use isoboot.Prelude.{
  ℕ, zero, suc, String, ◌<>◌, ◌≡◌, refl, ◌∙◌, ap, sym, subst, ◌⊎◌, inl, inr, Bool, true, ◌==◌,
  nat_eq, arith, ◌↔◌,
}
use isoboot.Server.Names.{
  is_hex, hex_pairs, mac_matches, is_alphanumeric, is_name_char, name_rest, name_matches,
}

-- The operators that the patterns use: a class of characters, one expression after another, `{n}`,
-- `*` and `?`.
pub data Regexp : Type 0 where
  one : (ℕ → Bool) → Regexp
  then_ : Regexp → Regexp → Regexp
  times : ℕ → Regexp → Regexp
  star : Regexp → Regexp
  optional : Regexp → Regexp

-- A text is a first part and a second one.
abbrev pub Both : (String → Type 0) → (String → Type 0) → String → Type 0
Both L M s = (u : String) × (v : String) × L u × M v × (s ≡ u <> v)

pub data Star (L : String → Type 0) : String → Type 0 where
  none_left : {s : String} → s ≡ "" → Star L s
  one_more : {s : String} (u v : String) → L u → Star L v → s ≡ u <> v → Star L s

abbrev pub Times : ℕ → (String → Type 0) → String → Type 0
Times zero L s = s ≡ ""
Times (suc n) L s = Both L (Times n L) s

-- The whole text is matched.
abbrev pub Matches : Regexp → String → Type 0
Matches (one test) s = (c : Char) × (test (code c) ≡ true) × (s ≡ String.◌∷◌ c String.[])
Matches (then_ a b) s = Both (Matches a) (Matches b) s
Matches (times n a) s = Times n (Matches a) s
Matches (star a) s = Star (Matches a) s
Matches (optional a) s = (s ≡ "") ⊎ Matches a s

-- `^([0-9a-fA-F]{2}-){5}[0-9a-fA-F]{2}$`, and k in the place of 5.
abbrev pub mac_regexp : ℕ → Regexp
mac_regexp k =
    then_ (times k (then_ (times 2 (one is_hex)) (one (λ c. c == b'-')))) (times 2 (one is_hex))

-- `^[a-z0-9]([a-z0-9.-]*[a-z0-9])?$`
abbrev pub name_regexp : Regexp
name_regexp =
    then_ (one is_alphanumeric) (optional (then_ (star (one is_name_char)) (one is_alphanumeric)))

alphanumeric-name_char : (c : ℕ) → is_alphanumeric c ≡ true → is_name_char c ≡ true
unfolding is_name_char
alphanumeric-name_char c h = ground arith

abbrev Rest : String → Type 0
Rest = Matches (then_ (star (one is_name_char)) (one is_alphanumeric))

one-append : (c : Char) (s : String) → String.◌∷◌ c String.[] <> s ≡ String.◌∷◌ c s
one-append c s = cons-append c String.[] s ∙ ap (String.◌∷◌ c) (nil-append s)

name_rest-Rest :
    (last : Bool) (s : String) → name_rest last s ≡ true → ((s ≡ "") × (last ≡ true)) ⊎ Rest s
unfolding name_rest
name_rest-Rest last String.[] h = inl (refl, h)
name_rest-Rest last (String.◌∷◌ c s) h =
    elim (name_rest-Rest (is_alphanumeric (code c)) s (ground arith)) [
      | inl (e, k) ↦
          inr ("", String.◌∷◌ c s, none_left refl, (c, k, ap (String.◌∷◌ c) e), sym (nil-append _))
      | inr (u, v, stars, final, e) ↦ inr (
        String.◌∷◌ c u,
        v,
        one_more (String.◌∷◌ c String.[]) u (c, ground arith, refl) stars (sym (one-append c u)),
        final,
        ap (String.◌∷◌ c) e ∙ sym (cons-append c u v),
      )
    ]

Star-name_rest :
    (u v s : String) (last : Bool)
    → Star (Matches (one is_name_char)) u
    → Matches (one is_alphanumeric) v
    → s ≡ u <> v
    → name_rest last s ≡ true
unfolding name_rest
Star-name_rest u v s last (none_left e) (c, h, k) p =
    rw (p, e, k, nil-append, name_rest) (ground (arith, alphanumeric-name_char (code c) h))
Star-name_rest u v s last (one_more a b (c, h, k) stars e) final p =
    rw (p, e, k, one-append, cons-append, name_rest)
      (ground (arith, Star-name_rest b v (b <> v) (is_alphanumeric (code c)) stars final refl))

name_matches-to : (s : String) → name_matches s ≡ true → Matches name_regexp s
unfolding name_matches
name_matches-to String.[] h = absurd (cc)
name_matches-to (String.◌∷◌ c s) h = elim (name_rest-Rest true s (ground arith)) [
  | inl (e, _) ↦ (String.◌∷◌ c String.[], s, (c, ground arith, refl), inl e, sym (one-append c s))
  | inr r ↦ (String.◌∷◌ c String.[], s, (c, ground arith, refl), inr r, sym (one-append c s))
]

name_matches-from : (s : String) → Matches name_regexp s → name_matches s ≡ true
unfolding name_matches name_rest
name_matches-from s (u, v, (c, h, k), inl e, p) =
    rw (p, k, e, one-append, name_matches) (ground arith)
name_matches-from s (u, v, (c, h, k), inr (a, b, stars, final, e), p) =
    rw (p, k, one-append, name_matches) (ground (arith, Star-name_rest a b v true stars final e))

two-append :
    (a b : Char) (t : String)
    → String.◌∷◌ a (String.◌∷◌ b String.[]) <> t ≡ String.◌∷◌ a (String.◌∷◌ b t)
two-append a b t = rw (cons-append, one-append) refl

three-append :
    (a b c : Char) (t : String)
    → String.◌∷◌ a (String.◌∷◌ b (String.◌∷◌ c String.[])) <> t
      ≡ String.◌∷◌ a (String.◌∷◌ b (String.◌∷◌ c t))
three-append a b c t = rw (cons-append, cons-append, one-append) refl

abbrev Two : String → Type 0
Two = Matches (times 2 (one is_hex))

Two-of_pair :
    (a b : Char)
    → is_hex (code a) ≡ true
    → is_hex (code b) ≡ true
    → Two (String.◌∷◌ a (String.◌∷◌ b String.[]))
Two-of_pair a b h k = (
  String.◌∷◌ a String.[],
  String.◌∷◌ b String.[],
  (a, h, refl),
  (String.◌∷◌ b String.[], "", (b, k, refl), refl, sym (one-append b "")),
  sym (one-append a _),
)

pair_of_Two :
    (s : String)
    → Two s
    → (a : Char) × (b : Char) × (s ≡ String.◌∷◌ a (String.◌∷◌ b String.[]))
      × (is_hex (code a) ≡ true)
      × (is_hex (code b) ≡ true)
pair_of_Two s (u, v, (a, h, p), (x, y, (b, k, q), e, r), t) =
    (a, b, rw (t, p, r, q, e, one-append, one-append) refl, h, k)

hex_pairs-to : (k : ℕ) (s : String) → hex_pairs k s ≡ true → Matches (mac_regexp k) s
unfolding hex_pairs
hex_pairs-to zero (String.◌∷◌ a (String.◌∷◌ b String.[])) h =
    ("", _, refl, Two-of_pair a b (ground arith) (ground arith), sym (nil-append _))
hex_pairs-to (suc k) (String.◌∷◌ a (String.◌∷◌ b (String.◌∷◌ c s))) h =
    let (u, v, pairs, last, e) = hex_pairs-to k s (ground arith) in
    let head : String = String.◌∷◌ a (String.◌∷◌ b (String.◌∷◌ c String.[])) in
    (
      head <> u,
      v,
      (
        head,
        u,
        (
          String.◌∷◌ a (String.◌∷◌ b String.[]),
          String.◌∷◌ c String.[],
          Two-of_pair a b (ground arith) (ground arith),
          (c, ground arith, refl),
          sym (two-append a b _),
        ),
        pairs,
        refl,
      ),
      last,
      ap (λ (t : String). String.◌∷◌ a (String.◌∷◌ b (String.◌∷◌ c t))) e
          ∙ sym (three-append a b c (u <> v))
          ∙ sym (append_assoc head u v),
    )
hex_pairs-to _ _ h = absurd (cc)

hex_pairs-from : (k : ℕ) (s : String) → Matches (mac_regexp k) s → hex_pairs k s ≡ true
unfolding hex_pairs
hex_pairs-from zero s (u, v, e, last, p) =
    let (a, b, q, h, k) = pair_of_Two v last in
    rw (p, e, nil-append, q, hex_pairs) (ground (arith, h, k))
hex_pairs-from (suc k) s (u, v, (x, y, (w, z, pair, (c, dash, r), t), pairs, e), last, p) =
    let (a, b, q, h, l) = pair_of_Two w pair in
    let rest = hex_pairs-from k (y <> v) (y, v, pairs, last, refl) in
    subst (λ (text : String). hex_pairs (suc k) text ≡ true)
      (sym (
        p
        ∙ ap (λ (i : String). i <> v) (e ∙ ap (λ (i : String). i <> y) (t ∙ joined q r))
        ∙ three a b c y v))
      (ground (arith, h, l, dash, rest))
  where
    three :
        (a b c : Char) (y v : String)
        → (String.◌∷◌ a (String.◌∷◌ b (String.◌∷◌ c String.[])) <> y) <> v
          ≡ String.◌∷◌ a (String.◌∷◌ b (String.◌∷◌ c (y <> v)))
    three a b c y v = append_assoc _ y v ∙ three-append a b c (y <> v)

    joined :
        {a b c : Char} {w z : String}
        → w ≡ String.◌∷◌ a (String.◌∷◌ b String.[])
        → z ≡ String.◌∷◌ c String.[]
        → w <> z ≡ String.◌∷◌ a (String.◌∷◌ b (String.◌∷◌ c String.[]))
    joined {a} {b} {c} q r = rw (q, r) (two-append a b (String.◌∷◌ c String.[]))

-- The checks that the handlers make of an address and of a name are what the two regular expressions
-- say, operator by operator: each text passes exactly if the expression matches it.
pub patterns-Matches :
    (s : String)
    → ((mac_matches s ≡ true) ↔ Matches (mac_regexp 5) s)
      × ((name_matches s ≡ true) ↔ Matches name_regexp s)
unfolding mac_matches
patterns-Matches s =
    ((hex_pairs-to 5 s, hex_pairs-from 5 s), (name_matches-to s, name_matches-from s))
