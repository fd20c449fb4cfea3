-- ===== src/Paths/BaseName.antt =====
-- What `path.Base` returns, and what `path.Join` of three components is split into.
use Prim.Native.Char.{Char, code}
use text.Mathlib.TextLemmas.{nil-append, cons-append, cons-ne-nil, append-ne-nil_of_right_ne-nil}
use mathlib.Core.Logic.{if_neg}
use isoboot.Prelude.{String, ◌<>◌, ◌≡◌, refl, ◌∙◌, ◌≢◌, List, [], ◌∷◌, ◌++◌, arith, ap}
use isoboot.Prelude.{
  ◌⊎◌, inl, inr, ◌==◌, string_eq, nat_eq, if◌then◌else◌, All, Bool-cases, false, true,
}
use mathlib.Core.List.{reverse}
use isoboot.Paths.{
  FilePath, cons_head, split, last_piece, base, join, join_text, join_relative, intercalate,
  parts_of,
}
use isoboot.Paths.Safety.{
  NoSlash, IsName, split-NoSlash, split_of_NoSlash, parts_of-IsName, resolve_all-IsName,
}

last_piece-NoSlash :
    (found : String) (parts : List String)
    → (found ≡ "/") ⊎ NoSlash found
    → All NoSlash parts
    → (last_piece found parts ≡ "/") ⊎ NoSlash (last_piece found parts)
unfolding last_piece
last_piece-NoSlash found [] h k = h
last_piece-NoSlash found (part ∷ parts) h (k, ks) =
    ground (arith, last_piece-NoSlash found parts h ks, last_piece-NoSlash part parts (inr k) ks)

dot-NoSlash : NoSlash "."
dot-NoSlash = (omega arith, tt)

-- The base of any path is "/" or holds no slash.
pub base-NoSlash : (path : String) → (base path ≡ "/") ⊎ NoSlash (base path)
unfolding base
base-NoSlash path = elim (Bool-cases (path == "")) [
  | inl e ↦ rw e (inr dot-NoSlash)
  | inr e ↦ rw e (last_piece-NoSlash "/" (split path) (inl refl) (split-NoSlash path))
]

split-ne-nil : (s : String) → split s ≢ []
unfolding split
split-ne-nil String.[] h = cc
split-ne-nil (String.◌∷◌ c s) h = go (split s) (ground arith)
  where
    go : (parts : List String) → (if code c == b'/' then "" ∷ parts else cons_head c parts) ≡ [] → ⊥
    go [] h = ground arith
    go (p ∷ ps) h = ground arith

cons_head-append :
    (c : Char) (xs ys : List String) → xs ≢ [] → cons_head c (xs ++ ys) ≡ cons_head c xs ++ ys
cons_head-append c [] ys h = absurd (h refl)
cons_head-append c (x ∷ xs) ys h = refl

-- A slash between two texts separates their pieces.
pub split-append_slash : (d s : String) → split (d <> ("/" <> s)) ≡ split d ++ split s
unfolding split
split-append_slash String.[] s = rw (nil-append, cons-append, nil-append) (ground arith)
split-append_slash (String.◌∷◌ c d) s = rw cons-append (
    ground (arith, split-append_slash d s, cons_head-append c (split d) (split s) (split-ne-nil d)))

last_piece-append_name :
    (found name : String) (parts : List String)
    → name ≢ ""
    → last_piece found (parts ++ name ∷ []) ≡ name
unfolding last_piece
last_piece-append_name found name [] h = ground arith
last_piece-append_name found name (part ∷ parts) h =
    last_piece-append_name (if part == "" then found else part) name parts h

append-slash-ne-nil : (d s : String) → (d <> ("/" <> s)) ≢ ""
append-slash-ne-nil d s =
    append-ne-nil_of_right_ne-nil d (λ e. cons-ne-nil _ _ (rw cons-append at e))

-- The base of a path is its last component.
pub base-append_name : (d name : String) → IsName name → base (d <> ("/" <> name)) ≡ name
unfolding base
base-append_name d name h =
    let shown : split (d <> ("/" <> name)) ≡ split d ++ name ∷ [] =
      split-append_slash d name ∙ ap (λ x. split d ++ x) (split_of_NoSlash name h.no_slash) in
    elim (string_eq.dec (d <> ("/" <> name)) "") [
      | yes e ↦ absurd (append-slash-ne-nil d name e)
      | no n ↦ rw (if_neg _ n) (rw shown (last_piece-append_name "/" name (split d) h.not_empty))
    ]

join_text-split :
    (a b c : String)
    → All IsName (a ∷ b ∷ c ∷ [])
    → split (join_text (a ∷ b ∷ c ∷ [])) ≡ a ∷ b ∷ c ∷ []
unfolding join_text join_relative intercalate
join_text-split a b c (h, (k, (l, t))) =
    ap (λ (names : FilePath). split (intercalate (reverse names))) (joined (h, (k, (l, t))))
    ∙ split-append_slash a (b <> ("/" <> c))
    ∙ rw
        (
          split_of_NoSlash a h.no_slash,
          split-append_slash b c,
          split_of_NoSlash b k.no_slash,
          split_of_NoSlash c l.no_slash,
        )
        refl
  where
    joined : All IsName (a ∷ b ∷ c ∷ []) → join_relative (a ∷ b ∷ c ∷ []) ≡ c ∷ b ∷ a ∷ []
    joined hs =
        rw (parts_of-IsName (a ∷ b ∷ c ∷ []) hs, join_relative)
          (resolve_all-IsName false [] (a ∷ b ∷ c ∷ []) hs)

-- Three components that are joined as a text and then below a directory.
pub join-join_text :
    (dir : FilePath) (a b c : String)
    → All IsName (a ∷ b ∷ c ∷ [])
    → join dir (join_text (a ∷ b ∷ c ∷ []) ∷ []) ≡ c ∷ b ∷ a ∷ dir
unfolding join parts_of
join-join_text dir a b c h =
    rw (join_text-split a b c h) (resolve_all-IsName true dir (a ∷ b ∷ c ∷ []) h)
