-- ===== src/Paths/Targets.antt =====
-- Where the relative targets of the boot directory's symbolic links lead, and what keeps a joined
-- path below a directory.
use mathlib.Core.List.{reverse, reverse_aux, reverse-append, reverse-reverse, reverse_aux-eq, tail}
use native.Mathlib.Nat.{zero-add}
use isoboot.Prelude.{
  ℕ, zero, suc, ◌+◌, String, ◌≡◌, refl, ◌∙◌, ◌≢◌, ap, true, false, List, [], ◌∷◌, ◌++◌, arith,
}
use isoboot.Prelude.{string_eq, All}
use isoboot.Paths.{FilePath, resolve, resolve_all, parts_of, join_relative, follow_from}
use isoboot.Paths.Safety.{IsName, parts_of-IsName, resolve_all-IsName}

-- One path lies in the tree of another.
abbrev pub IsBelow : FilePath → FilePath → Type 0
IsBelow root path = (inner : List String) × (path ≡ inner ++ root)

-- A relative path that goes up and then down along names.
abbrev pub up : ℕ → List String → List String
up zero names = names
up (suc k) names = ".." ∷ up k names

parts_of-up : (k : ℕ) (names : List String) → All IsName names → parts_of (up k names) ≡ up k names
unfolding parts_of
parts_of-up zero names h = parts_of-IsName names h
parts_of-up (suc k) names h = ap (λ x. ".." ∷ x) (parts_of-up k names h)

resolve_all-up_relative :
    (k j : ℕ) (names : List String)
    → resolve_all false (up j []) (up k names) ≡ resolve_all false (up (k + j) []) names
unfolding resolve_all string_eq
resolve_all-up_relative zero zero names = refl
resolve_all-up_relative zero (suc j) names = rw zero-add
resolve_all-up_relative (suc k) zero names =
    resolve_all-up_relative k 1 names ∙ ap (λ n. resolve_all false (up n []) names) (omega arith)
resolve_all-up_relative (suc k) (suc j) names =
    resolve_all-up_relative k (suc (suc j)) names
    ∙ ap (λ n. resolve_all false (up n []) names) (omega arith)

-- The target of a link keeps its "..", and the names follow.
pub join_relative-up :
    (k : ℕ) (names : List String)
    → All IsName names
    → join_relative (up k names) ≡ reverse names ++ up k []
unfolding join_relative
join_relative-up k names h = rw (parts_of-up k names h) (
    resolve_all-up_relative k 0 names
    ∙ resolve_all-IsName false (up (k + 0) []) names h
    ∙ ap (λ n. reverse names ++ up n []) (omega arith))

abbrev drop : ℕ → FilePath → FilePath
drop zero path = path
drop (suc k) path = drop k (tail path)

resolve_all-up :
    (k : ℕ) (dir : FilePath) (names : List String)
    → resolve_all true dir (up k names) ≡ resolve_all true (drop k dir) names
unfolding resolve_all string_eq
resolve_all-up zero dir names = refl
resolve_all-up (suc k) dir names = resolve_all-up k (tail dir) names

up-cons_dots : (k : ℕ) (names : List String) → up k (".." ∷ names) ≡ ".." ∷ up k names
up-cons_dots zero names = refl
up-cons_dots (suc k) names = ap (λ x. ".." ∷ x) (up-cons_dots k names)

reverse_aux-up : (k : ℕ) (names : List String) → reverse_aux (up k []) names ≡ up k names
reverse_aux-up zero names = refl
reverse_aux-up (suc k) names = reverse_aux-up k (".." ∷ names) ∙ up-cons_dots k names

reverse-up : (k : ℕ) (names : List String) → reverse (reverse names ++ up k []) ≡ up k names
reverse-up k names = rw (reverse-append, reverse-reverse, ← reverse_aux-eq) (reverse_aux-up k names)

-- Followed from a directory, such a target leads to the names below the directory k levels up.
pub follow_from-up :
    (k : ℕ) (dir : FilePath) (names : List String)
    → All IsName names
    → follow_from dir (join_relative (up k names)) ≡ reverse names ++ drop k dir
unfolding follow_from
follow_from-up k dir names h =
    rw (join_relative-up k names h, reverse-up k names)
      (resolve_all-up k dir names ∙ resolve_all-IsName true (drop k dir) names h)

-- A component that is not ".." stays below the root.
resolve-IsBelow :
    (root stack : FilePath) (part : String)
    → part ≢ ".."
    → IsBelow root stack
    → IsBelow root (resolve true stack part)
unfolding resolve
resolve-IsBelow root stack part h (inner, e) = elim (string_eq.dec part "") [
  | yes p ↦ (inner, ground arith)
  | no n ↦ elim (string_eq.dec part ".") [
    | yes p ↦ (inner, ground arith)
    | no m ↦ (part ∷ inner, ground arith)
  ]
]

-- Components without ".." never lead out of the directory.
pub resolve_all-IsBelow :
    (root stack : FilePath) (parts : List String)
    → All (λ part. part ≢ "..") parts
    → IsBelow root stack
    → IsBelow root (resolve_all true stack parts)
unfolding resolve_all
resolve_all-IsBelow root stack [] h k = k
resolve_all-IsBelow root stack (part ∷ parts) (h, hs) k =
    resolve_all-IsBelow root (resolve true stack part) parts hs
      (resolve-IsBelow root stack part h k)
