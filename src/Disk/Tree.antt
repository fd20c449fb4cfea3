-- ===== src/Disk/Tree.antt =====
-- Trees of directories by the lengths of paths.
use isoboot.Prelude.{
  ◌+◌, ◌≤◌, ◌≡◌, true, false, [], ◌∷◌, length, ap, arith, texts_eq, ==-true, ◌==◌, Bool-cases, inl,
  inr,
}
use isoboot.Paths.{FilePath}
use isoboot.Disk.State.{is_under}

is_under-length : (root path : FilePath) → is_under root path ≡ true → length root ≤ length path
unfolding is_under
is_under-length root [] h = omega (arith, ap length (==-true root [] h))
is_under-length root (name ∷ up) h = elim (Bool-cases (root == name ∷ up)) [
  | inl e ↦ omega (arith, ap length (==-true root (name ∷ up) e))
  | inr e ↦ omega (arith, is_under-length root up (ground arith))
]

-- A tree does not reach up to a shorter path.
pub below-false :
    (root path : FilePath) → length path + 1 ≤ length root → is_under root path ≡ false
below-false root path h = elim (Bool-cases (is_under root path)) [
  | inl e ↦ absurd (omega (arith, is_under-length root path e))
  | inr e ↦ e
]
