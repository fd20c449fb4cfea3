-- ===== src/Config/Siblings.antt =====
-- The directories of the kernel and of the initrd lie beside each other.
use isoboot.Prelude.{String, ◌≡◌, ◌≢◌, false, ◌∷◌, length, ap, arith, texts_eq}
use isoboot.Paths.{FilePath}
use isoboot.Disk.{is_under}
use isoboot.Disk.Tree.{below-false}

-- An entry of one directory is outside of the other.
pub sibling-outside :
    (here there entry : String) (base : FilePath)
    → here ≢ there
    → is_under (here ∷ base) (entry ∷ there ∷ base) ≡ false
unfolding is_under
sibling-outside here there entry base apart =
    ground (arith, below-false (here ∷ base) base (omega arith), longer, apart)
  where
    longer : ◌≢◌ {A = FilePath} (here ∷ base) (entry ∷ there ∷ base)
    longer e = absurd (omega (arith, ap length e))
