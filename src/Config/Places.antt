-- ===== src/Config/Places.antt =====
-- Where the boot tree's directories and entries are, for names that are proper components.
use text.Mathlib.TextEquality.{eq_iff}
use isoboot.Prelude.{String, ◌≡◌, ◌∙◌, ap, [], ◌∷◌, arith}
use isoboot.Paths.{FilePath, join}
use isoboot.Paths.Safety.{IsName, join-IsName}
use isoboot.Config.Assemble.{boot_dir}

-- The fixed names in the data directory.
pub boot-IsName : IsName "boot"
boot-IsName = record {
  not_empty = ground (arith, eq_iff "boot" "");
  not_dot = ground (arith, eq_iff "boot" ".");
  not_dots = ground (arith, eq_iff "boot" "..");
  no_slash = omega arith;
}

pub kernel-IsName : IsName "kernel"
kernel-IsName = record {
  not_empty = ground (arith, eq_iff "kernel" "");
  not_dot = ground (arith, eq_iff "kernel" ".");
  not_dots = ground (arith, eq_iff "kernel" "..");
  no_slash = omega arith;
}

pub initrd-IsName : IsName "initrd"
initrd-IsName = record {
  not_empty = ground (arith, eq_iff "initrd" "");
  not_dot = ground (arith, eq_iff "initrd" ".");
  not_dots = ground (arith, eq_iff "initrd" "..");
  no_slash = omega arith;
}

pub artifacts-IsName : IsName "artifacts"
artifacts-IsName = record {
  not_empty = ground (arith, eq_iff "artifacts" "");
  not_dot = ground (arith, eq_iff "artifacts" ".");
  not_dots = ground (arith, eq_iff "artifacts" "..");
  no_slash = omega arith;
}

module _ (data_dir : FilePath) (name : String) (named : IsName name) where
  pub boot_dir-path : boot_dir data_dir name ≡ name ∷ "boot" ∷ data_dir
  boot_dir-path = join-IsName data_dir ("boot" ∷ name ∷ []) (boot-IsName, (named, tt))

  pub sub_dir-path :
      (sub : String)
      → IsName sub
      → join (boot_dir data_dir name) (sub ∷ []) ≡ sub ∷ name ∷ "boot" ∷ data_dir
  sub_dir-path sub h =
      ap (λ (d : FilePath). join d (sub ∷ [])) boot_dir-path ∙ join-IsName _ (sub ∷ []) (h, tt)

  pub flat_entry-path :
      (file : String)
      → IsName file
      → join (boot_dir data_dir name) (file ∷ []) ≡ file ∷ name ∷ "boot" ∷ data_dir
  flat_entry-path = sub_dir-path

  pub entry-path :
      (sub file : String)
      → IsName sub
      → IsName file
      → join (join (boot_dir data_dir name) (sub ∷ [])) (file ∷ [])
        ≡ file ∷ sub ∷ name ∷ "boot" ∷ data_dir
  entry-path sub file h k =
      ap (λ (d : FilePath). join d (file ∷ [])) (sub_dir-path sub h)
      ∙ join-IsName _ (file ∷ []) (k, tt)
