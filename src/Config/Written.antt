-- ===== src/Config/Written.antt =====
-- What a file holds that is written beside its place and then put there
-- (internal/controller/bootconfig_controller.go, the ends of `concatenateFiles` and `extractFile`).
use mathlib.Core.Option.{some-injective}
use isoboot.Prelude.{ℕ, ◌≡◌, refl, ◌∙◌, ap, sym, subst, List, ◌++◌, ok}
use isoboot.Paths.{FilePath}
use isoboot.Exec.{◌>>=◌}
use isoboot.Exec.Ensures.{Ensures, Ensures-check}
use isoboot.Disk.{Disk, Os, open_file, read, copy, sync}
use isoboot.Disk.Frame.{Leaves, open_file-Leaves, read-Leaves, sync-Leaves}
use isoboot.Disk.Content.{content_at}
use isoboot.Disk.Effects.{content_of, Holds, Success, copy-Holds, rename-Holds, chmod-Holds}
use isoboot.Disk.Reads.{open_file-target, read-content, target_of-Holds}
use isoboot.Config.Concat.{append_source, put_in_place}

-- A call that leaves a path leaves what the file there holds.
pub Leaves-Holds :
    {A : Type 0} (path : FilePath) (bytes : List ℕ) (m : Os A) (d : Disk)
    → Leaves path m
    → Holds path bytes d
    → Ensures m d (λ _ t. Holds path bytes t)
Leaves-Holds path bytes m d h k = record { holds = ap content_of (h.at d) ∙ k }

-- The file at its place holds what the temporary file held.
pub put_in_place-Holds :
    (tmp dst : FilePath) (bytes : List ℕ) (d : Disk)
    → Holds tmp bytes d
    → Ensures (put_in_place tmp dst) d (Success (Holds dst bytes))
unfolding put_in_place
put_in_place-Holds tmp dst bytes d h =
    Ensures-check (λ _ t. Holds tmp bytes t) (Leaves-Holds tmp bytes sync d (sync-Leaves tmp) h)
      (λ e t _. record { holds = λ p. cc })
      (λ _ t k.
        Ensures-check (Success (Holds tmp bytes)) (chmod-Holds tmp 0o444 bytes t k)
          (λ e u _. record { holds = λ p. cc })
          (λ _ u l.
            Ensures-check (Success (Holds dst bytes)) (rename-Holds tmp dst bytes u (l refl))
              (λ e v _. record { holds = λ p. cc }) (λ _ v m. record { holds = λ _. m refl })))

-- A source that is a regular file is appended whole.
pub append_source-Holds :
    (tmp src : FilePath) (bytes old : List ℕ) (d : Disk)
    → Holds tmp old d
    → Holds src bytes d
    → Ensures (append_source tmp src) d (Success (Holds tmp (old ++ bytes)))
unfolding append_source
append_source-Holds tmp src bytes old d h k =
    Ensures-check
      (λ r t. (p : FilePath) → r ≡ ok p → Holds tmp old t × Holds src bytes t × (p ≡ src))
      (record {
        holds = λ p e. (
          (Leaves-Holds tmp old (open_file src) d (open_file-Leaves tmp src) h).holds,
          (Leaves-Holds src bytes (open_file src) d (open_file-Leaves src src) k).holds,
          open_file-target src p d e
              ∙ target_of-Holds src bytes (open_file src d).1
                  (Leaves-Holds src bytes (open_file src) d (open_file-Leaves src src) k).holds,
        );
      })
      (λ e t _. record { holds = λ p. cc })
      (λ opened t l.
        let (held, source, same) = l opened refl in
        Ensures-check (Success (Holds tmp (old ++ bytes))) (copied opened t held source same)
          (λ e u _. record { holds = λ p. cc }) (λ _ u m. record { holds = λ _. m refl }))
  where
    copied :
        (opened : FilePath) (t : Disk)
        → Holds tmp old t
        → Holds src bytes t
        → opened ≡ src
        → Ensures (read opened >>= λ all. copy tmp all) t (Success (Holds tmp (old ++ bytes)))
    copied opened t held source same =
        Ensures-check (λ r u. Holds tmp old u × ((all : List ℕ) → r ≡ ok all → all ≡ bytes))
          (record {
            holds = (
              (Leaves-Holds tmp old (read opened) t (read-Leaves tmp opened) held).holds,
              λ all p. some-injective all bytes (
                  sym (read-content opened all t p)
                  ∙ ap (content_at (read opened t).1) same
                  ∙ (Leaves-Holds src bytes (read opened) t (read-Leaves src opened) source).holds),
            );
          })
          (λ e u _. record { holds = λ p. cc })
          (λ all u m.
            subst (λ (b : List ℕ). Ensures (copy tmp all) u (Success (Holds tmp (old ++ b))))
              (m.1 all refl) (copy-Holds tmp all old u m.0))
