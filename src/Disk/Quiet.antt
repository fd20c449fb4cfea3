-- ===== src/Disk/Quiet.antt =====
-- Calls that succeed where the schedule has no failure left and the paths are free.
use isoboot.Prelude.{
  ℕ, String, length, ◌≡◌, ◌≤◌, refl, ◌∙◌, sym, subst, ◌⊎◌, inl, inr, Option, none, some, true, List,
  [], ◌∷◌, Result, ok, err, texts_eq, lookup-insert, lookup-keep, arith,
}
use isoboot.Paths.{FilePath, dir}
use isoboot.Errors.{is_not_exist}
use isoboot.Exec.{fail}
use isoboot.Exec.Ensures.{Ensures, Ensures-check}
use isoboot.Disk.State.{Node, File, file, directory, Disk, is_directory, real_path, target_of}
use isoboot.Disk.Calls.{
  Os, serve, or_io_error, attempt, stat, open_file, read, create, copy, rename, remove, mkdir_all,
  sync, stat_now, open_now, read_now, copy_now, rename_now, remove_now, mkdir_now, mkdir_last,
}
use isoboot.Disk.Frame.{node_at, Same, mkdir_now-Leaves}
use isoboot.Disk.Effects.{Holds, content_of}
use isoboot.Disk.Tree.{below-false}

-- No call fails any more but for what it finds.
abbrev pub Quiet : Disk → Type 0
Quiet d = d.faults ≡ []

abbrev pub IsFile : FilePath → Disk → Type 0
IsFile path d = (f : File) × (node_at d path ≡ some (file f))

abbrev pub IsDirectory : FilePath → Disk → Type 0
IsDirectory path d = (m : ℕ) × (node_at d path ≡ some (directory m))

-- A file can be written to the path: nothing stands there, or a file.
abbrev pub IsFree : FilePath → Disk → Type 0
IsFree path d = (node_at d path ≡ none) ⊎ IsFile path d

-- The call succeeds, and the schedule stays without a failure.
abbrev pub Passes : {A : Type 0} → Result A → Disk → Type 0
Passes r t = ((a : _) × (r ≡ ok a)) × Quiet t

serve-quiet :
    {A : Type 0} (call : Os A) (post : Result A → Disk → Type 0) (faults : List (Option ℕ))
    (d : Disk)
    → faults ≡ []
    → post (call d).0 (call d).1
    → post (serve (or_io_error call) faults d).0 (serve (or_io_error call) faults d).1
serve-quiet call post [] d h p = p
serve-quiet call post (x ∷ faults) d h p = absurd (cc)

pub attempt-quiet :
    {A : Type 0} (call : Os A) (post : Result A → Disk → Type 0) (d : Disk)
    → Quiet d
    → post (call d).0 (call d).1
    → Ensures (attempt call) d post
attempt-quiet call post d h p = record { holds = serve-quiet call post d.faults d h p }

pub sync-Passes : (d : Disk) → Quiet d → Ensures sync d Passes
unfolding sync
sync-Passes d h = attempt-quiet _ Passes d h ((tt, refl), h)

is_directory-IsDirectory :
    (path : FilePath) (d : Disk) → IsDirectory path d → is_directory d.nodes path ≡ true
unfolding is_directory
is_directory-IsDirectory [] d h = refl
is_directory-IsDirectory (name ∷ up) d (m, h) = ground arith

target_of-IsFile : (path : FilePath) (d : Disk) → IsFile path d → target_of d path ≡ path
unfolding target_of real_path
target_of-IsFile path d (f, h) = ground arith

-- `stat` finds a file, or tells that there is nothing.
pub stat-file :
    (path : FilePath) (d : Disk) → Quiet d → IsFile path d → Ensures (stat path) d Passes
unfolding stat stat_now
stat-file path d h (f, e) =
    attempt-quiet (stat_now path) Passes d h
      (rw (target_of-IsFile path d (f, e), stat_now) (rw (e, stat_now) ((f.modified, refl), h)))

abbrev pub IsMissing : {A : Type 0} → Disk → Result A → Disk → Type 0
IsMissing d (ok a) t = ⊥
IsMissing d (err e) t = (is_not_exist e ≡ true) × (t ≡ d)

pub stat-IsMissing :
    (path : FilePath) (d : Disk)
    → Quiet d
    → node_at d path ≡ none
    → Ensures (stat path) d (IsMissing d)
unfolding stat stat_now target_of real_path is_not_exist
stat-IsMissing path d h e = attempt-quiet (stat_now path) (IsMissing d) d h (ground arith)

pub create-Passes :
    (path : FilePath) (d : Disk)
    → Quiet d
    → IsFree path d
    → IsDirectory (dir path) d
    → Ensures (create path) d Passes
unfolding create
create-Passes path d h (inl e) k = attempt-quiet _ Passes d h (
  (tt, ground (arith, is_directory-IsDirectory (dir path) d k)),
  ground (arith, is_directory-IsDirectory (dir path) d k),
)
create-Passes path d h (inr (f, e)) k =
    attempt-quiet _ Passes d h ((tt, ground arith), ground arith)

pub copy-Passes :
    (path : FilePath) (bytes : List ℕ) (d : Disk) → Quiet d → Ensures (copy path bytes) d Passes
unfolding copy
copy-Passes path bytes d h = record { holds = served d.faults h }
  where
    served :
        (faults : List (Option ℕ))
        → faults ≡ []
        → Passes (serve (copy_now path bytes) faults d).0 (serve (copy_now path bytes) faults d).1
    served [] e = ((tt, ground arith), ground arith)
    served (x ∷ faults) e = absurd (cc)

pub rename-Passes :
    (old new : FilePath) (d : Disk)
    → Quiet d
    → IsFile old d
    → IsFree new d
    → Ensures (rename old new) d Passes
unfolding rename rename_now
rename-Passes old new d h (f, e) (inl k) =
    attempt-quiet _ Passes d h ((tt, ground arith), ground arith)
rename-Passes old new d h (f, e) (inr (g, k)) =
    attempt-quiet _ Passes d h ((tt, ground arith), ground arith)

-- Whether it removes something or not, a removal meets no failure of the schedule.
pub remove-Quiet : (path : FilePath) (d : Disk) → Quiet d → Quiet (remove path d).1
unfolding remove
remove-Quiet path d h = (attempt-quiet (remove_now path) (λ r t. Quiet t) d h (ground arith)).holds

-- What is opened and then read.
abbrev pub Opens : FilePath → Result FilePath → Disk → Type 0
Opens path r t = (r ≡ ok path) × Quiet t

target_of-IsDirectory : (path : FilePath) (d : Disk) → IsDirectory path d → target_of d path ≡ path
unfolding target_of real_path
target_of-IsDirectory path d (m, h) = ground arith

pub open_file-Opens :
    (path : FilePath) (d : Disk) → Quiet d → IsFile path d → Ensures (open_file path) d (Opens path)
unfolding open_file open_now
open_file-Opens path d h (f, e) =
    let same = target_of-IsFile path d (f, e) in
    attempt-quiet (open_now path) (Opens path) d h (rw (same, open_now) (ground arith))

pub open_directory-Opens :
    (path : FilePath) (d : Disk)
    → Quiet d
    → IsDirectory path d
    → Ensures (open_file path) d (Opens path)
unfolding open_file open_now
open_directory-Opens path d h (m, e) =
    let same = target_of-IsDirectory path d (m, e) in
    attempt-quiet (open_now path) (Opens path) d h (rw (same, open_now) (ground arith))

pub read-Passes :
    (path : FilePath) (d : Disk) → Quiet d → IsFile path d → Ensures (read path) d Passes
unfolding read read_now
read-Passes path d h (f, e) =
    attempt-quiet (read_now path) Passes d h ((f.content, ground arith), ground arith)

-- Each directory up to the path is there, or nothing is in its place.
unfoldable pub OpenWay : FilePath → Disk → Type 0
OpenWay [] d = Unit
OpenWay (name ∷ up) d = OpenWay up d × ((node_at d (name ∷ up) ≡ none) ⊎ IsDirectory (name ∷ up) d)

-- The directory was made, or was there.
abbrev pub Made : FilePath → Result (Unit {0}) → Disk → Type 0
Made path r t = (r ≡ ok tt) × Quiet t × IsDirectory path t

mkdir_last-Made :
    (name : String) (up : FilePath) (d : Disk)
    → Quiet d
    → (node_at d (name ∷ up) ≡ none) ⊎ IsDirectory (name ∷ up) d
    → Ensures (mkdir_last (name ∷ up)) d (Made (name ∷ up))
unfolding mkdir_last is_directory real_path
mkdir_last-Made name up d h (inl e) = record {
  holds = (ground arith, ground arith, (d.clock, grind (arith, lookup-insert)));
}
mkdir_last-Made name up d h (inr (m, e)) = record {
  holds = (ground arith, ground arith, (m, ground arith));
}

-- The way up to the path's directory stays open, and the path as it was.
mkdir_step :
    (name : String) (up : FilePath) (d : Disk)
    → (node_at d (name ∷ up) ≡ none) ⊎ IsDirectory (name ∷ up) d
    → Ensures (mkdir_now up) d (λ r t. (r ≡ ok tt) × Quiet t)
    → Ensures (mkdir_now (name ∷ up)) d (Made (name ∷ up))
unfolding mkdir_now
mkdir_step name up d l h =
    Ensures-check {m = mkdir_now up} {handler = fail} {rest = λ _. mkdir_last (name ∷ up)}
      (λ r t. (r ≡ ok tt) × Quiet t × Same (name ∷ up) d t)
      (record {
        holds = (
          h.holds.0,
          h.holds.1,
          (mkdir_now-Leaves (name ∷ up) up (below-false (name ∷ up) up (omega arith))).at d,
        );
      })
      (λ e t k. absurd (cc))
      (λ _ t k.
        mkdir_last-Made name up t k.1
          (elim l [ inl e ↦ inl (k.2 ∙ e) | inr (m, e) ↦ inr (m, k.2 ∙ e) ]))

mkdir_now-Passes :
    (path : FilePath) (d : Disk)
    → Quiet d
    → OpenWay path d
    → Ensures (mkdir_now path) d (λ r t. (r ≡ ok tt) × Quiet t)
unfolding mkdir_now OpenWay
mkdir_now-Passes [] d h k = record { holds = (refl, h) }
mkdir_now-Passes (name ∷ up) d h (k, l) =
    let made = mkdir_step name up d l (mkdir_now-Passes up d h k) in
    record { holds = (made.holds.0, made.holds.1) }

pub mkdir_all-Made :
    (name : String) (up : FilePath) (d : Disk)
    → Quiet d
    → OpenWay (name ∷ up) d
    → Ensures (mkdir_all (name ∷ up)) d (Made (name ∷ up))
unfolding mkdir_all OpenWay
mkdir_all-Made name up d h (k, l) =
    attempt-quiet (mkdir_now (name ∷ up)) (Made (name ∷ up)) d h
      (mkdir_step name up d l (mkdir_now-Passes up d h k)).holds

-- A way stays open where nothing on it changes.
pub OpenWay-Same :
    (path : FilePath) (d t : Disk)
    → ((p : FilePath) → length p ≤ length path → Same p d t)
    → OpenWay path d
    → OpenWay path t
unfolding OpenWay
OpenWay-Same [] d t h k = tt
OpenWay-Same (name ∷ up) d t h (k, l) = (
  OpenWay-Same up d t (λ p e. h p (omega arith)) k,
  subst (λ (n : Option Node). (n ≡ none) ⊎ ((m : ℕ) × (n ≡ some (directory m))))
      (sym (h (name ∷ up) (omega arith))) l,
)

-- A file that is removed is gone.
pub remove-frees :
    (path : FilePath) (d : Disk) → Quiet d → IsFile path d → node_at (remove path d).1 path ≡ none
unfolding remove
remove-frees path d h (f, e) =
    (attempt-quiet (remove_now path) (λ r t. node_at t path ≡ none) d h
      (grind (arith, lookup-keep))).holds

-- A path that holds bytes has a file.
pub Holds-IsFile : (p : FilePath) (bytes : List ℕ) (d : Disk) → Holds p bytes d → IsFile p d
Holds-IsFile p bytes d h = found (node_at d p) h
  where
    found : (n : Option Node) → content_of n ≡ some bytes → (f : File) × (n ≡ some (file f))
    found (some (file f)) e = (f, refl)
    found none e = absurd (cc)
    found (some _) e = absurd (cc)
