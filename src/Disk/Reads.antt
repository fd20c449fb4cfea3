-- ===== src/Disk/Reads.antt =====
-- What the calls that only read return, and that they change nothing but the schedule.
use isoboot.Prelude.{
  ℕ, ◌≡◌, refl, ◌∙◌, Option, none, some, List, [], ◌∷◌, ok, arith, lookup, sym, texts_eq,
}
use isoboot.Paths.{FilePath}
use isoboot.Exec.Ensures.{IsPreorder, Follows}
use isoboot.Disk.State.{Disk, target_of, real_path}
use isoboot.Disk.Calls.{
  Os, serve, or_io_error, attempt, open_file, open_now, read, read_now, stat, stat_now,
}
use isoboot.Disk.Schedule.{Follows-attempt}
use isoboot.Disk.Effects.{content_of, Holds}
use isoboot.Disk.Content.{content_at}

-- All paths name what they named.
abbrev pub SameNodes : Disk → Disk → Type 0
SameNodes d e = e.nodes ≡ d.nodes

pub SameNodes-IsPreorder : IsPreorder SameNodes
SameNodes-IsPreorder = record { same = λ d. refl; then_ = λ d e f p q. q ∙ p }

attempt-SameNodes :
    {A : Type 0} (call : Os A)
    → ((d : Disk) → SameNodes d (call d).1)
    → Follows SameNodes (attempt call)
attempt-SameNodes call h =
    Follows-attempt SameNodes SameNodes-IsPreorder (record { blind = λ d e fs p. p }) call
      (record { at = h })

pub open_file-SameNodes : (path : FilePath) → Follows SameNodes (open_file path)
unfolding open_file
open_file-SameNodes path = attempt-SameNodes (open_now path) λ d. ground arith

pub read-SameNodes : (path : FilePath) → Follows SameNodes (read path)
unfolding read
read-SameNodes path = attempt-SameNodes (read_now path) λ d. ground arith

pub stat-SameNodes : (path : FilePath) → Follows SameNodes (stat path)
unfolding stat
stat-SameNodes path = attempt-SameNodes (stat_now path) λ d. ground arith

-- A call that returns without an error has run in a state that differs in the schedule only.
module _ {A : Type 0} (call : Os A) (a : A) where
  serve-ran :
      (faults : List (Option ℕ)) (d : Disk)
      → (serve (or_io_error call) faults d).0 ≡ ok a
      → (e : Disk) × (e.nodes ≡ d.nodes) × ((call e).0 ≡ ok a)
  serve-ran [] d h = (d, refl, h)
  serve-ran (none ∷ rest) d h = (record d { faults = rest }, refl, h)
  serve-ran (some n ∷ rest) d h = cc

  pub attempt-ran :
      (d : Disk)
      → (attempt call d).0 ≡ ok a
      → (e : Disk) × (e.nodes ≡ d.nodes) × ((call e).0 ≡ ok a)
  attempt-ran d = serve-ran d.faults d

open_now-target : (path p : FilePath) (d : Disk) → (open_now path d).0 ≡ ok p → p ≡ target_of d path
unfolding open_file
open_now-target path p d h = ground arith

read_now-content :
    (path : FilePath) (bytes : List ℕ) (d : Disk)
    → (read_now path d).0 ≡ ok bytes
    → content_at d path ≡ some bytes
unfolding read
read_now-content path bytes d h = ground arith

pub target_of-SameNodes :
    (path : FilePath) (d e : Disk) → SameNodes d e → target_of e path ≡ target_of d path
unfolding target_of
target_of-SameNodes path d e same = λ i. real_path 40 (same i) path

pub content_at-SameNodes :
    (path : FilePath) (d e : Disk) → SameNodes d e → content_at e path ≡ content_at d path
content_at-SameNodes path d e same = λ i. content_of (lookup path (same i))

-- An opened path is where the links lead.
pub open_file-target :
    (path p : FilePath) (d : Disk)
    → (open_file path d).0 ≡ ok p
    → p ≡ target_of (open_file path d).1 path
unfolding open_file
open_file-target path p d h =
    let (e, same, ran) = attempt-ran (open_now path) p d h in
    open_now-target path p e ran
    ∙ target_of-SameNodes path d e same
    ∙ sym (target_of-SameNodes path d (open_file path d).1 ((open_file-SameNodes path).at d))

pub read-content :
    (path : FilePath) (bytes : List ℕ) (d : Disk)
    → (read path d).0 ≡ ok bytes
    → content_at (read path d).1 path ≡ some bytes
unfolding read
read-content path bytes d h =
    let (e, same, ran) = attempt-ran (read_now path) bytes d h in
    content_at-SameNodes path d (read path d).1 ((read-SameNodes path).at d)
    ∙ sym (content_at-SameNodes path d e same)
    ∙ read_now-content path bytes e ran

-- A path that names a regular file leads to itself.
pub target_of-Holds :
    (path : FilePath) (bytes : List ℕ) (d : Disk) → Holds path bytes d → target_of d path ≡ path
unfolding target_of
target_of-Holds path bytes d h = ground arith
