-- ===== src/Disk/Schedule.antt =====
-- Relations between disks that hold along every call of an operation, whatever the schedule.
use isoboot.Prelude.{ℕ, Option, none, some, List, [], ◌∷◌}
use isoboot.Exec.Ensures.{IsPreorder, Follows}
use isoboot.Disk.State.{Disk}
use isoboot.Disk.Calls.{Os, serve, or_io_error, facing, attempt}

-- The schedule does not show in what a path holds.
pub record IsBlind (R : Disk → Disk → Type 0) : Type 0 where
  pub blind : (d e : Disk) (faults : List (Option ℕ)) → R (record d { faults = faults }) e → R d e

module _ {A : Type 0} (R : Disk → Disk → Type 0) (p : IsPreorder R) (b : IsBlind R) where
  serve-Follows :
      (call : Option ℕ → Os A)
      → ((fault : Option ℕ) (d : Disk) → R d (call fault d).1)
      → (faults : List (Option ℕ)) (d : Disk) → R d (serve call faults d).1
  serve-Follows call h [] d = h none d
  serve-Follows call h (fault ∷ rest) d = b.blind d _ rest (h fault (record d { faults = rest }))

  pub Follows-facing :
      (call : Option ℕ → Os A)
      → ((fault : Option ℕ) (d : Disk) → R d (call fault d).1)
      → Follows R (facing call)
  Follows-facing call h = record { at = λ d. serve-Follows call h d.faults d }

  or_io_error-Follows :
      (call : Os A)
      → Follows R call
      → (fault : Option ℕ) (d : Disk) → R d (or_io_error call fault d).1
  or_io_error-Follows call h none d = h.at d
  or_io_error-Follows call h (some n) d = p.same d

  pub Follows-attempt : (call : Os A) → Follows R call → Follows R (attempt call)
  Follows-attempt call h = record {
    at = λ d. serve-Follows (or_io_error call) (or_io_error-Follows call h) d.faults d;
  }
