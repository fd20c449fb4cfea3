-- ===== src/World/Frame.antt =====
-- What a call on one part of the world does to the disk.
use isoboot.Prelude.{String, Result}
use isoboot.Client.{Client}
use isoboot.Disk.{Disk, Os}
use isoboot.Exec.{Exec}
use isoboot.Exec.Ensures.{Ensures, Follows, IsPreorder}
use isoboot.Prelude.{Bool}
use isoboot.World.{World, on_api, on_disk, record_event}

-- A relation between disks, on whole worlds.
abbrev pub OnDisk : {C : Client} → (Disk → Disk → Type 0) → World C → World C → Type 0
OnDisk R w w' = R w.disk w'.disk

module _ {C : Client} {A : Type 0} (R : Disk → Disk → Type 0) where
  pub Follows-on_disk : (m : Os A) → Follows R m → Follows (OnDisk {C = C} R) (on_disk m)
  unfolding on_disk
  Follows-on_disk m h = record { at = λ w. h.at w.disk }

  pub Follows-on_api : IsPreorder R → (m : Exec C.State A) → Follows (OnDisk {C = C} R) (on_api m)
  unfolding on_api
  Follows-on_api p m = record { at = λ w. p.same w.disk }

module _ {C : Client} (R : Disk → Disk → Type 0) (p : IsPreorder R) where
  pub OnDisk-IsPreorder : IsPreorder (OnDisk {C = C} R)
  OnDisk-IsPreorder = record { same = λ w. p.same w.disk; then_ = λ s t u h k. p.then_ _ _ _ h k }

  pub Follows-record_event :
      (has_recorder : Bool) (text : String)
      → Follows (OnDisk {C = C} R) (record_event has_recorder text)
  unfolding record_event
  Follows-record_event has_recorder text = record { at = λ w. p.same w.disk }

pub Ensures-on_disk :
    {C : Client} {A : Type 0} (m : Os A) (w : World C) (post : Result A → Disk → Type 0)
    → Ensures m w.disk post
    → Ensures (on_disk m) w (λ r t. post r t.disk)
unfolding on_disk
Ensures-on_disk m w post h = record { holds = h.holds }
