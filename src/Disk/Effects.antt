-- ===== src/Disk/Effects.antt =====
-- What a successful call has done to the path that it was given.
use isoboot.Prelude.{
  ℕ, ◌≡◌, ok, Result, Option, none, some, List, [], ◌∷◌, ◌++◌, texts_eq, lookup-insert, arith,
}
use isoboot.Paths.{FilePath}
use isoboot.Exec.Ensures.{Ensures}
use isoboot.Disk.State.{Node, file, Disk}
use isoboot.Disk.Calls.{
  Os, serve, or_io_error, attempt, create, create_temp, chmod, copy, rename, copy_now,
}
use isoboot.Disk.Frame.{node_at}

-- The content of the regular file at a path.
abbrev pub content_of : Option Node → Option (List ℕ)
content_of (some (file f)) = some f.content
content_of _ = none

abbrev pub Holds : FilePath → List ℕ → Disk → Type 0
Holds path bytes d = content_of (node_at d path) ≡ some bytes

-- What holds of the state after a call that returned no error.
abbrev pub Success : (Disk → Type 0) → Result (Unit {0}) → Disk → Type 0
Success P r d = r ≡ ok tt → P d

module _ (pre post : Disk → Type 0)
    (blind : (d : Disk) (fs : List (Option ℕ)) → pre d → pre (record d { faults = fs })) where
  serve-Success :
      (call : Option ℕ → Os (Unit {0}))
      → ((fault : Option ℕ) (d : Disk) → pre d → Success post (call fault d).0 (call fault d).1)
      → (faults : List (Option ℕ)) (d : Disk) → pre d
      → Success post (serve call faults d).0 (serve call faults d).1
  serve-Success call h [] d p = h none d p
  serve-Success call h (fault ∷ rest) d p = h fault (record d { faults = rest }) (blind d rest p)

  or_io_error-Success :
      (call : Os (Unit {0}))
      → ((d : Disk) → pre d → Success post (call d).0 (call d).1)
      → (fault : Option ℕ) (d : Disk) → pre d
      → Success post (or_io_error call fault d).0 (or_io_error call fault d).1
  or_io_error-Success call h none d p = h d p
  or_io_error-Success call h (some n) d p = λ e. cc

  pub attempt-Success :
      (call : Os (Unit {0}))
      → ((d : Disk) → pre d → Success post (call d).0 (call d).1)
      → (d : Disk) → pre d
      → Ensures (attempt call) d (Success post)
  attempt-Success call h d p = record {
    holds = serve-Success (or_io_error call) (or_io_error-Success call h) d.faults d p;
  }

-- A created file is empty.
pub create-Holds : (path : FilePath) (d : Disk) → Ensures (create path) d (Success (Holds path []))
unfolding create
create-Holds path d =
    attempt-Success (λ d. Unit) (Holds path []) (λ d fs p. tt) _
      (λ d p. grind (arith, lookup-insert)) d tt

-- A copy that returns no error has written all bytes behind what the file held.
pub copy-Holds :
    (path : FilePath) (bytes old : List ℕ) (d : Disk)
    → Holds path old d
    → Ensures (copy path bytes) d (Success (Holds path (old ++ bytes)))
unfolding copy
copy-Holds path bytes old d h = record {
  holds =
      serve-Success (Holds path old) (Holds path (old ++ bytes)) (λ d fs p. p) (copy_now path bytes)
        each d.faults d h;
}
  where
    each :
        (fault : Option ℕ) (d : Disk)
        → Holds path old d
        → Success
            (Holds path (old ++ bytes))
            (copy_now path bytes fault d).0
            (copy_now path bytes fault d).1
    each none d h = grind (arith, lookup-insert)
    each (some n) d h = λ e. cc

-- A renamed file stands at its new path.
pub rename-Holds :
    (old new : FilePath) (bytes : List ℕ) (d : Disk)
    → Holds old bytes d
    → Ensures (rename old new) d (Success (Holds new bytes))
unfolding rename
rename-Holds old new bytes d h =
    attempt-Success (Holds old bytes) (Holds new bytes) (λ d fs p. p) _
      (λ d p. grind (arith, lookup-insert)) d h

-- A temporary file is created empty.
pub create_temp-Holds :
    (path : FilePath) (d : Disk) → Ensures (create_temp path) d (Success (Holds path []))
unfolding create_temp
create_temp-Holds path d =
    attempt-Success (λ d. Unit) (Holds path []) (λ d fs p. tt) _
      (λ d p. grind (arith, lookup-insert)) d tt

-- A mode is set without a change of the content.
pub chmod-Holds :
    (path : FilePath) (mode : ℕ) (bytes : List ℕ) (d : Disk)
    → Holds path bytes d
    → Ensures (chmod path mode) d (Success (Holds path bytes))
unfolding chmod
chmod-Holds path mode bytes d h =
    attempt-Success (Holds path bytes) (Holds path bytes) (λ d fs p. p) _
      (λ d p. grind (arith, lookup-insert)) d h
