-- ===== src/Config/Concatenated.antt =====
-- What `concatenateFiles` leaves at its destination (internal/controller/bootconfig_controller.go).
use isoboot.Prelude.{
  ℕ, ◌<◌, String, ◌≡◌, ◌≢◌, refl, ◌∙◌, Bool, true, false, List, [], ◌∷◌, ◌++◌, wrap, Result, ok,
  ◌⊎◌, inl, inr, ltb, ◌&&◌, if◌then◌else◌, arith,
}
use isoboot.Paths.{FilePath}
use isoboot.Exec.{pure, fail, check, deferring}
use isoboot.Exec.Ensures.{Ensures, Ensures-check, Ensures-both}
use isoboot.Disk.{Disk, Os, is_under, stat, stat_now, read_dir, remove, create_temp}
use isoboot.Disk.Frame.{Leaves, remove-Leaves, stat-Leaves, read_dir-Leaves, create_temp-Leaves}
use isoboot.Disk.Effects.{Holds, Success, create_temp-Holds}
use isoboot.Disk.Reads.{stat-SameNodes, attempt-ran}
use isoboot.Config.Links.{remove_entries}
use isoboot.Config.Concat.{append_source, write_both, rebuild, concatenate_files}
use isoboot.Config.Contained.{append_source-Leaves}
use isoboot.Config.Frame.{outside-ne, remove_entries-Leaves}
use isoboot.Config.Written.{Leaves-Holds, put_in_place-Holds, append_source-Holds}

-- A path was modified at the time, in a disk that differs in the schedule only.
abbrev pub Modified : FilePath → Disk → ℕ → Type 0
Modified path d m = (e : Disk) × (e.nodes ≡ d.nodes) × ((stat_now path e).0 ≡ ok m)

module _ (temp name : String) (dir src_a src_b : FilePath) (a b : List ℕ) (fresh : temp ≢ name)
    (outside_a : is_under dir src_a ≡ false) (outside_b : is_under dir src_b ≡ false) where
  abbrev tmp : FilePath
  tmp = temp ∷ dir

  abbrev dst : FilePath
  dst = name ∷ dir

  -- The two sources are regular files.
  abbrev pub Sources : Disk → Type 0
  Sources d = Holds src_a a d × Holds src_b b d

  Sources-Leaves :
      {A : Type 0} (m : Os A) (d : Disk)
      → Leaves src_a m
      → Leaves src_b m
      → Sources d
      → Ensures m d (λ _ t. Sources t)
  Sources-Leaves m d h k s = record {
    holds = ((Leaves-Holds src_a a m d h s.0).holds, (Leaves-Holds src_b b m d k s.1).holds);
  }

  write_both-Holds :
      (d : Disk)
      → Holds tmp [] d
      → Sources d
      → Ensures (write_both tmp dst src_a src_b) d (Success (Holds dst (a ++ b)))
  unfolding write_both
  write_both-Holds d h s =
      Ensures-check (λ r t. Success (Holds tmp a) r t × Holds src_b b t)
        (Ensures-both _ _ (append_source-Holds tmp src_a a [] d h s.0) (
          Leaves-Holds src_b b (append_source tmp src_a) d
            (append_source-Leaves src_b tmp (outside-ne dir src_b temp outside_b) src_a) s.1))
        (λ e t _. record { holds = λ p. cc })
        (λ _ t k.
          Ensures-check (Success (Holds tmp (a ++ b)))
            (append_source-Holds tmp src_b b a t (k.0 refl) k.1)
            (λ e u _. record { holds = λ p. cc })
            (λ _ u l. put_in_place-Holds tmp dst (a ++ b) u (l refl)))

  -- The temporary file's removal leaves the destination.
  deferred-Holds :
      (d : Disk)
      → Holds tmp [] d
      → Sources d
      → Ensures
          (deferring (remove tmp) (write_both tmp dst src_a src_b))
          d
          (Success (Holds dst (a ++ b)))
  unfolding deferring
  deferred-Holds d h s = record {
    holds = λ p.
        (Leaves-Holds dst (a ++ b) (remove tmp) (write_both tmp dst src_a src_b d).1
          (remove-Leaves dst tmp (λ e. ground (arith, fresh)))
          ((write_both-Holds d h s).holds p)).holds;
  }

  rebuild-Holds :
      (d : Disk)
      → Sources d
      → Ensures (rebuild temp dst src_a src_b) d (Success (Holds dst (a ++ b)))
  unfolding rebuild
  rebuild-Holds d s =
      Ensures-check (λ _ t. Sources t)
        (Sources-Leaves (read_dir dir) d (read_dir-Leaves src_a dir) (read_dir-Leaves src_b dir) s)
        (λ e t _. record { holds = λ p. cc })
        (λ names t k.
          Ensures-check (λ _ u. Sources u)
            (Sources-Leaves (remove_entries dir names) t
              (remove_entries-Leaves src_a dir outside_a names)
              (remove_entries-Leaves src_b dir outside_b names) k)
            (λ e u l. work u l) (λ _ u l. work u l))
    where
      work :
          (u : Disk)
          → Sources u
          → Ensures
              (check
                (create_temp tmp)
                (λ e. fail (wrap "creating temp file: " e ""))
                (λ _. deferring (remove tmp) (write_both tmp dst src_a src_b)))
              u
              (Success (Holds dst (a ++ b)))
      work u l =
          Ensures-check (λ r v. Success (Holds tmp []) r v × Sources v)
            (Ensures-both _ _ (create_temp-Holds tmp u) (
              Sources-Leaves (create_temp tmp) u
                (create_temp-Leaves src_a tmp (outside-ne dir src_a temp outside_a))
                (create_temp-Leaves src_b tmp (outside-ne dir src_b temp outside_b)) l))
            (λ e v _. record { holds = λ p. cc }) (λ _ v k. deferred-Holds v (k.0 refl) k.1)

  -- The destination was there and newer than both sources, and nothing was changed.
  abbrev pub UpToDate : Disk → Disk → Type 0
  UpToDate d t =
      (t.nodes ≡ d.nodes)
      × (own : ℕ) × (modified_a : ℕ) × (modified_b : ℕ) × Modified dst d own
      × Modified src_a d modified_a
      × Modified src_b d modified_b
      × (modified_a < own)
      × (modified_b < own)

  abbrev Outcome : Disk → Result (Unit {0}) → Disk → Type 0
  Outcome d r t = r ≡ ok tt → Holds dst (a ++ b) t ⊎ UpToDate d t

  rebuild-Outcome : (d t : Disk) → Sources t → Ensures (rebuild temp dst src_a src_b) t (Outcome d)
  rebuild-Outcome d t s = record { holds = λ p. inl ((rebuild-Holds t s).holds p) }

  -- A time that is read is the one of the disk as it was at first.
  stat-Modified :
      (path : FilePath) (d t : Disk)
      → t.nodes ≡ d.nodes
      → Sources t
      → Ensures
          (stat path)
          t
          (λ r u. Sources u × (u.nodes ≡ d.nodes) × ((m : ℕ) → r ≡ ok m → Modified path d m))
  unfolding stat
  stat-Modified path d t same s = record {
    holds = (
      (Sources-Leaves (stat path) t (stat-Leaves src_a path) (stat-Leaves src_b path) s).holds,
      (stat-SameNodes path).at t ∙ same,
      λ m p. let (e, nodes, ran) = attempt-ran (stat_now path) m t p in (e, nodes ∙ same, ran),
    );
  }

  decide :
      (d t : Disk) (own modified_a modified_b : ℕ) (newer : Bool)
      → (newer ≡ true → UpToDate d t)
      → Sources t
      → Ensures (if newer then pure tt else rebuild temp dst src_a src_b) t (Outcome d)
  decide d t own modified_a modified_b true h s = record { holds = λ p. inr (h refl) }
  decide d t own modified_a modified_b false h s = rebuild-Outcome d t s

  -- Where the sources are regular files outside of the directory, a concatenation that succeeds leaves
  -- the first file's bytes and behind them the second's, unless the destination was already newer than
  -- both; then nothing is changed.
  pub concatenate_files-Holds :
      (d : Disk)
      → Sources d
      → (concatenate_files temp dst src_a src_b d).0 ≡ ok tt
      → let d' = (concatenate_files temp dst src_a src_b d).1 in
        Holds dst (a ++ b) d' ⊎ UpToDate d d'
  unfolding concatenate_files
  concatenate_files-Holds d s h =
      (Ensures-check {post = Outcome d} _ (stat-Modified dst d d refl s)
          (λ e t k. rebuild-Outcome d t k.0)
          (λ own t k.
            Ensures-check {post = Outcome d} _ (stat-Modified src_a d t k.1 k.0)
              (λ e u _. record { holds = λ p. cc })
              (λ modified_a u l.
                Ensures-check {post = Outcome d} _ (stat-Modified src_b d u l.1 l.0)
                  (λ e v _. record { holds = λ p. cc })
                  (λ modified_b v m.
                    decide d v own modified_a modified_b (ltb modified_a own && ltb modified_b own)
                      (λ newer. (
                        m.1,
                        own,
                        modified_a,
                        modified_b,
                        k.2 own refl,
                        l.2 modified_a refl,
                        m.2 modified_b refl,
                        ground arith,
                        ground arith,
                      ))
                      m.0)))).holds
        h
