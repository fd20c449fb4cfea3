-- ===== src/Config/Extracted.antt =====
-- What `extractFile` leaves at its destination (internal/controller/bootconfig_controller.go).
use isoboot.Prelude.{
  ℕ, zero, suc, ◌+◌, ◌<◌, ◌≤◌, String, ◌≡◌, ◌≢◌, refl, ◌∙◌, ap, subst, Option, none, some, List, [],
  ◌∷◌, length, wrap, Result, ok, inl, inr, Bool-cases, ltb, arith,
}
use isoboot.Paths.{FilePath}
use isoboot.Exec.{fail, check, deferring}
use isoboot.Exec.Ensures.{Ensures, Ensures-check}
use isoboot.Disk.{Disk, take, remove, create_temp}
use isoboot.Disk.Frame.{remove-Leaves}
use isoboot.Disk.Effects.{Holds, Success, create_temp-Holds, copy-Holds}
use isoboot.Config.Extract.{
  IsoReader, copy_limited, fill, extract_file, max_extracted_file_size, rooted,
}
use isoboot.Config.Written.{Leaves-Holds, put_in_place-Holds}

-- A part that is shorter than the limit is the whole.
take-short : (k : ℕ) (xs : List ℕ) → length (take k xs) < k → take k xs ≡ xs
take-short zero xs h = absurd (omega arith)
take-short (suc k) [] h = refl
take-short (suc k) (x ∷ xs) h = ap (λ r. x ∷ r) (take-short k xs (omega arith))

-- A count below the limit is that of the whole.
whole :
    (tmp : FilePath) (limit : ℕ) (bytes : List ℕ) (n : ℕ) (t : Disk)
    → Holds tmp (take limit bytes) t
    → ◌≡◌ {A = Result ℕ} (ok (length (take limit bytes))) (ok n)
    → n < limit
    → (n ≡ length bytes) × Holds tmp bytes t
whole tmp limit bytes n t h p l =
    let same = take-short limit bytes (ground arith) in
    (ground (arith, same), subst (λ (xs : List ℕ). Holds tmp xs t) same h)

-- A copy that succeeds below the limit has copied the whole entry, which came to its end.
abbrev Copied : FilePath → ℕ → List ℕ → Option String → Result ℕ → Disk → Type 0
Copied tmp limit bytes broken r t =
    (n : ℕ) → r ≡ ok n → n < limit → (broken ≡ none) × (n ≡ length bytes) × Holds tmp bytes t

copy_limited-Copied :
    (tmp : FilePath) (limit : ℕ) (bytes : List ℕ) (broken : Option String) (d : Disk)
    → Holds tmp [] d
    → Ensures (copy_limited tmp limit bytes broken) d (Copied tmp limit bytes broken)
unfolding copy_limited
copy_limited-Copied tmp limit bytes none d h =
    Ensures-check (Success (Holds tmp (take limit bytes)))
      (copy-Holds tmp (take limit bytes) [] d h) (λ e t _. record { holds = λ n p. cc })
      (λ _ t k. record {
        holds = λ n p l. let (m, held) = whole tmp limit bytes n t (k refl) p l in (refl, m, held);
      })
copy_limited-Copied tmp limit bytes (some text) d h =
    Ensures-check (Success (Holds tmp (take limit bytes)))
      (copy-Holds tmp (take limit bytes) [] d h) (λ e t _. record { holds = λ n p. cc })
      (λ _ t k. elim (Bool-cases (ltb (length bytes) limit)) [
        | inl e ↦ rw e (record { holds = λ n p. cc })
        | inr e ↦ rw e (record {
          holds = λ n p l. absurd (ground (arith, (whole tmp limit bytes n t (k refl) p l).0));
        })
      ])

module _ (quote : String → String) (decimal : ℕ → String) (src temp name : String)
    (dir : FilePath) where
  abbrev tmp : FilePath
  tmp = temp ∷ dir

  abbrev dst : FilePath
  dst = name ∷ dir

  -- The entry came to its end, is not too large, and stands at the destination.
  abbrev Whole : List ℕ → Option String → Disk → Type 0
  Whole bytes broken t =
      (broken ≡ none) × (length bytes ≤ max_extracted_file_size) × Holds dst bytes t

  fill-Whole :
      (bytes : List ℕ) (broken : Option String) (d : Disk)
      → Holds tmp [] d
      → Ensures
          (fill quote decimal src tmp dst bytes broken)
          d
          (λ r t. r ≡ ok tt → Whole bytes broken t)
  unfolding fill
  fill-Whole bytes broken d h =
      Ensures-check (Copied tmp (max_extracted_file_size + 1) bytes broken)
        (copy_limited-Copied tmp (max_extracted_file_size + 1) bytes broken d h)
        (λ e t _. record { holds = λ p. cc })
        (λ n t k. elim (Bool-cases (ltb max_extracted_file_size n)) [
          | inl e ↦ rw e (record { holds = λ p. cc })
          | inr e ↦ rw e (record {
            holds = λ p.
                let (ended, size, held) = k n refl (ground arith) in
                (ended, ground (arith, size), (put_in_place-Holds tmp dst bytes t held).holds p);
          })
        ])

  -- Where the reader opens the entry.
  opened-Whole :
      (fresh : temp ≢ name) (bytes : List ℕ) (broken : Option String) (d : Disk)
      → Ensures
          (check
            (create_temp tmp)
            (λ e. fail (wrap "creating temp file: " e ""))
            (λ _. deferring (remove tmp) (fill quote decimal src tmp dst bytes broken)))
          d
          (λ r t. r ≡ ok tt → Whole bytes broken t)
  unfolding deferring
  opened-Whole fresh bytes broken d =
      Ensures-check (Success (Holds tmp [])) (create_temp-Holds tmp d)
        (λ e t _. record { holds = λ p. cc })
        (λ _ t k. record {
          holds = λ p.
              let (ended, size, held) = (fill-Whole bytes broken t (k refl)).holds p in
              (
                ended,
                size,
                (Leaves-Holds dst bytes (remove tmp)
                    (fill quote decimal src tmp dst bytes broken t).1
                    (remove-Leaves dst tmp (λ e. ground (arith, fresh))) held).holds,
              );
        })

  -- An entry of an image that was read to its end, of no more than the largest size, and its bytes
  -- stand at the destination.
  abbrev pub Extracted : (I : IsoReader) → I.Files → Disk → Type 0
  Extracted I files t =
      (bytes : List ℕ) × (I.open_entry files (rooted src) ≡ ok (bytes, none))
      × (length bytes ≤ max_extracted_file_size)
      × Holds dst bytes t

  pub extract_file-Extracted :
      (I : IsoReader) (fresh : temp ≢ name) (files : I.Files) (d : Disk)
      → Ensures
          (extract_file quote decimal I temp files src dst)
          d
          (λ r t. r ≡ ok tt → Extracted I files t)
  unfolding extract_file
  extract_file-Extracted I fresh files d =
      Ensures-check (λ r t. I.open_entry files (rooted src) ≡ r) (record { holds = refl })
        (λ e t q. record { holds = λ p. cc })
        (λ entry t q. record {
          holds = λ p.
              let (ended, size, held) = (opened-Whole fresh entry.0 entry.1 t).holds p in
              (entry.0, q ∙ ap (λ (b : Option String). ok (entry.0, b)) ended, size, held);
        })
