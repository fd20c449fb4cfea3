-- ===== src/Artifact/Backoff.antt =====
-- How long `setFailure` waits (internal/controller/bootartifact_controller.go).
use isoboot.Prelude.{
  ℕ, ◌+◌, ◌*◌, ◌^◌, ◌<◌, ◌≤◌, min, suc, zero, String, none, some, ◌≡◌, refl, wrap, plain, Result,
  ok, err, arith, subst, ◌∙◌, Option,
}
use isoboot.Api.{BootArtifact, BootArtifactPhase}
use isoboot.Client.{Client}
use isoboot.Exec.{fail, branch}
use isoboot.World.{Outside, World, Requeue, on_api}
use isoboot.Artifact.Status.{int32_sign, next_count, backoff, requeue_of, set_failure}

shift-bounds : (k : ℕ) → 0 < k → k ≤ 6 → (10 ≤ 2 ^ k * 5) × (2 ^ k * 5 ≤ 320)
shift-bounds zero h l = absurd (omega arith)
shift-bounds (suc zero) h l = (omega arith, omega arith)
shift-bounds (suc (suc zero)) h l = (omega arith, omega arith)
shift-bounds (suc (suc (suc zero))) h l = (omega arith, omega arith)
shift-bounds (suc (suc (suc (suc zero)))) h l = (omega arith, omega arith)
shift-bounds (suc (suc (suc (suc (suc zero))))) h l = (omega arith, omega arith)
shift-bounds (suc (suc (suc (suc (suc (suc zero)))))) h l = (omega arith, omega arith)
shift-bounds (suc (suc (suc (suc (suc (suc (suc k))))))) h l = absurd (omega arith)

backoff-bounds :
    (n : ℕ)
    → 0 < n
    → n < int32_sign
    → (seconds : ℕ) × (backoff n ≡ some seconds)
      × (10 ≤ seconds)
      × (seconds ≤ 320)
      × (n ≡ 1 → seconds ≡ 10)
      × (6 ≤ n → seconds ≡ 320)
unfolding backoff
backoff-bounds n h k =
    let (low, high) = shift-bounds (min n 6) (omega arith) (omega arith) in
    (2 ^ min n 6 * 5, ground arith, low, high, first, last)
  where
    first : n ≡ 1 → 2 ^ min n 6 * 5 ≡ 10
    first e = rw e refl

    last : 6 ≤ n → 2 ^ min n 6 * 5 ≡ 320
    last l = rw (min-six l) refl
      where
        min-six : 6 ≤ n → min n 6 ≡ 6
        min-six l = omega arith

backoff_negative : (n : ℕ) → int32_sign ≤ n → backoff n ≡ none
unfolding backoff
backoff_negative n h = ground arith

next_count-small : (n : ℕ) → n + 1 ≤ int32_sign → next_count n ≡ n + 1
unfolding next_count
next_count-small n h = omega arith

-- The artifact as a failure is written: the error, its message and time, and the count of failures.
abbrev pub failed_at : Outside → (message : String) → (count : ℕ) → BootArtifact → BootArtifact
failed_at o message count artifact = record artifact {
  status = record artifact.status {
    phase = BootArtifactPhase.error;
    message = message;
    failure_count = count;
    last_failure_time = some o.now;
  };
}

-- The one call that `setFailure` makes, with its answer.
abbrev pub written :
    (C : Client)
    → Outside
    → (message : String) → (count : ℕ) → BootArtifact
    → World C
    → Result (Unit {0}) × C.State
written C o message count artifact w =
    C.update_artifact_status (failed_at o message count artifact) w.api

-- The answer to a write: the error of one that is refused, otherwise what is due.
abbrev pub Answers : Result (Unit {0}) → (Result Requeue → Type 0) → Result Requeue → Type 0
Answers (err e) Due r = r ≡ err (wrap "updating status: " e "")
Answers (ok done) Due r = Due r

-- A time from 10 to 320 seconds: 10 after a first failure, 320 from the sixth on.
abbrev pub IsBackoff : ℕ → Result Requeue → Type 0
IsBackoff count r =
    (seconds : ℕ) × (r ≡ ok (record { after = seconds }))
    × (10 ≤ seconds)
    × (seconds ≤ 320)
    × (count ≡ 1 → seconds ≡ 10)
    × (6 ≤ count → seconds ≡ 320)

abbrev pub IsPanic : Result Requeue → Type 0
IsPanic r = r ≡ err (plain "panic: runtime error: negative shift amount [recovered]")

module _ (C : Client) (o : Outside) (artifact : BootArtifact) (message : String) (w : World C) where
  requeue-Answers :
      (b : Option ℕ) (Due : Result Requeue → Type 0)
      → ((u : World C) → Due (requeue_of C o b u).0)
      → (answer : Result (Unit {0}) × C.State)
      → Answers answer.0 Due
          (branch answer.0
            (λ e. fail (wrap "updating status: " e ""))
            (λ _. requeue_of C o b)
            (record w { api = answer.1 })).0
  requeue-Answers b Due h (ok done, t) = h _
  requeue-Answers b Due h (err e, t) = refl

  requeue-state :
      (b : Option ℕ) (answer : Result (Unit {0}) × C.State)
      → (branch answer.0
          (λ e. fail (wrap "updating status: " e ""))
          (λ _. requeue_of C o b)
          (record w { api = answer.1 })).1
        ≡ record w { api = answer.1 }
  unfolding requeue_of
  requeue-state (some n) (ok done, t) = refl
  requeue-state none (ok done, t) = refl
  requeue-state b (err e, t) = refl

  -- The call writes the count and answers the write.
  abbrev pub Reported : (count : ℕ) → (Result Requeue → Type 0) → Type 0
  Reported count Due =
      Answers (written C o message count artifact w).0 Due (set_failure C o artifact message w).0
      × ((set_failure C o artifact message w).1
          ≡ record w { api = (written C o message count artifact w).1 })

  set_failure-Reported :
      (count : ℕ) (Due : Result Requeue → Type 0)
      → next_count artifact.status.failure_count ≡ count
      → ((u : World C) → Due (requeue_of C o (backoff count) u).0)
      → Reported count Due
  unfolding set_failure isoboot.Exec.check on_api
  set_failure-Reported count Due e h =
      subst (λ (n : ℕ). ((u : World C) → Due (requeue_of C o (backoff n) u).0) → Reported n Due) e
        (λ k. (
          requeue-Answers (backoff (next_count artifact.status.failure_count)) Due k
              (written C o message (next_count artifact.status.failure_count) artifact w),
          requeue-state (backoff (next_count artifact.status.failure_count))
              (written C o message (next_count artifact.status.failure_count) artifact w),
        ))
        h

  -- While the count of failures stays below the largest int32: a failure writes the status with the
  -- error, its message and time, and one failure more, and changes nothing else. If the client takes
  -- the status, another reconciliation is asked for after 10 to 320 seconds, 10 after a first failure
  -- and 320 from the sixth on; if it does not, its error is reported.
  pub set_failure-bounds :
      artifact.status.failure_count + 1 < int32_sign
      → Reported (artifact.status.failure_count + 1) (IsBackoff (artifact.status.failure_count + 1))
  unfolding requeue_of
  set_failure-bounds h = set_failure-Reported _ _ (next_count-small _ (omega arith)) due
    where
      due :
          (u : World C)
          → IsBackoff
              (artifact.status.failure_count + 1)
              (requeue_of C o (backoff (artifact.status.failure_count + 1)) u).0
      due u =
          let (seconds, p, low, high, first, last) =
            backoff-bounds (artifact.status.failure_count + 1) (omega arith) h in
          (seconds, rw p refl, low, high, first, last)

  -- One failure more than an int32 counts: the status is written with the count 2 ^ 31, which an int32
  -- reads as its least number, and once the client has taken it the call ends in the panic of a shift
  -- by a negative number, and no time is asked for; if the client does not take it, its error is
  -- reported.
  pub set_failure-overflow :
      artifact.status.failure_count + 1 ≡ int32_sign → Reported int32_sign IsPanic
  unfolding requeue_of
  set_failure-overflow h =
      set_failure-Reported int32_sign IsPanic (next_count-small _ (omega arith) ∙ h)
        (λ u. rw (backoff_negative int32_sign (omega arith)) refl)
