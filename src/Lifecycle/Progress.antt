-- ===== src/Lifecycle/Progress.antt =====
-- How often the controllers and the machines can write the status of one Provision.
use isoboot.Prelude.{ℕ, ◌+◌, ◌≤◌, some, ◌≡◌, ◌∙◌, ap, sym, arith}
use isoboot.Api.{Provision, ProvisionPhase, in_progress, complete, provision_phase_eq}
use isoboot.Lifecycle.{
  Server, Intent, start, report, plan, accept, Among, read, write, edit, Reach, here, next,
}
use isoboot.Lifecycle.Invariant.{
  created, IsConsistent, held-Known, current_of_version, plan-version, accept-version,
  accept-server, Reach-IsConsistent,
}

-- How far a phase is on the way from the creation to the end.
unfoldable pub progress : ProvisionPhase → ℕ
progress complete = 3
progress in_progress = 2
progress ProvisionPhase.pending = 1
progress _ = 0

-- The writes that the server has taken on the way.
unfoldable pub writes : {s t : Server} → Reach s t → ℕ
writes here = 0
writes (next r (read _ _ _)) = writes r
writes (next r (write _ _ _ _ _ _ _)) = writes r + 1
writes (next r (edit _ _)) = writes r

progress-bound : (phase : ProvisionPhase) → progress phase ≤ 3
unfolding progress
progress-bound complete = omega arith
progress-bound in_progress = omega arith
progress-bound ProvisionPhase.pending = omega arith
progress-bound _ = omega arith

-- What a caller submits is one step further.
plan-progress :
    (intent : Intent) (p submitted : Provision)
    → plan intent p ≡ some submitted
    → progress submitted.status.phase ≡ progress p.status.phase + 1
unfolding plan progress
plan-progress start p submitted h = ground arith
plan-progress (report now in_progress message) p submitted h = ground arith
plan-progress (report now complete message) p submitted h = ground arith
plan-progress (report now _ message) p submitted h = absurd (ground arith)

-- A write that is taken moves the stored phase one step on.
write-progress :
    (s t : Server) (intent : Intent) (p submitted : Provision)
    → IsConsistent s
    → Among p s.held
    → plan intent p ≡ some submitted
    → accept submitted s ≡ some t
    → progress t.current.status.phase ≡ progress s.current.status.phase + 1
write-progress s t intent p submitted c among planned accepted =
    ap (λ (u : Server). progress u.current.status.phase) (accept-server submitted s t accepted)
    ∙ plan-progress intent p submitted planned
    ∙ ap (λ (q : Provision). progress q.status.phase + 1)
        (current_of_version s.current p (held-Known s.current p s.held c.known among)
          (sym (plan-version intent p submitted planned) ∙ accept-version submitted s t accepted))

-- Each write that is taken is one step of progress, and nothing else is.
writes-progress :
    {s t : Server} (r : Reach s t)
    → IsConsistent s
    → progress s.current.status.phase + writes r ≡ progress t.current.status.phase
unfolding writes
writes-progress here c = omega arith
writes-progress (next r (read t p among)) c = writes-progress r c
writes-progress (next r (write t {t = u} intent p submitted among planned accepted)) c =
    let earlier = writes-progress r c in
    let step =
      write-progress t u intent p submitted (Reach-IsConsistent c r) among planned accepted in
    omega (arith, earlier, step)
writes-progress (next r (edit t spec)) c = writes-progress r c

-- However the reads and writes of the reconciler, the status handler and the users fall, the server
-- takes at most three writes of the status from a provision's creation on, and their number is the
-- number of steps from the first phase to the present one, where Pending is one step from no phase,
-- InProgress two and Complete three.
pub Reach-writes :
    (p : Provision) (s : Server) (r : Reach (created p) s)
    → (writes r ≤ 3) × (progress p.status.phase + writes r ≡ progress s.current.status.phase)
Reach-writes p s r =
    let counted = writes-progress r (record { chain = tt; older = tt; known = tt }) in
    let bound = progress-bound s.current.status.phase in (omega (arith, counted, bound), counted)
