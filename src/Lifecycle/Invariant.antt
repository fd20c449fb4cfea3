-- ===== src/Lifecycle/Invariant.antt =====
-- The phases of a Provision follow one another as the program means them to.
use isoboot.Prelude.{
  ℕ, ◌+◌, ◌<◌, ◌≤◌, some, List, [], ◌∷◌, ◌≡◌, refl, ◌⊎◌, inl, inr, All, arith, sym, ◌∙◌, subst,
}
use isoboot.Api.{Provision, ProvisionPhase, in_progress, complete, provision_phase_eq}
use isoboot.Lifecycle.{
  Server, Intent, start, report, plan, version, bump, accept, Among, Step, read, write, edit, Reach,
  here, next,
}

-- The transitions that are allowed between two versions.
pub data Transition : ProvisionPhase → ProvisionPhase → Type 0 where
  stays : {a b : ProvisionPhase} → a ≡ b → Transition a b
  starts :
      {a b : ProvisionPhase}
      → a ≡ ProvisionPhase.unset
      → b ≡ ProvisionPhase.pending
      → Transition a b
  progresses :
      {a b : ProvisionPhase} → a ≡ ProvisionPhase.pending → b ≡ in_progress → Transition a b
  completes : {a b : ProvisionPhase} → a ≡ in_progress → b ≡ complete → Transition a b

-- Each version follows the one before it.
abbrev pub Chain : Provision → List Provision → Type 0
Chain p [] = Unit
Chain p (q ∷ qs) = Transition q.status.phase p.status.phase × Chain q qs

-- What is read is the current version or has an older number.
abbrev pub Known : Provision → Provision → Type 0
Known current p = (p ≡ current) ⊎ (version p < version current)

pub record IsConsistent (s : Server) : Type 0 where
  pub chain : Chain s.current s.past
  pub older : All (λ p. version p < version s.current) s.past
  pub known : All (Known s.current) s.held

pub plan-version :
    (intent : Intent) (p submitted : Provision)
    → plan intent p ≡ some submitted
    → version submitted ≡ version p
unfolding plan
plan-version start p submitted h = ground arith
plan-version (report now target message) p submitted h = ground arith

-- What a caller submits follows the version that it has read.
plan-Transition :
    (intent : Intent) (p submitted : Provision)
    → plan intent p ≡ some submitted
    → Transition p.status.phase submitted.status.phase
unfolding plan
plan-Transition start p submitted h = starts (ground arith) (ground arith)
plan-Transition (report now in_progress message) p submitted h =
    progresses (ground arith) (ground arith)
plan-Transition (report now complete message) p submitted h =
    completes (ground arith) (ground arith)
plan-Transition (report now _ message) p submitted h = absurd (ground arith)

Among-Known :
    (s : Server) (p : Provision)
    → All (λ q. version q < version s.current) s.past
    → Among p (s.current ∷ s.past)
    → Known s.current p
Among-Known s p older (inl e) = inl e
Among-Known s p older (inr among) = inr (among_older s.past older among)
  where
    among_older :
        (qs : List Provision)
        → All (λ q. version q < version s.current) qs
        → Among p qs
        → version p < version s.current
    among_older [] _ h = elim h [ ]
    among_older (q ∷ qs) (h, hs) (inl e) = rw e h
    among_older (q ∷ qs) (h, hs) (inr k) = among_older qs hs k

-- A held copy is known.
pub held-Known :
    (current p : Provision) (held : List Provision)
    → All (Known current) held
    → Among p held
    → Known current p
held-Known current p [] _ h = elim h [ ]
held-Known current p (q ∷ qs) (h, hs) (inl e) = rw e h
held-Known current p (q ∷ qs) (h, hs) (inr k) = held-Known current p qs hs k

older-later :
    (n m : ℕ) (qs : List Provision)
    → n ≤ m
    → All (λ q. version q < n) qs
    → All (λ q. version q < m) qs
older-later n m [] h _ = tt
older-later n m (q ∷ qs) h (k, ks) = (omega arith, older-later n m qs h ks)

-- After a new version the held copies are old.
later-Known :
    (current later : Provision) (held : List Provision)
    → version current < version later
    → All (Known current) held
    → All (Known later) held
later-Known current later [] h _ = tt
later-Known current later (q ∷ qs) h (inl e, ks) = (inr (rw e h), later-Known current later qs h ks)
later-Known current later (q ∷ qs) h (inr k, ks) =
    (inr (omega arith), later-Known current later qs h ks)

pub accept-version :
    (submitted : Provision) (s t : Server)
    → accept submitted s ≡ some t
    → version submitted ≡ version s.current
unfolding accept
accept-version submitted s t h = ground arith

pub accept-server :
    (submitted : Provision) (s t : Server)
    → accept submitted s ≡ some t
    → t ≡ record s {
      current = record (bump s.current) { status = submitted.status };
      past = s.current ∷ s.past;
    }
unfolding accept
accept-server submitted s t h = ground arith

-- A version that comes after the current one, with a phase that may follow.
supersede :
    (s : Server) (later : Provision)
    → IsConsistent s
    → version later ≡ version s.current + 1
    → Transition s.current.status.phase later.status.phase
    → IsConsistent (record s { current = later; past = s.current ∷ s.past })
supersede s later c e h = record {
  chain = (h, c.chain);
  older = (omega arith, older-later _ _ s.past (omega arith) c.older);
  known = later-Known s.current later s.held (omega arith) c.known;
}

pub current_of_version :
    (current p : Provision) → Known current p → version p ≡ version current → p ≡ current
current_of_version current p (inl e) h = e
current_of_version current p (inr l) h = absurd (omega arith)

-- A caller whose copy is of the current version submits a phase that may follow.
write-Transition :
    (s : Server)
    → IsConsistent s
    → (intent : Intent) (p submitted : Provision) → Among p s.held
    → plan intent p ≡ some submitted
    → version submitted ≡ version s.current
    → Transition s.current.status.phase submitted.status.phase
write-Transition s c intent p submitted among planned same_version =
    subst (λ (q : Provision). Transition q.status.phase submitted.status.phase)
      (current_of_version s.current p (held-Known s.current p s.held c.known among)
        (sym (plan-version intent p submitted planned) ∙ same_version))
      (plan-Transition intent p submitted planned)

Step-IsConsistent : {s t : Server} → Step s t → IsConsistent s → IsConsistent t
Step-IsConsistent (read s p among) c = record {
  chain = c.chain;
  older = c.older;
  known = (Among-Known s p c.older among, c.known);
}
Step-IsConsistent (write s {t} intent p submitted among planned accepted) c =
    subst IsConsistent (sym (accept-server submitted s t accepted)) (
      supersede s (record (bump s.current) { status = submitted.status }) c refl
        (write-Transition s c intent p submitted among planned
          (accept-version submitted s t accepted)))
Step-IsConsistent (edit s spec) c =
    supersede s (record (bump s.current) { spec = spec }) c refl (stays refl)

pub Reach-IsConsistent : {s t : Server} → IsConsistent s → Reach s t → IsConsistent t
Reach-IsConsistent c here = c
Reach-IsConsistent c (next r step) = Step-IsConsistent step (Reach-IsConsistent c r)

-- A Provision as it is created: one version, which nobody has read.
abbrev pub created : Provision → Server
created p = record { current = p; past = []; held = [] }

-- However the reads and writes of the reconciler, the status handler and the users fall, and however
-- old the copies that they have read, each stored version of a Provision keeps the phase of the one
-- before it or makes one of three transitions: from no phase to Pending, from Pending to InProgress,
-- from InProgress to Complete.
pub Reach-Chain : (p : Provision) (s : Server) → Reach (created p) s → Chain s.current s.past
Reach-Chain p s r = (Reach-IsConsistent (record { chain = tt; older = tt; known = tt }) r).chain

Transition-complete : {a b : ProvisionPhase} → Transition a b → a ≡ complete → b ≡ complete
Transition-complete (stays e) h = cc
Transition-complete (starts e f) h = cc
Transition-complete (progresses e f) h = cc
Transition-complete (completes e f) h = f

Step-Transition :
    {s t : Server}
    → Step s t
    → IsConsistent s
    → Transition s.current.status.phase t.current.status.phase
Step-Transition (read s p among) c = stays refl
Step-Transition (write s {t} intent p submitted among planned accepted) c =
    subst (λ (u : Server). Transition s.current.status.phase u.current.status.phase)
      (sym (accept-server submitted s t accepted))
      (write-Transition s c intent p submitted among planned
        (accept-version submitted s t accepted))
Step-Transition (edit s spec) c = stays refl

-- Once a stored version is complete, so are all later ones.
pub Reach-complete :
    (p : Provision) (s t : Server)
    → Reach (created p) s
    → Reach s t
    → s.current.status.phase ≡ complete
    → t.current.status.phase ≡ complete
Reach-complete p s t r here h = h
Reach-complete p s t r (next {t = u} q step) h =
    Transition-complete
      (Step-Transition step (
        Reach-IsConsistent (Reach-IsConsistent (record { chain = tt; older = tt; known = tt }) r)
          q))
      (Reach-complete p s u r q h)
