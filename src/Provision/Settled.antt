-- ===== src/Provision/Settled.antt =====
-- What `ProvisionReconciler` brings a Provision to (internal/controller/provision_controller.go).
use isoboot.Prelude.{Option, some, ◌≡◌, ◌≢◌, ◌⊎◌, ok}
use isoboot.Api.{ObjectKey, Provision, ProvisionPhase}
use isoboot.Client.{Client}
use isoboot.World.{no_requeue}
use isoboot.Provision.{reconcile}

-- A client of a server that nobody else writes to: it reads what is stored, and a status written from
-- a copy of that is taken, with the server's own changes to the metadata.
pub record IsUndisturbed (C : Client) (stored : C.State → Option Provision) (key : ObjectKey)
    : Type 0 where
  pub reads : (s : C.State) (p : Provision) → stored s ≡ some p → C.get_provision key s ≡ (ok p, s)
  pub takes :
      (s : C.State) (p q : Provision)
      → stored s ≡ some p
      → q.meta ≡ p.meta
      → q.spec ≡ p.spec
      → (t : C.State) × (r : Provision) × (C.update_provision_status q s ≡ (ok tt, t))
        × (stored t ≡ some r)
        × (r.status ≡ q.status)
        × (r.spec ≡ p.spec)

abbrev pub made_pending : Provision → Provision
made_pending p = record p { status = record p.status { phase = ProvisionPhase.pending } }

module _ (C : Client) (key : ObjectKey) where
  -- What is stored after a reconciliation that met `p` in the state `s`.
  pub record IsSettled (stored : C.State → Option Provision) (s : C.State) (p : Provision)
      (t : C.State) (r : Provision) : Type 0 where
    pub succeeds : reconcile C key s ≡ (ok no_requeue, t)
    pub kept : stored t ≡ some r
    pub same_spec : r.spec ≡ p.spec
    pub begun :
        ((p.status.phase ≡ ProvisionPhase.unset) × (r.status ≡ (made_pending p).status))
        ⊎ ((p.status.phase ≢ ProvisionPhase.unset) × (r ≡ p) × (t ≡ s))
    pub again : reconcile C key t ≡ (ok no_requeue, t)
