-- ===== src/Exec/Ensures.antt =====
-- What holds after a call, one rule for each way to compose calls.
use isoboot.Prelude.{Error, Result, ok, err, Bool, true, false, if◌then◌else◌}
use isoboot.Exec.{Exec, pure, fail, branch, check, deferring}

-- `post` holds of the result and of the state after `m`, called in the state `s`.
pub record Ensures {ℓ} {S A : Type ℓ} (m : Exec S A) (s : S) (post : Result A → S → Type ℓ)
    : Type ℓ where
  pub holds : post (m s).0 (m s).1

module _ {ℓ} {S A B : Type ℓ} where
  branch_rule :
      {post : Result B → S → Type ℓ} {handler : Error → Exec S B} {rest : A → Exec S B}
      (mid : Result A → S → Type ℓ) (r : Result A) (s : S)
      → mid r s
      → ((e : Error) (t : S) → mid (err e) t → Ensures (handler e) t post)
      → ((a : A) (t : S) → mid (ok a) t → Ensures (rest a) t post)
      → Ensures (branch r handler rest) s post
  branch_rule mid (ok a) s h on_err on_ok = record { holds = (on_ok a s h).holds }
  branch_rule mid (err e) s h on_err on_ok = record { holds = (on_err e s h).holds }

  -- What the call ensures, the handler and the rest may assume.
  pub Ensures-check :
      {m : Exec S A} {handler : Error → Exec S B} {rest : A → Exec S B} {s : S}
      {post : Result B → S → Type ℓ} (mid : Result A → S → Type ℓ)
      → Ensures m s mid
      → ((e : Error) (t : S) → mid (err e) t → Ensures (handler e) t post)
      → ((a : A) (t : S) → mid (ok a) t → Ensures (rest a) t post)
      → Ensures (check m handler rest) s post
  unfolding check
  Ensures-check {m} {s} mid h on_err on_ok = record {
    holds = (branch_rule mid (m s).0 (m s).1 h.holds on_err on_ok).holds;
  }

-- Every call of `m` leads from a state to one that the relation allows.
pub record Follows {ℓ} {S A : Type ℓ} (R : S → S → Type ℓ) (m : Exec S A) : Type ℓ where
  pub at : (s : S) → R s (m s).1

pub record IsPreorder {ℓ} {S : Type ℓ} (R : S → S → Type ℓ) : Type ℓ where
  pub same : (s : S) → R s s
  pub then_ : (s t u : S) → R s t → R t u → R s u

module _ {ℓ} {S A : Type ℓ} (R : S → S → Type ℓ) (p : IsPreorder R) where
  pub Follows-pure : (a : A) → Follows R (pure a)
  Follows-pure a = record { at = p.same }

  pub Follows-fail : (e : Error) → Follows R (fail {A = A} e)
  Follows-fail e = record { at = p.same }

  pub Follows-if :
      (b : Bool) (m n : Exec S A) → Follows R m → Follows R n → Follows R (if b then m else n)
  Follows-if true m n hm hn = hm
  Follows-if false m n hm hn = hn

module _ {ℓ} {S A B : Type ℓ} (R : S → S → Type ℓ) (p : IsPreorder R) where
  branch_follows :
      (r : Result A) (s : S) (handler : Error → Exec S B) (rest : A → Exec S B)
      → ((e : Error) → Follows R (handler e))
      → ((a : A) → Follows R (rest a))
      → R s (branch r handler rest s).1
  branch_follows (ok a) s handler rest on_err on_ok = (on_ok a).at s
  branch_follows (err e) s handler rest on_err on_ok = (on_err e).at s

  pub Follows-check :
      (m : Exec S A) (handler : Error → Exec S B) (rest : A → Exec S B)
      → Follows R m
      → ((e : Error) → Follows R (handler e))
      → ((a : A) → Follows R (rest a))
      → Follows R (check m handler rest)
  unfolding check
  Follows-check m handler rest hm on_err on_ok = record {
    at = λ s.
        p.then_ s (m s).1 _ (hm.at s) (branch_follows (m s).0 (m s).1 handler rest on_err on_ok);
  }

  pub Follows-deferring :
      (cleanup : Exec S B) (body : Exec S A)
      → Follows R cleanup
      → Follows R body
      → Follows R (deferring cleanup body)
  unfolding deferring
  Follows-deferring cleanup body hc hb = record {
    at = λ s. p.then_ s (body s).1 _ (hb.at s) (hc.at (body s).1);
  }

module _ {ℓ} {S A : Type ℓ} (R : S → S → Type ℓ) (p : IsPreorder R) where
  -- A call that follows the relation carries it on from an earlier state.
  pub onward : (s t : S) (m : Exec S A) → Follows R m → R s t → Ensures m t (λ _ u. R s u)
  onward s t m h q = record { holds = p.then_ s t (m t).1 q (h.at t) }

  pub Ensures-deferring :
      {B : Type ℓ} {s : S} (cleanup : Exec S B) (body : Exec S A)
      → Follows R cleanup
      → Ensures body s (λ _ t. R s t)
      → Ensures (deferring cleanup body) s (λ _ t. R s t)
  unfolding deferring
  Ensures-deferring {s} cleanup body hc hb = record {
    holds = p.then_ s (body s).1 _ hb.holds (hc.at (body s).1);
  }

  pub onward_from :
      (s t : S) (m : Exec S A) → Ensures m t (λ _ u. R t u) → R s t → Ensures m t (λ _ u. R s u)
  onward_from s t m h q = record { holds = p.then_ s t (m t).1 q h.holds }

module _ {ℓ} {S A : Type ℓ} where
  pub Ensures-both :
      {m : Exec S A} {s : S} (P Q : Result A → S → Type ℓ)
      → Ensures m s P
      → Ensures m s Q
      → Ensures m s (λ r t. P r t × Q r t)
  Ensures-both P Q h k = record { holds = (h.holds, k.holds) }
