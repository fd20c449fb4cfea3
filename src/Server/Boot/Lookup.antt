-- ===== src/Server/Boot/Lookup.antt =====
-- What a booting machine is answered: `conditionalBootHandler` (cmd/httpd/main.go) on top of
-- `BootDirectiveForMAC` (internal/httpd/boot.go) and the indexes of the cache.
use isoboot.Prelude.{
  ℕ, String, Option, none, some, ◌≡◌, ◌≢◌, refl, ◌⊎◌, inl, inr, true, false, List, Error, Result,
  ok, err, arith, select, string_eq, Option-cases, Result-cases, Bool-cases, [], ◌∷◌,
}
use isoboot.Api.{Provision, Machine, BootConfig, BootConfigIsoSpec, BootConfigNetbootSpec}
use isoboot.Url.{UrlPath}
use isoboot.Client.{Client}
use isoboot.Exec.{Exec, check}
use isoboot.Exec.Ensures.{Ensures, Ensures-check}
use isoboot.Errors.{is_duplicate_error}
use isoboot.Httpd.Provision.{pending_provision_for_mac}
use isoboot.Httpd.Boot.{
  BootDirective, ArgumentTemplates, directive_of, directive_for, boot_directive_for_mac,
  iso_directive, netboot_directive,
}
use isoboot.Httpd.Pending.{
  IsIndexed, has_mac, pending_for, sole_provision, waits_for, pending_provision_for_mac-pending_for,
}
use isoboot.Server.Http.{Request, Response, http_error}
use isoboot.Server.Names.{mac_matches}
use isoboot.Server.Boot.{
  boot_error, boot_found, boot_answer, conditional_boot, answer_text, rendered_args,
}

-- A lookup of a provision that is there never yields "no directive".
abbrev Directs : {S : Type 0} → Result (Option BootDirective) → S → Type 0
Directs r s = r ≢ ok none

err-ne-none : (e : Error) → ◌≢◌ {A = Result (Option BootDirective)} (err e) (ok none)
err-ne-none e h = cc

some-ne-none : (d : BootDirective) → ◌≢◌ {A = Result (Option BootDirective)} (ok (some d)) (ok none)
some-ne-none d h = cc

module _ (C : Client) (url_path : UrlPath) (quote : String → String) (ns : String) where
  iso_directive-Directs :
      (p : Provision) (bc : BootConfig) (iso : BootConfigIsoSpec) (s : C.State)
      → Ensures (iso_directive C url_path quote ns p bc iso) s Directs
  unfolding iso_directive
  iso_directive-Directs p bc iso s =
      Ensures-check (λ _ _. Unit) (record { holds = tt })
        (λ e t _. record { holds = err-ne-none e }) (λ a t _. record { holds = some-ne-none _ })

  netboot_directive-Directs :
      (p : Provision) (bc : BootConfig) (nb : BootConfigNetbootSpec) (s : C.State)
      → Ensures (netboot_directive C url_path quote ns p bc nb) s Directs
  unfolding netboot_directive
  netboot_directive-Directs p bc nb s =
      Ensures-check (λ _ _. Unit) (record { holds = tt })
        (λ e t _. record { holds = err-ne-none e })
        (λ a t _.
          Ensures-check (λ _ _. Unit) (record { holds = tt })
            (λ e u _. record { holds = err-ne-none e })
            (λ b u _. record { holds = some-ne-none _ }))

  directive_of-Directs :
      (p : Provision) (bc : BootConfig) (s : C.State)
      → Ensures (directive_of C url_path quote ns p bc) s Directs
  unfolding directive_of
  directive_of-Directs p bc s = elim (Option-cases bc.spec.iso) [
    | inr (iso, e) ↦ rw (e, directive_of) (iso_directive-Directs p bc iso s)
    | inl e ↦ elim (Option-cases bc.spec.netboot) [
      | inr (nb, f) ↦ rw (e, f, directive_of) (netboot_directive-Directs p bc nb s)
      | inl f ↦ rw (e, f, directive_of) (record { holds = err-ne-none _ })
    ]
  ]

  directive_for-Directs :
      (p : Provision) (s : C.State) → Ensures (directive_for C url_path quote ns (some p)) s Directs
  unfolding directive_for
  directive_for-Directs p s =
      Ensures-check (λ _ _. Unit) (record { holds = tt })
        (λ e t _. record { holds = err-ne-none _ }) (λ bc t _. directive_of-Directs p bc t)

-- What the answer is, by the pending provision of the address.
abbrev pub Answers : {S : Type 0} → Result (Option Provision) → Response × S → S → Type 0
Answers (err e) answer s = (answer.0.status ≡ 409) × (answer.1 ≡ s)
Answers (ok none) answer s = (answer.0.status ≡ 404) × (answer.1 ≡ s)
Answers (ok (some p)) answer s = (answer.0.status ≢ 404) × (answer.0.status ≢ 400)

sole_provision-duplicate :
    (mac : String) (found : List Provision) (e : Error)
    → sole_provision mac found ≡ err e
    → is_duplicate_error e ≡ true
unfolding is_duplicate_error
sole_provision-duplicate mac [] e h = cc
sole_provision-duplicate mac (p ∷ []) e h = cc
sole_provision-duplicate mac (p ∷ q ∷ ps) e h = ground arith

pending_for-duplicate :
    (mac : String) (machines : List Machine) (provisions : List Provision) (e : Error)
    → pending_for mac machines provisions ≡ err e
    → is_duplicate_error e ≡ true
unfolding is_duplicate_error
pending_for-duplicate mac [] provisions e h = cc
pending_for-duplicate mac (m ∷ []) provisions e h =
    sole_provision-duplicate mac (select (waits_for m.meta.name) provisions) e h
pending_for-duplicate mac (m ∷ n ∷ ms) provisions e h = ground arith

mac_matches-empty : mac_matches "" ≡ false
unfolding mac_matches
mac_matches-empty = refl

module _ (C : Client) (url_path : UrlPath) (quote : String → String) (ns : String)
    (T : ArgumentTemplates) (decimal : ℕ → String) (proxy_port : String) (r : Request) where
  conditional_boot-answer :
      {S : Type 0} (get_directive : String → Exec S (Option BootDirective)) (s : S)
      → mac_matches (r.query "mac") ≡ true
      → conditional_boot T decimal proxy_port r get_directive s ≡ (
        boot_answer T decimal proxy_port r (get_directive (r.query "mac") s).0,
        (get_directive (r.query "mac") s).1,
      )
  unfolding conditional_boot
  conditional_boot-answer get_directive s h = ground (arith, mac_matches-empty)

  conditional_boot-invalid :
      {S : Type 0} (get_directive : String → Exec S (Option BootDirective)) (s : S)
      → mac_matches (r.query "mac") ≡ false
      → let answer = conditional_boot T decimal proxy_port r get_directive s in
        (answer.0.status ≡ 400) × (answer.1 ≡ s)
  unfolding conditional_boot http_error
  conditional_boot-invalid get_directive s h = ground arith

  boot_found-status :
      (d : BootDirective)
      → let status = (boot_found T decimal proxy_port r (some d)).status in
        (status ≢ 404) × (status ≢ 400)
  unfolding boot_found answer_text http_error
  boot_found-status d = elim (Result-cases (rendered_args T proxy_port r d)) [
    | inl (args, e) ↦ rw (e, boot_found) ((λ h. ground arith), (λ h. ground arith))
    | inr (f, e) ↦ rw (e, boot_found) ((λ h. ground arith), (λ h. ground arith))
  ]

  boot_answer-status :
      (result : Result (Option BootDirective))
      → result ≢ ok none
      → let status = (boot_answer T decimal proxy_port r result).status in
        (status ≢ 404) × (status ≢ 400)
  unfolding boot_answer boot_error http_error
  boot_answer-status (err e) h = ground arith
  boot_answer-status (ok none) h = absurd (h refl)
  boot_answer-status (ok (some d)) h = boot_found-status d

  directive-Answers :
      (mac : String) (s : C.State) (result : Result (Option Provision))
      → ((e : Error) → result ≡ err e → is_duplicate_error e ≡ true)
      → pending_provision_for_mac C ns mac s ≡ (result, s)
      → let found = boot_directive_for_mac C url_path quote ns mac s in
        Answers result (boot_answer T decimal proxy_port r found.0, found.1) s
  unfolding boot_directive_for_mac check boot_answer boot_error boot_found http_error directive_for
  directive-Answers mac s (err e) dup h = ground (arith, dup e refl)
  directive-Answers mac s (ok none) dup h = ground arith
  directive-Answers mac s (ok (some p)) dup h =
      boot_answer-status (boot_directive_for_mac C url_path quote ns mac s).0
        (rw (h, boot_directive_for_mac) ((directive_for-Directs C url_path quote ns p s).holds))

  -- Over indexed lists, a request whose address the pattern admits is answered 404 exactly where no
  -- provision is pending for it, 409 where two machines or two pending provisions compete, with the
  -- cluster untouched in both cases; any other request is answered 400.
  pub conditional_boot-Answers :
      (s : C.State) (machines : List Machine) (provisions : List Provision)
      → IsIndexed C ns s machines provisions
      → let answer =
          conditional_boot T decimal proxy_port r (boot_directive_for_mac C url_path quote ns) s in
        ((mac_matches (r.query "mac") ≡ false) × (answer.0.status ≡ 400) × (answer.1 ≡ s))
        ⊎ ((mac_matches (r.query "mac") ≡ true)
            × Answers
                (pending_for (r.query "mac") (select (has_mac (r.query "mac")) machines) provisions)
                answer
                s)
  conditional_boot-Answers s machines provisions indexed =
      elim (Bool-cases (mac_matches (r.query "mac"))) [
        | inr e ↦ inl (
          e,
          (conditional_boot-invalid (boot_directive_for_mac C url_path quote ns) s e).0,
          (conditional_boot-invalid (boot_directive_for_mac C url_path quote ns) s e).1,
        )
        | inl e ↦ inr (
          e,
          rw (conditional_boot-answer (boot_directive_for_mac C url_path quote ns) s e) (
              directive-Answers (r.query "mac") s
                (pending_for (r.query "mac") (select (has_mac (r.query "mac")) machines) provisions)
                (pending_for-duplicate (r.query "mac") (select (has_mac (r.query "mac")) machines)
                  provisions)
                (pending_provision_for_mac-pending_for C ns (r.query "mac") s machines provisions
                  indexed)),
        )
      ]
