-- ===== src/Server/Safe.antt =====
-- cmd/httpd/main.go: which requests can change the cluster.
use isoboot.Prelude.{
  ℕ, String, Option, ◌≢◌, Bool, true, false, not, List, [], ◌∷◌, ◌==◌, ==-true, string_eq,
  if◌then◌else◌, Bool-cases, inl, inr,
}
use isoboot.Url.{UrlPath}
use isoboot.Client.{Client}
use isoboot.Exec.{Exec}
use isoboot.Exec.Ensures.{Follows}
use isoboot.Httpd.Boot.{ArgumentTemplates, BootDirective, boot_directive_for_mac}
use isoboot.Httpd.Automation.{Templates, render_automation_file}
use isoboot.Httpd.Reads.{
  ReadsFollow, boot_directive_for_mac-Follows, render_automation_file-Follows,
}
use isoboot.Server.{
  Route, boot_route, status_route, health_route, automation_route, wrong_method, no_route, for_get,
  route_of, dispatch, serve,
}
use isoboot.Server.Names.{mac_matches, is_valid_name}
use isoboot.Server.Http.{Request, Response}
use isoboot.Server.Boot.{conditional_boot}
use isoboot.Server.Automation.{automation_file}

-- What holds of both branches holds of the choice.
either_way : {A : Type 0} (P : A → Type 0) (b : Bool) {x y : A} → P x → P y → P (if b then x else y)
either_way P true p q = p
either_way P false p q = q

-- The choice of a handler avoids the status, but for POST.
module _ (P : Route → Type 0) (boot : P boot_route) (health : P health_route)
    (automation : (p f : String) → P (automation_route p f)) (wrong : P wrong_method)
    (none_ : P no_route) where
  for_get-avoids : (method : String) (route : Route) → P route → P (for_get method route)
  for_get-avoids method route h =
      either_way P (method == "GET") h (either_way P (method == "HEAD") h wrong)

  status-avoids :
      (method : String)
      → method ≢ "POST"
      → P (if method == "POST" then status_route else wrong_method)
  status-avoids method no_post = elim (Bool-cases (method == "POST")) [
    | inl e ↦ absurd (no_post (==-true method "POST" e))
    | inr e ↦ rw (e) wrong
  ]

  route_of-avoids :
      (method : String) (segments : List String) → method ≢ "POST" → P (route_of method segments)
  unfolding route_of
  route_of-avoids method [] no_post = none_
  route_of-avoids method (one ∷ []) no_post =
      either_way P (one == "conditional-boot") (for_get-avoids method boot_route boot) (
        either_way P (one == "status") (status-avoids method no_post)
          (either_way P (one == "healthz") (for_get-avoids method health_route health) none_))
  route_of-avoids method (one ∷ two ∷ []) no_post = none_
  route_of-avoids method (one ∷ p ∷ f ∷ []) no_post =
      either_way P (one == "automation")
        (for_get-avoids method (automation_route p f) (automation p f)) none_
  route_of-avoids method (one ∷ p ∷ f ∷ more ∷ rest) no_post = none_

module _ {S : Type 0} (R : S → S → Type 0) (same : (s : S) → R s s) where
  conditional_boot-Follows :
      (T : ArgumentTemplates) (decimal : ℕ → String) (proxy_port : String) (r : Request)
      (get : String → Exec S (Option BootDirective)) (s : S)
      → ((mac : String) → Follows R (get mac))
      → R s (conditional_boot T decimal proxy_port r get s).1
  unfolding conditional_boot
  conditional_boot-Follows T decimal proxy_port r get s h =
      either_way (λ (a : Response × S). R s a.1) (r.query "mac" == "") (same s)
        (either_way (λ (a : Response × S). R s a.1) (not (mac_matches (r.query "mac"))) (same s)
          ((h (r.query "mac")).at s))

  automation_file-Follows :
      (decimal : ℕ → String) (file : String → String → String → Exec S String) (p f : String)
      (r : Request) (s : S)
      → ((p f url : String) → Follows R (file p f url))
      → R s (automation_file decimal file p f r s).1
  unfolding automation_file
  automation_file-Follows decimal file p f r s h =
      either_way (λ (a : Response × S). R s a.1) (not (is_valid_name p)) (same s)
        (either_way (λ (a : Response × S). R s a.1) (f == "") (same s) ((h p f _).at s))

-- A request whose method is not POST leads the cluster only where the reads of the client lead it:
-- every preorder on states that each `Get` and `List` follows, the answer of the server follows too,
-- whatever the path, the parameters and the answers of the cluster are. The update of a status, the
-- one write that the server makes, is not assumed to follow it.
pub serve-Follows :
    (C : Client) (url_path : UrlPath) (quote : String → String) (decimal : ℕ → String)
    (arguments : ArgumentTemplates) (templates : Templates) (ns proxy_port : String)
    (R : C.State → C.State → Type 0)
    → ReadsFollow C R
    → (now : ℕ) (r : Request) (s : C.State) → r.method ≢ "POST"
    → R s (serve C url_path quote decimal arguments templates ns proxy_port now r s).1
unfolding serve dispatch
serve-Follows C url_path quote decimal arguments templates ns proxy_port R reads now r s no_post =
    route_of-avoids
      (λ route.
        R s (dispatch C url_path quote decimal arguments templates ns proxy_port route now r s).1)
      (conditional_boot-Follows R reads.order.same arguments decimal proxy_port r
        (boot_directive_for_mac C url_path quote ns) s
        (boot_directive_for_mac-Follows C R reads url_path quote ns))
      (reads.order.same s)
      (λ p f.
        automation_file-Follows R reads.order.same decimal
          (render_automation_file C quote templates ns) p f r s
          (render_automation_file-Follows C R reads quote ns templates))
      (reads.order.same s) (reads.order.same s) r.method r.segments no_post
