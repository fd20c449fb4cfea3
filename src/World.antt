-- ===== src/World.antt =====
-- The state that a reconciler works on, and what it takes from outside the program.
pub mod Frame
use isoboot.Prelude.{ℕ, String, Bool, if◌then◌else◌, List, ◌∷◌, [], ◌++◌, Option, Result, ok}
use isoboot.Client.{Client}
use isoboot.Disk.{Disk, Os}
use isoboot.Exec.{Exec}
use isoboot.Url.{UrlPath}

-- What `http.Client.Do` and the reading of the body bring: the request cannot be made, there is no
-- response, or a response with its status, its Content-Length if there is one, the bytes that arrive,
-- and the error that ends them early, if one does.
pub data Fetch : Type 0 where
  bad_request no_response : String → Fetch
  response :
      (status : ℕ) (content_length : Option ℕ) (body : List ℕ) (broken : Option String) → Fetch

-- Functions of the standard library that are taken as they are, and the answers of the outside:
-- `url.Parse`, the hexadecimal digests of crypto/sha256 and crypto/sha512, the verbs %q and %d of fmt,
-- the HTTP server behind a URL, and `metav1.Now` in seconds; and whether the reconciler has a
-- recorder of events.
pub record Outside : Type 0 where
  pub url_path : UrlPath
  pub sha256 : List ℕ → String
  pub sha512 : List ℕ → String
  pub quote : String → String
  pub decimal : ℕ → String
  pub fetch : String → Fetch
  pub now : ℕ
  pub has_recorder : Bool

-- The cluster as the client shows it, the data directory, and the events recorded.
pub record World (C : Client) : Type 0 where
  pub api : C.State
  pub disk : Disk
  pub events : List String

-- `ctrl.Result`: the seconds after which the request comes again, 0 for never.
pub record Requeue : Type 0 where
  pub after : ℕ

abbrev pub no_requeue : Requeue
no_requeue = record { after = 0 }

module _ {C : Client} {A : Type 0} where
  unfoldable pub on_api : Exec C.State A → Exec (World C) A
  on_api m w = let (r, s) = m w.api in (r, record w { api = s })

  unfoldable pub on_disk : Os A → Exec (World C) A
  on_disk m w = let (r, d) = m w.disk in (r, record w { disk = d })

-- `r.Recorder.Eventf`, where there is a recorder.
unfoldable pub record_event :
    {C : Client} (has_recorder : Bool) → String → Exec (World C) (Unit {0})
record_event has_recorder text w =
    (ok tt, record w { events = if has_recorder then w.events ++ text ∷ [] else w.events })
