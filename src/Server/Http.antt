-- ===== src/Server/Http.antt =====
-- The parts of net/http that the handlers of cmd/httpd/main.go use.
use isoboot.Prelude.{ℕ, String, ◌<>◌, List, [], ◌∷◌}

-- A request: a parameter, header or part of the path that is not there is the empty text.
pub record Request : Type 0 where
  pub method : String
  pub segments : List String
  pub host : String
  pub header : String → String
  pub query : String → String
  pub form_value : String → String

pub record Response : Type 0 where
  pub status : ℕ
  pub headers : List (String × String)
  pub body : String

abbrev pub text_plain : String × String
text_plain = ("Content-Type", "text/plain; charset=utf-8")

-- `http.Error`
unfoldable pub http_error : String → ℕ → Response
http_error text status = record {
  status = status;
  headers = text_plain ∷ ("X-Content-Type-Options", "nosniff") ∷ [];
  body = text <> "\n";
}
