-- ===== src/Controllers/HttpClient.antt =====
-- The HTTP client, controllers/flinkclient/http_client.go, over net/http and encoding/json.
pub mod Laws
pub mod Tests
use flink_on_k8s_operator.Base.{String, Option, none, some, Bool, ◌||◌, List, if◌then◌else◌}
use flink_on_k8s_operator.Base.Dict.{insert}
use flink_on_k8s_operator.Base.Int.{ℤ, pos, ltb_ℤ, leb_ℤ}
use flink_on_k8s_operator.Base.Run.{Run, done, panic, ◌>>=◌}
use flink_on_k8s_operator.Controllers.Effects.{Error, message, Result, ok, err}

pub record HttpRequest : Type 0 where
  pub method : String
  pub url : String
  pub body : String
  pub header : List (String × String)

-- The body is what `ioutil.ReadAll` makes of it.
pub record HttpResponse : Type 0 where
  pub status_code : ℤ
  pub status : String
  pub body : Result String

-- net/http: a request that cannot be built is nil beside its error, and a client with a timeout.
pub record Transport : Type 0 where
  pub new_request : (method url body : String) → Result HttpRequest
  pub send : HttpRequest → Result HttpResponse

unfoldable pub with_headers : HttpRequest → HttpRequest
unfolding insert
with_headers request = record request {
  header = insert "User-Agent" "flink-operator" (insert "Accept" "application/json" request.header);
}

-- The header is set before the error is looked at.
abbrev pub prepared : Result HttpRequest → Run HttpRequest
prepared (err e) = panic
prepared (ok request) = done (with_headers request)

unfoldable pub create_request : Transport → (method url body : String) → Run HttpRequest
create_request t method url body = prepared (t.new_request method url body)

module _ {A : Type 0} (unmarshal : String → Result A) where
  unfoldable pub read_response : HttpResponse → Result A
  read_response response = elim (response.body) [ err e ↦ err e | ok text ↦ unmarshal text ]

  abbrev pub is_failure : HttpResponse → Bool
  is_failure response = ltb_ℤ response.status_code (pos 200) || leb_ℤ (pos 300) response.status_code

  unfoldable pub read_answer : Result HttpResponse → Result A
  unfolding read_response
  read_answer (err e) = err e
  read_answer (ok response) =
      if is_failure response then err (message response.status) else read_response response

  unfoldable pub do_http : Transport → (method url body : String) → Run (Result A)
  unfolding create_request read_answer
  do_http t method url body =
      create_request t method url body >>= λ request. done (read_answer (t.send request))

  unfoldable pub get : Transport → (url : String) → Run (Result A)
  unfolding do_http
  get t url = do_http t "GET" url ""

  unfoldable pub post : Transport → (url body : String) → Run (Result A)
  unfolding do_http
  post t url body = do_http t "POST" url body

  unfoldable pub patch : Transport → (url body : String) → Run (Result A)
  unfolding do_http
  patch t url body = do_http t "PATCH" url body
