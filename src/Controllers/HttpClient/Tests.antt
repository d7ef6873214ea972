-- ===== src/Controllers/HttpClient/Tests.antt =====
-- The HTTP client over a transport that knows one address.
use flink_on_k8s_operator.Base.{String, ◌≡◌, ◌↔◌, refl, [], ◌==◌, if◌then◌else◌}
use flink_on_k8s_operator.Base.Int.{pos}
use flink_on_k8s_operator.Base.Run.{done, panic}
use flink_on_k8s_operator.Controllers.Effects.{Error, message, Result, ok, err}
use flink_on_k8s_operator.Controllers.HttpClient.{
  HttpRequest, Transport, with_headers, do_http, get,
}
use flink_on_k8s_operator.Controllers.HttpClient.Laws.{Holds, do_http_iff}

abbrev request_to : String → String → String → HttpRequest
request_to method url body = record { method = method; url = url; body = body; header = [] }

abbrev parse : String → Result String
parse text = ok text

abbrev one_server : Transport
one_server = record {
  new_request = λ method url body.
      if url == ":" then err (message "missing scheme") else ok (request_to method url body);
  send = λ request.
      if request.url == "http://flink/jobs"
      then ok (record { status_code = pos 200; status = "200 OK"; body = ok "{}" })
      else ok (record { status_code = pos 404; status = "404 Not Found"; body = ok "" });
}

do_http_iff_example :
    ((a : String)
      → (do_http parse one_server "GET" "http://flink/jobs" "" ≡ done (ok a)) ↔ (
          (request : HttpRequest) × (one_server.new_request "GET" "http://flink/jobs" ""
            ≡ ok request)
          × Holds parse (one_server.send (with_headers request)) a))
    × ((do_http parse one_server "GET" "http://flink/jobs" "" ≡ panic)
        ↔ ((e : Error) × (one_server.new_request "GET" "http://flink/jobs" "" ≡ err e)))
do_http_iff_example = do_http_iff parse one_server "GET" "http://flink/jobs" ""

get_test : get parse one_server "http://flink/jobs" ≡ done (ok "{}")
unfolding get with_headers
get_test = refl

not_found_test : get parse one_server "http://flink/job" ≡ done (err (message "404 Not Found"))
unfolding get with_headers
not_found_test = refl

invalid_url_test : get parse one_server ":" ≡ panic
unfolding get with_headers
invalid_url_test = refl
