-- ===== src/Controllers/HttpClient/Laws.antt =====
-- When a call over HTTP succeeds, and when it panics.
use mathlib.Core.Path.{subst}
use flink_on_k8s_operator.Base.{String, ◌≡◌, ◌↔◌, refl, sym, ap, arith}
use flink_on_k8s_operator.Base.Int.{pos, ◌≤ℤ◌, ◌<ℤ◌}
use flink_on_k8s_operator.Base.Run.{done, panic, ◌>>=◌, done-injective}
use flink_on_k8s_operator.Controllers.Effects.{Error, Result, ok, err}
use flink_on_k8s_operator.Controllers.HttpClient.{
  HttpRequest, HttpResponse, Transport, with_headers, prepared, create_request, read_response,
  read_answer, do_http,
}

ok-injective : {A : Type 0} {a b : A} → ok a ≡ ok b → a ≡ b
ok-injective e = cc

module _ {A : Type 0} (unmarshal : String → Result A) where
  -- An answer in the range of success, whose body was read and holds this value.
  abbrev pub Holds : Result HttpResponse → A → Type 0
  Holds (err e) a = ⊥
  Holds (ok response) a =
      (pos 200 ≤ℤ response.status_code)
      × (response.status_code <ℤ pos 300)
      × ((text : String) × (response.body ≡ ok text) × (unmarshal text ≡ ok a))

  read_answer_iff : (r : Result HttpResponse) (a : A) → (read_answer unmarshal r ≡ ok a) ↔ Holds r a
  unfolding read_answer read_response
  read_answer_iff (err e) a = (λ h. cc, λ h. absurd h)
  read_answer_iff (ok response) a = ground arith

  abbrev Sent : Transport → Result HttpRequest → A → Type 0
  Sent t r a = (request : HttpRequest) × (r ≡ ok request) × Holds (t.send (with_headers request)) a

  prepared-read_answer_iff :
      (t : Transport) (r : Result HttpRequest) (a : A)
      → ((prepared r >>= λ request. done (read_answer unmarshal (t.send request))) ≡ done (ok a))
        ↔ Sent t r a
  prepared-read_answer_iff t (err e) a = (λ h. cc, λ (request, h, _). cc)
  prepared-read_answer_iff t (ok request) a = (
    λ h. (request, refl, (read_answer_iff (t.send (with_headers request)) a).0 (done-injective h)),
    λ (request', e, holds). ap done (
        (read_answer_iff (t.send (with_headers request)) a).1
          (subst (λ r. Holds (t.send (with_headers r)) a) (sym (ok-injective e)) holds)),
  )

  prepared-panic_iff :
      (t : Transport) (r : Result HttpRequest)
      → ((prepared r >>= λ request. done (read_answer unmarshal (t.send request))) ≡ panic)
        ↔ ((e : Error) × (r ≡ err e))
  prepared-panic_iff t (err e) = (λ h. (e, refl), λ h. refl)
  prepared-panic_iff t (ok request) = (λ h. cc, λ (e, h). cc)

  -- A call over HTTP returns a value exactly when the request could be built, was answered with a status from
  -- 200 to 299, and the body of the answer could be read and parsed to that value. It panics exactly when the
  -- request could not be built, for an URL that is not valid: the error is not returned.
  pub do_http_iff :
      (t : Transport) (method url body : String)
      → ((a : A)
          → (do_http unmarshal t method url body ≡ done (ok a)) ↔ (
              (request : HttpRequest) × (t.new_request method url body ≡ ok request)
              × Holds (t.send (with_headers request)) a))
        × ((do_http unmarshal t method url body ≡ panic)
            ↔ ((e : Error) × (t.new_request method url body ≡ err e)))
  unfolding do_http create_request
  do_http_iff t method url body = (
    λ a. prepared-read_answer_iff t (t.new_request method url body) a,
    prepared-panic_iff t (t.new_request method url body),
  )
