-- ===== src/Proxy/Forward/Tests.antt =====
-- A client whose answers are fixed, at which the theorems about forwarding are tried out.
use lueur.Prelude.{
  String, ℕ, ◌==◌, if◌then◌else◌, ◌≡◌, refl, false, List, [], ◌∷◌, length, arith, ok, err,
}
use lueur.Errors.{internal}
use lueur.Event.{Report, on_started, on_response, on_completed}
use lueur.Plugin.{
  Http, FaultInjector, CompositePlugin, in_turn, prepare_client, process_request, process_response,
}
use lueur.Proxy.Forward.{Client, Message, Response, http, execute}
use lueur.Proxy.Forward.Calls.{returned, failed}
use lueur.Proxy.Forward.Headers.{HeaderMap, convert_headers}
use lueur.Proxy.Forward.Laws.{Reported, execute-Reported, execute-completes}

abbrev two_cookies : HeaderMap
two_cookies = ("set-cookie", "a=1") ∷ ("date", "today") ∷ ("set-cookie", "b=2") ∷ []

-- A server that answers 200 with two bytes, to a request with one byte at least.
abbrev server : Client ℕ ℕ String
server = record {
  Handle = ℕ;
  builder = 0;
  build = λ b. ok b;
  request = λ method url headers bytes. ok (length bytes);
  execute = λ handle r.
      if r == 0
      then err "connection refused"
      else ok (200, record { headers = two_cookies; body = ok (1 ∷ 2 ∷ []) });
  url_text = λ url. url;
}

abbrev numbers : Http
numbers = http ℕ ℕ ℕ

-- An injector that answers 503.
abbrev unavailable : FaultInjector numbers
unavailable = record {
  inject = λ stream side. stream;
  apply_on_request_builder = λ b. ok b;
  apply_on_request = λ r. ok r;
  apply_on_response = λ resp. ok (record resp { status = 503 });
}

abbrev one : CompositePlugin numbers
one = record { injectors = unavailable ∷ [] }

abbrev posted : List ℕ → Message
posted bytes = record { headers = []; body = ok bytes }

abbrev answered : Response
answered = record {
  status = 503;
  headers = ("set-cookie", "b=2") ∷ ("date", "today") ∷ [];
  body = 1 ∷ 2 ∷ [];
}

abbrev answered_reports : List (Report ℕ)
answered_reports = on_started "http://shop:80/" ∷ on_response 503 ∷ on_completed 40 1 2 ∷ []

abbrev refused_reports : List (Report ℕ)
refused_reports = on_started "http://shop:80/" ∷ on_response 500 ∷ on_completed 40 0 0 ∷ []

execute-Reported_example :
    Reported server one 40 "POST"
      (posted (9 ∷ []))
      "http://shop:80/"
      (returned answered)
      answered_reports
unfolding execute prepare_client process_request process_response in_turn convert_headers
execute-Reported_example =
    execute-Reported server one 40 "POST" (posted (9 ∷ [])) "http://shop:80/" false answered_reports
      (returned answered) refl

-- A request that cannot be sent.
refused :
    execute server one 40 "POST" (posted []) "http://shop:80/" false
    ≡ (refused_reports, failed (internal "Failed to execute reqwest request: connection refused"))
unfolding execute prepare_client process_request in_turn convert_headers
refused = refl

answers_read :
    (handle r status : ℕ) (resp : Message)
    → server.execute handle r ≡ ok (status, resp)
    → (text : List ℕ) × (resp.body ≡ ok text)
answers_read handle r status resp e = (1 ∷ 2 ∷ [], ground arith)

execute-completes_example :
    (status received : ℕ) × ((execute {F = ℕ} server one 40 "POST"
        (posted (9 ∷ []))
        "http://shop:80/"
        false).0
      ≡ on_started "http://shop:80/" ∷ on_response status ∷ on_completed 40 1 received ∷ [])
unfolding prepare_client process_request process_response in_turn
execute-completes_example =
    execute-completes server one 40 "POST" (posted (9 ∷ [])) "http://shop:80/" (9 ∷ []) refl
      (λ b. (b, refl)) (λ r. (r, refl)) (λ r. (record r { status = 503 }, refl)) (λ b. (b, refl))
      (λ headers. (1, refl)) answers_read false
