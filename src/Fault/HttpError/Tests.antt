-- ===== src/Fault/HttpError/Tests.antt =====
-- A response that is made a 503.
use lueur.Prelude.{ℕ, some, List, [], ◌∷◌}
use lueur.Types.Direction.{ingress}
use lueur.Types.StreamSide.{server}
use lueur.Config.{HttpResponseSettings}
use lueur.Event.{Report, on_applied, http_response_fault}
use lueur.Proxy.Forward.{Response}

abbrev half : HttpResponseSettings ℕ
half = record {
  http_response_status_code = 503;
  http_response_body = some "sorry";
  http_response_trigger_probability = 500;
}

abbrev fine : Response
fine = record { status = 200; headers = ("date", "today") ∷ []; body = 1 ∷ 2 ∷ [] }

abbrev unavailable : Response
unavailable = record fine { status = 503 }

abbrev reported : List (Report ℕ)
reported = on_applied (http_response_fault ingress server 503 (some "sorry")) ∷ []

abbrev wrong : HttpResponseSettings ℕ
wrong = record half { http_response_status_code = 42 }
