-- ===== src/Fault/HttpError/Laws.antt =====
-- What an HTTP fault does to a response.
use lueur.Prelude.{
  ltb, leb, ◌≡◌, ◌↔◌, true, not, ◌&&◌, List, [], ◌∷◌, done, panic, arith, if◌then◌else◌,
}
use lueur.Prelude.Float.{Float}
use lueur.Types.Direction.{ingress}
use lueur.Types.StreamSide.{server}
use lueur.Config.{HttpResponseSettings}
use lueur.Event.{Report, on_applied, http_response_fault}
use lueur.Proxy.Forward.{Response}
use lueur.Fault.HttpError.{apply_on_response}

module _ (fl : Float) (settings : HttpResponseSettings fl.F) (draw : fl.F) (resp : Response) where
  open fl use {F, lt}

  -- A fault that is drawn with a status code of three digits sets the status and is reported with the configured
  -- body, but the response keeps its own body and headers. A fault that is not drawn changes nothing.
  pub apply_on_response-status :
      (resp' : Response) (reports : List (Report F))
      → apply_on_response fl settings draw resp ≡ done (reports, resp')
      → (resp'.body ≡ resp.body)
        × (resp'.headers ≡ resp.headers)
        × (resp'.status ≡ (
            if lt draw settings.http_response_trigger_probability
            then settings.http_response_status_code
            else resp.status))
        × (reports ≡ (
            if lt draw settings.http_response_trigger_probability
            then on_applied (
                http_response_fault ingress server settings.http_response_status_code
                  settings.http_response_body)
              ∷ []
            else []))
  unfolding apply_on_response
  apply_on_response-status resp' reports e = ground arith

  -- It panics exactly if the fault is drawn and the status code does not have three digits.
  pub apply_on_response-panic_iff : (apply_on_response fl settings draw resp ≡ panic) ↔ (
      (lt draw settings.http_response_trigger_probability
        && not (
            leb 100 settings.http_response_status_code
            && ltb settings.http_response_status_code 1000))
      ≡ true)
  unfolding apply_on_response
  apply_on_response-panic_iff = ground arith
