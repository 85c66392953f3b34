-- ===== src/Fault/HttpError.antt =====
-- `HttpResponseFaultInjector` of lueur-cli/src/fault/http_error.rs; its other methods return what
-- they are given.
pub mod Laws
mod Tests
use lueur.Prelude.{
  ℕ, ltb, leb, ◌&&◌, Option, none, some, List, [], ◌∷◌, Run, done, ◌>>=◌, unwrap, if◌then◌else◌,
}
use lueur.Prelude.Float.{Float}
use lueur.Types.Direction.{ingress}
use lueur.Types.StreamSide.{server}
use lueur.Config.{HttpResponseSettings}
use lueur.Event.{Report, on_applied, http_response_fault}
use lueur.Proxy.Forward.{Response}

-- `StatusCode::from_u16` of the `http` crate: three digits, the first not 0.
abbrev pub from_u16 : ℕ → Option ℕ
from_u16 code = if leb 100 code && ltb code 1000 then some code else none

module _ (fl : Float) where
  open fl use {F, lt}

  -- `draw` is `rand::random`.
  unfoldable pub apply_on_response :
      HttpResponseSettings F → (draw : F) → Response → Run (List (Report F) × Response)
  apply_on_response settings draw resp =
      if lt draw settings.http_response_trigger_probability
      then (do
        status ← unwrap (from_u16 settings.http_response_status_code)
        done (
          on_applied (
                http_response_fault ingress server settings.http_response_status_code
                  settings.http_response_body)
              ∷ [],
          record resp { status = status },
        ))
      else done ([], resp)
