-- ===== src/Plugin/Rpc/Tests.antt =====
-- Plugins that add a byte, and a response without a length.
use lueur.Prelude.{ℕ, none, List, [], ◌∷◌, ok, done, panic, ◌≡◌, refl}
use lueur.Types.Direction.{Direction, ingress, egress}
use lueur.Proxy.Forward.{Response}
use lueur.Plugin.Rpc.{
  Service, RemotePlugin, GetPluginInfoResponse, process_response, response_loop, has, without,
}

abbrev info : GetPluginInfoResponse
info = record {
  name = "adder";
  version = "1";
  author = "";
  url = "";
  platform = "";
  direction = "egress";
}

abbrev adders : Service
adders = record {
  Client = ℕ;
  connect = λ addr. ok 5;
  get_plugin_info = λ client. ok info;
  process_request = λ client bytes. ok (client ∷ bytes);
  process_response = λ client bytes. ok (client ∷ bytes);
}

abbrev adder : (client : ℕ) → Direction → RemotePlugin adders
adder client direction = record {
  name = "adder";
  version = "1";
  author = none;
  url = none;
  platform = none;
  client = client;
  direction = direction;
}

abbrev both : List (RemotePlugin adders)
both = adder 5 egress ∷ adder 6 ingress ∷ []

abbrev chunked : Response
chunked = record { status = 200; headers = ("transfer-encoding", "chunked") ∷ []; body = 1 ∷ [] }

unmeasured : process_response adders both chunked ≡ panic
unfolding process_response response_loop has
unmeasured = refl

in_turn :
    process_response adders both (record chunked { headers = ("content-length", "1") ∷ [] })
    ≡ done (ok (record { status = 200; headers = []; body = 6 ∷ 5 ∷ 1 ∷ [] }))
unfolding process_response response_loop has without
in_turn = refl
