-- ===== src/Errors.antt =====
-- lueur-cli/src/errors.rs. The errors of other crates that a constructor wraps are kept as the text
-- that they display.
use Prim.Native.String.{◌++◌}
use lueur.Prelude.{String, ℕ}

pub data ProxyError : Type 0 where
  invalid_configuration network_error hyper_error io_error grpc_error : String → ProxyError
  rpc_call_error : (plugin method msg : String) → ProxyError
  rpc_connection_error : (plugin msg : String) → ProxyError
  invalid_request other internal : String → ProxyError

pub data ScenarioError : Type 0 where
  io_error report_error uri_parse_error walk_dir_error : String → ScenarioError
  read_error parse_error : (file cause : String) → ScenarioError

-- `into_response`: the status code and the text under "error".
unfoldable pub into_response : ProxyError → ℕ × String
into_response (invalid_configuration msg) = (400, "Invalid Configuration: " ++ msg)
into_response (network_error err) = (502, "Network Error: " ++ err)
into_response (hyper_error err) = (502, "Hyper Error: " ++ err)
into_response (ProxyError.io_error err) = (500, "IO Error: " ++ err)
into_response (grpc_error err) = (502, "gRPC Error: " ++ err)
into_response (rpc_call_error plugin method msg) =
    (400, "RPC Call Error in plugin '" ++ plugin ++ "', method '" ++ method ++ "': " ++ msg)
into_response (rpc_connection_error plugin msg) =
    (400, "RPC Connection Error to plugin '" ++ plugin ++ "': " ++ msg)
into_response (invalid_request msg) = (400, "Invalid Request: " ++ msg)
into_response (other msg) = (500, "Other Error: " ++ msg)
into_response (internal msg) = (500, "Internal Server Error: " ++ msg)
