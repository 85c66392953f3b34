-- ===== src/Demo/Tests.antt =====
-- The demonstration server where nothing can be reached.
use lueur.Prelude.{
  String, ℕ, ◌≡◌, refl, none, some, str_eq, Option, [], err, ok, done, panic, if◌then◌else◌,
}
use lueur.Demo.{
  Client, message, pong, at_ping_myself, at_multi, at_uppercase, run, make_builder, make_client,
  with_proxy, ping_myself, multi_fetch, serve,
}

abbrev offline : Client
offline = record {
  Proxy = String;
  Builder = Option String;
  Handle = Option String;
  Response = ℕ;
  Value = String;
  builder = none;
  http = λ addr. if str_eq addr "http://localhost:3180" then ok addr else err "no URL";
  https = λ addr. ok addr;
  proxy = λ p b. some p;
  build = λ b. ok b;
  get = λ client url. err "connection refused";
  status = λ response. response;
  text = λ response. ok [];
  json = λ response. ok "{}";
  empty = "";
}

abbrev unset : String → Option String
unset variable = none

upper : serve offline unset (λ s. "HELLO") "0" (at_uppercase "hello") ≡ done (message "HELLO")
unfolding serve
upper = refl

fetched_nothing : serve offline unset (λ s. s) "12" at_multi ≡ done (pong "" "12")
unfolding serve multi_fetch make_client make_builder with_proxy
fetched_nothing = refl

pinged_nothing : serve offline unset (λ s. s) "12" at_ping_myself ≡ panic
unfolding serve ping_myself make_client make_builder with_proxy
pinged_nothing = refl

bad_proxy : serve offline (λ variable. some "localhost") (λ s. s) "12" at_multi ≡ panic
unfolding serve multi_fetch make_client make_builder with_proxy
bad_proxy = refl

in_use :
    run
      (λ port. "7070")
      (λ addr. if str_eq addr "127.0.0.1:7070" then err "address in use" else ok tt)
      (record { address = "127.0.0.1"; port = 7070 })
    ≡ panic
unfolding run
in_use = refl
