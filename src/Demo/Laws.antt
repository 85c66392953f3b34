-- ===== src/Demo/Laws.antt =====
-- Which requests the demonstration server answers.
use lueur.Prelude.{
  String, ◌≡◌, ◌↔◌, Bool, true, false, ◌&&◌, Option, none, some, Result, ok, err, is_ok, done,
  panic, if◌then◌else◌, Run-cases, inl, inr, arith,
}
use lueur.Demo.{
  Client, Route, at_index, at_ping_myself, at_ping, at_multi, at_uppercase, make_builder,
  make_client, with_proxy, ping_myself, ping_remote, multi_fetch, serve,
}

module _ (c : Client) (env : String → Option String) (to_uppercase : String → String) where
  -- A variable that is not set, or whose value is a proxy.
  abbrev readable : (variable : String) → (String → Result c.Proxy String) → Bool
  readable variable of = elim (env variable) [ none ↦ true | some addr ↦ is_ok (of addr) ]

  -- What a client is asked for, and whether it gets it.
  abbrev pub reached : Route → c.Handle → Bool
  reached at_ping_myself client = elim (c.get client "http://localhost:7070/") [
    | ok response ↦ is_ok (c.text response)
    | err e ↦ false
  ]
  reached at_ping client = elim (c.get client "https://postman-echo.com/get") [
    | ok response ↦ is_ok (c.json response)
    | err e ↦ false
  ]
  reached _ client = true

  abbrev pub needs_client : Route → Bool
  needs_client at_index = false
  needs_client (at_uppercase content) = false
  needs_client _ = true

  abbrev pub answered : Route → Bool
  answered route =
      if needs_client route
      then (elim (make_client c env to_uppercase) [
        | panic ↦ false
        | done client ↦ reached route client
      ])
      else true

  make_builder-panics :
      (make_builder c env to_uppercase ≡ panic)
      ↔ ((readable "HTTP_PROXY" c.http && readable "HTTPS_PROXY" c.https) ≡ false)
  unfolding make_builder with_proxy
  make_builder-panics = ground arith

  -- No answer is sent exactly if a client is needed and cannot be made, or if what a ping asks it
  -- for cannot be had; failures of the two fetches of `/multi` do not matter.
  pub serve-panic_iff :
      (duration : String) (route : Route)
      → (serve c env to_uppercase duration route ≡ panic) ↔ (answered route ≡ false)
  unfolding serve ping_myself ping_remote multi_fetch
  serve-panic_iff duration at_index = ground arith
  serve-panic_iff duration (at_uppercase content) = ground arith
  serve-panic_iff duration at_multi = elim (Run-cases (make_client c env to_uppercase)) [
    | inl fails ↦ ground (arith, fails)
    | inr (client, e) ↦ ground (arith, e)
  ]
  serve-panic_iff duration at_ping = elim (Run-cases (make_client c env to_uppercase)) [
    | inl fails ↦ ground (arith, fails)
    | inr (client, e) ↦ ground (arith, e)
  ]
  serve-panic_iff duration at_ping_myself = elim (Run-cases (make_client c env to_uppercase)) [
    | inl fails ↦ ground (arith, fails)
    | inr (client, e) ↦ ground (arith, e)
  ]
