-- ===== src/Proxy/Forward/Laws.antt =====
-- What a forwarded request reports, and what it leaves out.
use Prim.Native.String.{◌++◌}
use lueur.Prelude.{
  String, ℕ, Bool, true, false, ◌≡◌, refl, ◌⊎◌, inl, inr, List, [], ◌∷◌, ok, err, Result, length,
  arith, Result-cases,
}
use lueur.Errors.{ProxyError, internal}
use lueur.Event.{Report, on_started, on_response, on_completed}
use lueur.Plugin.{CompositePlugin, prepare_client, process_request, process_response}
use lueur.Proxy.Forward.Calls.{Ending, returned, failed, panicked, unless, value}
use lueur.Proxy.Forward.Headers.{convert_headers}
use lueur.Proxy.Forward.{Client, Message, Response, http, execute}

abbrev pub is_panicked : {A : Type 0} → Ending A → Bool
is_panicked panicked = true
is_panicked (returned a) = false
is_panicked (failed e) = false

unless-cases :
    {F A E : Type 0} (passthrough : Bool) (step : A → Result A E) (a : A)
    → (unless {F = F} passthrough step a ≡ ([], panicked))
      ⊎ ((b : A) × (unless {F = F} passthrough step a ≡ value b))
unless-cases true step a = inr (a, refl)
unless-cases false step a = elim (Result-cases (step a)) [
  | inl (b, e) ↦ inr (b, rw e refl)
  | inr (x, e) ↦ inl (rw e refl)
]

module _ {Builder Request Url : Type 0} (client : Client Builder Request Url) (method : String)
    (request : Message) (upstream : Url) where
  -- An error because the client could not send the request.
  abbrev pub Refused : ProxyError → Type 0
  Refused error =
      (handle : client.Handle) × (r : Request) × (cause : String) × (client.execute handle r
        ≡ err cause)
      × (error ≡ internal ("Failed to execute reqwest request: " ++ cause))

  -- An error because a body could not be read, or the request not be built.
  abbrev pub Unsent : ProxyError → Type 0
  Unsent error =
      ((cause : String) × (request.body ≡ err cause)
        × (error ≡ internal ("Failed to read request body: " ++ cause)))
      ⊎ ((bytes : List ℕ) × (cause : String) × (client.request method upstream
              (convert_headers request.headers) bytes
            ≡ err cause)
          × (error ≡ internal ("Failed to build reqwest request: " ++ cause)))
      ⊎ ((handle : client.Handle) × (r : Request) × (sent : ℕ × Message) × (cause : String)
          × (client.execute handle r ≡ ok sent)
          × (sent.1.body ≡ err cause)
          × (error ≡ internal ("Failed to read response body: " ++ cause)))

module _ {F Builder Request Stream Url : Type 0} (client : Client Builder Request Url)
    (plugins : CompositePlugin (http Builder Request Stream)) (elapsed : ℕ) (method : String)
    (request : Message) (upstream : Url) where
  -- What is reported before an ending.
  abbrev pub Reported : Ending Response → List (Report F) → Type 0
  Reported (returned resp) reports =
      (bytes : List ℕ) × (request.body ≡ ok bytes)
      × (reports
          ≡ on_started (client.url_text upstream)
            ∷ on_response resp.status
            ∷ on_completed elapsed (length bytes) (length resp.body)
            ∷ [])
  Reported (failed error) reports =
      (Unsent client method request upstream error
        × (reports ≡ on_started (client.url_text upstream) ∷ []))
      ⊎ ((bytes : List ℕ) × (request.body ≡ ok bytes)
          × Refused client method request upstream error
          × (reports
              ≡ on_started (client.url_text upstream)
                ∷ on_response 500
                ∷ on_completed elapsed (length bytes) 0
                ∷ []))
  Reported panicked reports = reports ≡ on_started (client.url_text upstream) ∷ []

  -- An error that is returned after the request's body was read.
  failed_after_body :
      (passthrough : Bool) (bytes : List ℕ) (reports : List (Report F)) (error : ProxyError)
      → request.body ≡ ok bytes
      → execute client plugins elapsed method request upstream passthrough ≡ (reports, failed error)
      → Reported (failed error) reports
  unfolding execute
  failed_after_body passthrough bytes reports error eb e =
      elim (unless-cases {F = F} passthrough (prepare_client _ plugins) client.builder) [
        | inl panics ↦ absurd (ground arith)
        | inr (b, ep) ↦ elim (Result-cases (client.build b)) [
          | inr (x, eh) ↦ absurd (ground arith)
          | inl (handle, eh) ↦
              elim (Result-cases
                (client.request method upstream (convert_headers request.headers) bytes)) [
                  | inr (cause, er) ↦ inl (inr (inl (bytes, cause, er, ground arith)), ground arith)
                  | inl (built, er) ↦
                      elim (unless-cases {F = F} passthrough (process_request _ plugins) built) [
                        | inl panics ↦ absurd (ground arith)
                        | inr (r, eq) ↦ elim (Result-cases (client.execute handle r)) [
                          | inr (cause, ex) ↦
                              inr (bytes, eb, (handle, r, cause, ex, ground arith), ground arith)
                          | inl (sent, ex) ↦ elim (Result-cases sent.1.body) [
                            | inr (cause, et) ↦ inl (
                              inr (inr (handle, r, sent, cause, ex, et, ground arith)),
                              ground arith,
                            )
                            | inl (text, et) ↦ absurd (ground arith)
                          ]
                        ]
                      ]
                ]
        ]
      ]

  -- A response is returned after three reports: the start, the status that the response has after the
  -- plugins, and the completion with the lengths of both bodies. An error of the client that sends
  -- the request is reported as a response 500 and a completion without a body; any other error, of
  -- the request's body, of building the request, or of the response's body, leaves the start alone,
  -- and so does a panic. There are no other reports.
  pub execute-Reported :
      (passthrough : Bool) (reports : List (Report F)) (ending : Ending Response)
      → execute client plugins elapsed method request upstream passthrough ≡ (reports, ending)
      → Reported ending reports
  unfolding execute
  execute-Reported passthrough reports (returned resp) e = ground arith
  execute-Reported passthrough reports (failed error) e = elim (Result-cases request.body) [
    | inr (cause, eb) ↦ inl (inl (cause, eb, ground arith), ground arith)
    | inl (bytes, eb) ↦ failed_after_body passthrough bytes reports error eb e
  ]
  execute-Reported passthrough reports panicked e = ground arith

  -- A task that starts is completed, provided that the request's body and every response's can be
  -- read, that the client and the request can be built, and that no plugin returns an error.
  pub execute-completes :
      (bytes : List ℕ)
      → request.body ≡ ok bytes
      → ((b : Builder) → (b' : Builder) × (prepare_client _ plugins b ≡ ok b'))
      → ((r : Request) → (r' : Request) × (process_request _ plugins r ≡ ok r'))
      → ((r : Response) → (r' : Response) × (process_response _ plugins r ≡ ok r'))
      → ((b : Builder) → (handle : client.Handle) × (client.build b ≡ ok handle))
      → ((headers : List (String × String))
          → (r : Request) × (client.request method upstream headers bytes ≡ ok r))
      → ((handle : client.Handle) (r : Request) (status : ℕ) (resp : Message)
          → client.execute handle r ≡ ok (status, resp)
          → (text : List ℕ) × (resp.body ≡ ok text))
      → (passthrough : Bool)
      → (status received : ℕ) × ((execute {F = F} client plugins elapsed method request upstream
            passthrough).0
          ≡ on_started (client.url_text upstream)
            ∷ on_response status
            ∷ on_completed elapsed (length bytes) received
            ∷ [])
  unfolding execute
  execute-completes bytes e prepares asks answers builds requests reads true =
      let (handle, eh) = builds client.builder in
      let (r, er) = requests (convert_headers request.headers) in
      elim (Result-cases (client.execute handle r)) [
        | inl (sent, ex) ↦
            let (text, et) = reads handle r sent.0 sent.1 ex in (sent.0, length text, ground arith)
        | inr (x, ex) ↦ (500, 0, ground arith)
      ]
  execute-completes bytes e prepares asks answers builds requests reads false =
      let (b, eb) = prepares client.builder in
      let (handle, eh) = builds b in
      let (built, er) = requests (convert_headers request.headers) in
      let (r, er') = asks built in
      elim (Result-cases (client.execute handle r)) [
        | inl (sent, ex) ↦
            let (text, et) = reads handle r sent.0 sent.1 ex in
            let (resp, ea) =
              answers (record {
                status = sent.0;
                headers = convert_headers sent.1.headers;
                body = text;
              }) in
            (resp.status, length resp.body, ground arith)
        | inr (x, ex) ↦ (500, 0, ground arith)
      ]

  -- With passthrough, the plugins are not asked: any others give the same. If the client can be
  -- built, the call does not panic then.
  pub execute-passthrough :
      (others : CompositePlugin (http Builder Request Stream)) (handle : client.Handle)
      → client.build client.builder ≡ ok handle
      → (execute {F = F} client plugins elapsed method request upstream true
          ≡ execute client others elapsed method request upstream true)
        × (is_panicked (execute {F = F} client plugins elapsed method request upstream true).1
            ≡ false)
  unfolding execute
  execute-passthrough others handle e = (refl, ground arith)
