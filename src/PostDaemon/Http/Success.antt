-- ===== src/PostDaemon/Http/Success.antt =====
-- What `post_record_http` has done when its result is true.
use telemetrics_client.Base.{
  ℕ, ◌≡◌, ◌⊎◌, inl, inr, refl, sym, ap, ◌∙◌, Bool, true, false, List, Option, none, some, ◌==◌,
  if◌then◌else◌, arith, Bool-cases, if_cases,
}
use telemetrics_client.Base.Bytes.{Bytes}
use telemetrics_client.Base.Int.{is_zero}
use telemetrics_client.Base.Run.{done, >>=-eq-done}
use telemetrics_client.Configuration.Values.{
  server_addr_config, get_cainfo_config, get_tidheader_config,
}
use telemetrics_client.Configuration.{
  ConfigState, StatResult, validate_config_file, set_config_file, reload_config,
}
use telemetrics_client.PostDaemon.Http.{
  PostCall, is_sent, perform, restore_config, post_with_config, post_configured, post_record_http,
  http_backend,
}
use telemetrics_client.Record.{StagedRecord}

-- The record was sent, to some address, and the server answered 200 or 201.
abbrev pub IsPosted : PostCall → List Bytes → Bytes → Type 0
IsPosted call headers body =
    (server_addr : Bytes) × (cert_file : Bytes) × (tid_header : Bytes) × (let answer =
        call.curl_easy_perform (record {
          server_addr = server_addr;
          cert_file = cert_file;
          tid_header = tid_header;
          headers = headers;
          body = body;
        }) in
      (answer.0 ≡ 0) × ((answer.1 ≡ 200) ⊎ (answer.1 ≡ 201)))

-- The record names a configuration file that cannot be set, so that it is not sent.
abbrev pub IsUnsettable : PostCall → Option Bytes → Type 0
IsUnsettable call none = ¬ Unit
IsUnsettable call (some cfg) = is_zero (validate_config_file cfg (call.stat cfg)) ≡ false

is_sent_answer :
    (answer : ℕ × ℕ)
    → is_sent answer ≡ true
    → (answer.0 ≡ 0) × ((answer.1 ≡ 200) ⊎ (answer.1 ≡ 201))
unfolding is_sent
is_sent_answer (res, http_response) h = elim (if_cases (res == 0) h) [
  | inr (_, failed) ↦ absurd cc
  | inl (ok, answered) ↦ elim (Bool-cases (http_response == 201)) [
    | inl created ↦ (ground (arith, ok), inr (ground (arith, created)))
    | inr other ↦ (ground (arith, ok), inl (ground (arith, answered, other)))
  ]
]

perform_succeeds :
    (call : PostCall) (cert_file tid_header : Bytes) (headers : List Bytes) (body : Bytes)
    (s s' : ConfigState)
    → perform call cert_file tid_header headers body s ≡ done (true, s')
    → IsPosted call headers body
unfolding perform
perform_succeeds call cert_file tid_header headers body s s' h =
    elim (if_cases call.curl_easy_init h) [
      | inr (_, no_handle) ↦ absurd cc
      | inl (_, run) ↦
          let ((server_addr, t), _, last) = >>=-eq-done (server_addr_config call.system s) _ run in
          (server_addr, cert_file, tid_header, is_sent_answer _ cc)
    ]

kept_true : (b result : Bool) → (if b then result else false) ≡ true → result ≡ true
kept_true true result h = h
kept_true false result h = absurd cc

restore_config_succeeds :
    (call : PostCall) (saved : Option Bytes) (result : Bool) (s s' : ConfigState)
    → restore_config call saved (result, s) ≡ done (true, s')
    → result ≡ true
unfolding restore_config
restore_config_succeeds call none result s s' h = cc
restore_config_succeeds call (some file) result s s' h =
    let again = set_config_file file (call.stat file) s in
    let (t, _, last) = >>=-eq-done (reload_config call.system again.1) _ h in
    kept_true (is_zero again.0) result cc

set_config_file_result :
    (file : Bytes) (st : StatResult) (s : ConfigState)
    → (set_config_file file st s).0 ≡ validate_config_file file st
unfolding set_config_file
set_config_file_result file st s = elim (Bool-cases (is_zero (validate_config_file file st))) [
  | inl valid ↦ rw valid refl
  | inr invalid ↦ rw invalid refl
]

post_with_config_succeeds :
    (call : PostCall) (cert_file tid_header : Bytes) (headers : List Bytes) (body cfg : Bytes)
    (s s' : ConfigState)
    → post_with_config call cert_file tid_header headers body cfg s ≡ done (true, s')
    → IsPosted call headers body ⊎ IsUnsettable call (some cfg)
unfolding post_with_config
post_with_config_succeeds call cert_file tid_header headers body cfg s s' h =
    let changed = set_config_file cfg (call.stat cfg) s in
    elim (if_cases (is_zero changed.0) h) [
      | inr (unset, _) ↦
          inr (ap is_zero (sym (set_config_file_result cfg (call.stat cfg) s)) ∙ unset)
      | inl (_, run) ↦
          let (t, _, later) = >>=-eq-done (reload_config call.system changed.1) _ run in
          let ((result, u), performed, last) =
            >>=-eq-done (perform call cert_file tid_header headers body t) _ later in
          let kept = restore_config_succeeds call s.config_file result u s' last in
          inl (
            perform_succeeds call cert_file tid_header headers body t u
              (performed ∙ ap (λ b. done (b, u)) kept))
    ]

post_configured_succeeds :
    (call : PostCall) (cert_file tid_header : Bytes) (headers : List Bytes) (body : Bytes)
    (cfg : Option Bytes) (s s' : ConfigState)
    → post_configured call cert_file tid_header headers body cfg s ≡ done (true, s')
    → IsPosted call headers body ⊎ IsUnsettable call cfg
unfolding post_configured
post_configured_succeeds call cert_file tid_header headers body none s s' h =
    inl (perform_succeeds call cert_file tid_header headers body s s' h)
post_configured_succeeds call cert_file tid_header headers body (some cfg) s s' h =
    post_with_config_succeeds call cert_file tid_header headers body cfg s s' h

post_record_http_succeeds :
    (call : PostCall) (headers : List Bytes) (body : Bytes) (cfg : Option Bytes) (s' : ConfigState)
    → post_record_http call headers body cfg ≡ done (true, s')
    → IsPosted call headers body ⊎ IsUnsettable call cfg
unfolding post_record_http
post_record_http_succeeds call headers body cfg s' h =
    let ((cert_file, s), _, later) = >>=-eq-done (get_cainfo_config call.system call.state) _ h in
    let ((tid_header, t), _, last) = >>=-eq-done (get_tidheader_config call.system s) _ later in
    post_configured_succeeds call cert_file tid_header headers body cfg t s' last

-- The record was sent, or its configuration file could not be set.
abbrev pub WasTaken : (List Bytes → Bytes → Option Bytes → PostCall) → StagedRecord → Type 0
WasTaken world r =
    let call = world r.headers r.body r.cfg_file in
    IsPosted call r.headers r.body ⊎ IsUnsettable call r.cfg_file

pub http_backend-WasTaken :
    (world : List Bytes → Bytes → Option Bytes → PostCall) (r : StagedRecord)
    → http_backend world r.headers r.body r.cfg_file ≡ done true
    → WasTaken world r
http_backend-WasTaken world r h =
    let call = world r.headers r.body r.cfg_file in
    let ((sent, s'), posted, last) =
      >>=-eq-done (post_record_http call r.headers r.body r.cfg_file) _ h in
    let true_result : sent ≡ true = cc in
    post_record_http_succeeds call r.headers r.body r.cfg_file s'
      (posted ∙ ap (λ b. done (b, s')) true_result)
