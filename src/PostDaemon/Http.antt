-- ===== src/PostDaemon/Http.antt =====
-- src/telempostdaemon.c: `post_record_http`, the backend that sends a record with libcurl. What the
-- calls of libcurl give is an argument.
pub mod Success
use telemetrics_client.Base.{
  ℕ, Bool, true, false, ◌||◌, List, Option, none, some, ◌==◌, if◌then◌else◌,
}
use telemetrics_client.Base.Bytes.{Bytes}
use telemetrics_client.Base.Int.{is_zero}
use telemetrics_client.Base.Run.{Run, done, exit, ◌>>=◌}
use telemetrics_client.Configuration.Values.{
  server_addr_config, get_cainfo_config, get_tidheader_config,
}
use telemetrics_client.Configuration.{
  ConfigState, ConfigSystem, StatResult, set_config_file, reload_config,
}
use telemetrics_client.PostDaemon.{Backend}

-- What curl_easy_perform works with.
pub record Request : Type 0 where
  pub server_addr : Bytes
  pub cert_file : Bytes
  pub tid_header : Bytes
  pub headers : List Bytes
  pub body : Bytes

-- What one call meets: the files of the configuration, what `stat` says of each path, the
-- configuration at hand, whether curl_easy_init gives a handle, and the result of curl_easy_perform
-- with CURLINFO_RESPONSE_CODE.
pub record PostCall : Type 0 where
  pub system : ConfigSystem
  pub stat : Bytes → StatResult
  pub state : ConfigState
  pub curl_easy_init : Bool
  pub curl_easy_perform : Request → ℕ × ℕ

-- Whether the request was made, and the server answered 200 or 201.
unfoldable pub is_sent : ℕ × ℕ → Bool
is_sent (res, http_response) =
    if res == 0 then http_response == 201 || http_response == 200 else false

-- From curl_global_init to the label `Done`; the address is that of the configuration by now.
unfoldable pub perform :
    PostCall → Bytes → Bytes → List Bytes → Bytes → ConfigState → Run (Bool × ConfigState)
unfolding is_sent
perform call cert_file tid_header headers body state =
    if call.curl_easy_init
    then (do
      (server_addr, state') ← server_addr_config call.system state
      done (
        is_sent (
            call.curl_easy_perform (record {
              server_addr = server_addr;
              cert_file = cert_file;
              tid_header = tid_header;
              headers = headers;
              body = body;
            })),
        state',
      ))
    else exit

-- From the label `Done` on: a file that was saved is set again, and the result is false if it cannot
-- be.
unfoldable pub restore_config :
    PostCall → Option Bytes → Bool × ConfigState → Run (Bool × ConfigState)
restore_config call none (result, state) = done (result, state)
restore_config call (some saved_config_file) (result, state) =
    let (ret, state') = set_config_file saved_config_file (call.stat saved_config_file) state in
    reload_config call.system state' >>= (λ s. done ((if is_zero ret then result else false), s))

-- With a configuration file of the record's own. If that cannot be set, nothing is sent, and the
-- result is as if it had been.
unfoldable pub post_with_config :
    PostCall → Bytes → Bytes → List Bytes → Bytes → Bytes → ConfigState → Run (Bool × ConfigState)
unfolding perform restore_config
post_with_config call cert_file tid_header headers body cfg state =
    let (ret, set) = set_config_file cfg (call.stat cfg) state in
    if is_zero ret
    then (do
      state' ← reload_config call.system set
      result ← perform call cert_file tid_header headers body state'
      restore_config call state.config_file result)
    else restore_config call state.config_file (true, set)

unfoldable pub post_configured :
    PostCall
    → Bytes
    → Bytes
    → List Bytes
    → Bytes
    → Option Bytes
    → ConfigState
    → Run (Bool × ConfigState)
unfolding perform post_with_config
post_configured call cert_file tid_header headers body none state =
    perform call cert_file tid_header headers body state
post_configured call cert_file tid_header headers body (some cfg) state =
    post_with_config call cert_file tid_header headers body cfg state

-- The file of the certificates and the tid header are read before the configuration is switched.
unfoldable pub post_record_http :
    PostCall → List Bytes → Bytes → Option Bytes → Run (Bool × ConfigState)
unfolding post_configured
post_record_http call headers body cfg = do
  (cert_file, s) ← get_cainfo_config call.system call.state
  (tid_header, t) ← get_tidheader_config call.system s
  post_configured call cert_file tid_header headers body cfg t

-- The backend, where each call may meet something else.
abbrev pub http_backend : (List Bytes → Bytes → Option Bytes → PostCall) → Backend
http_backend world headers body cfg =
    post_record_http (world headers body cfg) headers body cfg >>= (λ (sent, _). done sent)
