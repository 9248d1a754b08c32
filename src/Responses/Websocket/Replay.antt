-- ===== src/Responses/Websocket/Replay.antt =====
-- How src/responses/websocket/errors.rs and protocol.rs agree with each other and with
-- src/gateway_errors.rs.
use codaze.Prelude.{
  ℕ, String, true, false, none, some, ◌≡◌, refl, arith, and_then, Bool-cases, Option-cases, inl,
  inr, ◌≤◌, ◌∙◌, contains, ◌==◌, eq_iff,
}
use mathlib.Core.Path.{subst, sym}
use codaze.Prelude.Time.{DateTime}
use codaze.Json.{Value}
use codaze.Semantics.Payload.{Parsers}
use codaze.Semantics.Analysis.{timeout, retry_limit, network, build, http}
use codaze.Failover.Step.{FailoverFailure, refresh, transport, pool_blocked, caller_json, internal}
use codaze.Http.{HttpCrate}
use codaze.Failure.{Texts, SyntheticResponseFailedPayload}
use codaze.GatewayErrors.{failover_failure_kind}
use codaze.Upstream.Fingerprint.{Codec}
use codaze.Responses.Events.{ClassifiedEventFailure, wrapped_error_status}
use codaze.Responses.Websocket.Protocol.{
  Message, text, binary, ping, pong, raw_frame, close, Upstream, type_of,
  upstream_message_commits_request, upstream_message_is_terminal, websocket_message_type,
  CloseCodes, map_client_message_to_upstream, map_upstream_message_to_client,
  is_wire_legal_close_code, sanitize_client_close_frame_for_upstream,
  sanitize_upstream_close_frame_for_client, uncommitted_types, terminal_types,
}
use codaze.Responses.Websocket.Errors.{
  websocket_failure_kind, websocket_error_json, classify_websocket_upstream_terminal_failure,
  analyze_websocket_terminal_text, terminal_of_event, failure_of,
}

-- An event of a type that commits nothing and ends the request.
abbrev EndsUncommitted : String → Type 0
EndsUncommitted event =
    (contains uncommitted_types event ≡ true) × (contains terminal_types event ≡ true)

EndsUncommitted-named :
    (event name : String) → (event == name) ≡ true → EndsUncommitted name → EndsUncommitted event
EndsUncommitted-named event name same ends =
    let e : event ≡ name = (eq_iff event name).0 same in subst EndsUncommitted (sym e) ends

module _ (http_crate : HttpCrate) (p : Parsers) (texts : Texts) (now : DateTime) where
  -- The websocket holds the same failures the gateway's to answer for as the other answers do.
  pub websocket_failure_kind-failover_failure_kind :
      (failure : FailoverFailure)
      → websocket_failure_kind p texts now failure
        ≡ failover_failure_kind http_crate p texts now failure
  unfolding websocket_failure_kind failover_failure_kind
  websocket_failure_kind-failover_failure_kind (refresh error) = refl
  websocket_failure_kind-failover_failure_kind (pool_blocked summary) = refl
  websocket_failure_kind-failover_failure_kind (transport (http status headers body)) = refl
  websocket_failure_kind-failover_failure_kind (transport timeout) = refl
  websocket_failure_kind-failover_failure_kind (transport (network e)) = refl
  websocket_failure_kind-failover_failure_kind (transport (build e)) = refl
  websocket_failure_kind-failover_failure_kind (transport retry_limit) = refl
  websocket_failure_kind-failover_failure_kind (caller_json status message) = refl
  websocket_failure_kind-failover_failure_kind (internal status detail) = refl

  -- Of an error that the gateway writes for the websocket, its own reader of errors finds the status,
  -- which is a status code.
  pub wrapped_error_status-websocket_error_json :
      (status_text : ℕ → String) (status : ℕ) (payload : SyntheticResponseFailedPayload)
      → 100 ≤ status
      → status ≤ 999
      → wrapped_error_status (websocket_error_json p texts now status_text status payload)
        ≡ some status
  unfolding wrapped_error_status websocket_error_json
  wrapped_error_status-websocket_error_json status_text status payload low high = ground arith

  terminal_of_event-EndsUncommitted :
      (event : String) (json : Value) (classified : ClassifiedEventFailure)
      → and_then (terminal_of_event http_crate p now event json) (failure_of http_crate p now)
        ≡ some classified
      → EndsUncommitted event
  unfolding terminal_of_event
  terminal_of_event-EndsUncommitted event json classified found =
      elim (Bool-cases (event == "error")) [
        | inl e ↦ EndsUncommitted-named event "error" e (refl, refl)
        | inr e ↦ elim (Bool-cases (event == "response.failed")) [
          | inl f ↦ EndsUncommitted-named event "response.failed" f (refl, refl)
          | inr f ↦ elim (Bool-cases (event == "response.incomplete")) [
            | inl g ↦ EndsUncommitted-named event "response.incomplete" g (refl, refl)
            | inr g ↦ elim (Bool-cases (event == "response.completed")) [
              | inl h ↦ let never = rw (e, h) at found in absurd (cc)
              | inr h ↦ let never = rw (e, f, g, h) at found in absurd (cc)
            ]
          ]
        ]
      ]

  -- An event that the replay of a request would act on is one that commits nothing and ends the
  -- request.
  pub classify_websocket_upstream_terminal_failure_uncommitted :
      (c : Codec) (message : Upstream) (classified : ClassifiedEventFailure)
      → ((t : String) → c.decode t ≡ p.json t)
      → classify_websocket_upstream_terminal_failure http_crate p now message ≡ some classified
      → (upstream_message_commits_request c message ≡ false)
        × (upstream_message_is_terminal c message ≡ true)
  unfolding classify_websocket_upstream_terminal_failure upstream_message_commits_request
      upstream_message_is_terminal
  classify_websocket_upstream_terminal_failure_uncommitted c (text t) classified same found =
      elim (Option-cases (p.json t)) [
        | inl e ↦ let never = rw (e, analyze_websocket_terminal_text) at found in absurd (cc)
        | inr (json, e) ↦ elim (Option-cases (type_of json)) [
          | inl f ↦ let never = rw (e, f, analyze_websocket_terminal_text) at found in absurd (cc)
          | inr (event, f) ↦
              let (uncommitted, ends) =
                terminal_of_event-EndsUncommitted event json classified
                  (rw (e, f, analyze_websocket_terminal_text) at found) in
              let read : c.decode t ≡ some json = same t ∙ e in
              (
                rw (read, f, uncommitted, upstream_message_commits_request, websocket_message_type)
                    refl,
                rw (read, f, ends, upstream_message_is_terminal, websocket_message_type) refl,
              )
        ]
      ]
  classify_websocket_upstream_terminal_failure_uncommitted c (binary b) classified same found =
      absurd (cc)
  classify_websocket_upstream_terminal_failure_uncommitted c (ping b) classified same found =
      absurd (cc)
  classify_websocket_upstream_terminal_failure_uncommitted c (pong b) classified same found =
      absurd (cc)
  classify_websocket_upstream_terminal_failure_uncommitted c (raw_frame b) classified same found =
      absurd (cc)
  classify_websocket_upstream_terminal_failure_uncommitted c (close f) classified same found =
      absurd (cc)

-- The codes that may stand in a frame come back as they were.
abbrev pub IsFaithful : CloseCodes → Type 0
IsFaithful codes =
    (n : ℕ)
    → is_wire_legal_close_code (codes.of_number n) ≡ true
    → codes.to_number (codes.of_number n) ≡ n

-- The frame is legal, if there is one.
abbrev pub IsLegal : CloseCodes → Message ℕ → Type 0
IsLegal codes (close (some frame)) = is_wire_legal_close_code (codes.of_number frame.code) ≡ true
IsLegal codes (raw_frame bytes) = ⊥
IsLegal codes message = Unit {0}

-- A message of the client whose close code may be sent is the same again on its way back.
pub map_upstream_message_to_client-map_client_message_to_upstream :
    (codes : CloseCodes) (message : Message ℕ)
    → IsFaithful codes
    → IsLegal codes message
    → and_then (map_client_message_to_upstream codes message) (map_upstream_message_to_client codes)
      ≡ some message
unfolding map_client_message_to_upstream map_upstream_message_to_client
map_upstream_message_to_client-map_client_message_to_upstream codes (text t) same legal = refl
map_upstream_message_to_client-map_client_message_to_upstream codes (binary b) same legal = refl
map_upstream_message_to_client-map_client_message_to_upstream codes (ping b) same legal = refl
map_upstream_message_to_client-map_client_message_to_upstream codes (pong b) same legal = refl
map_upstream_message_to_client-map_client_message_to_upstream codes (raw_frame b) same legal =
    elim legal [ ]
map_upstream_message_to_client-map_client_message_to_upstream codes (close none) same legal = refl
map_upstream_message_to_client-map_client_message_to_upstream codes (close (some frame)) same
      legal =
    let back = same frame.code legal in
    rw
      (
        legal, back, sanitize_client_close_frame_for_upstream,
        sanitize_upstream_close_frame_for_client,
      )
      (rw legal refl)
