-- ===== src/Heartbeat/Probing.antt =====
-- heartbeat/probe_eval.go: one probe of a site, and the recording of its result by RecordProbeResult of
-- heartbeat/probe_store.go on the locked check. The HTTP client, the opening of the sealed credential and the
-- printing of a number are parameters; storeTime, which cuts instants to microseconds, is left out.
pub mod Recorded
use irl_notifs.Base.{
  ℕ, suc, ℤ, pos, eqb_ℤ, Text, codes, ◌≡◌, refl, inl, inr, Bool, true, false, ◌&&◌, ◌||◌, not,
  Option, none, some, List, [], ◌∷◌, ◌++◌, ◌==◌, any, arith, Bool-cases, Option-cases,
  if◌then◌else◌,
}
use irl_notifs.Base.Time.{Instant}
use irl_notifs.Heartbeat.Types.{
  Reason, reason_http_status, reason_timeout, reason_body_mismatch, reason_blocked, reason_tls,
  reason_scheme, reason_network, reason_config, is_probe_result_reason, ProbeConfig, ProbeResult,
  ProbeState, StoredCheck,
}
use irl_notifs.Heartbeat.Machine.{apply_probe_result}
use irl_notifs.Heartbeat.Validate.{Verdict, valid, err}
use irl_notifs.Heartbeat.Patch.{AccessToken, validate_access_token}

-- What errors.Is and errors.As find in an error of the client.
pub record TransportError : Type 0 where
  pub not_https : Bool
  pub blocked_address : Bool
  pub tls : Bool
  pub timeout : Bool
  pub dns : Bool

-- Reading at most 64 KiB of the body: the bytes, or whether the failure is a timeout.
pub data Body : Type 0 where
  read : Text → Body
  unread : Bool → Body

pub data Response : Type 0 where
  unbuilt : Response
  no_response : TransportError → Response
  responds : ℤ → Body → Response

-- Opening the sealed credential of a check; `none` where it fails.
pub record ProbeClient : Type 0 where
  pub open_token : ℤ → Text → Option AccessToken
  pub get : Text → Option AccessToken → Response
  pub print_seconds : ℤ → Text

pub record ProbeClaim : Type 0 where
  pub check_id : ℤ
  pub config_version : ℤ
  pub config : ProbeConfig
  pub sealed_access_token : Option Text

abbrev pub failed_probe : Reason → Option ℤ → Text → ProbeResult
failed_probe reason status detail = record {
  status = status;
  reason = some reason;
  detail = detail;
}

-- bytes.Contains.
abbrev starts_with : Text → Text → Bool
starts_with [] text = true
starts_with (p ∷ ps) [] = false
starts_with (p ∷ ps) (c ∷ cs) = p == c && starts_with ps cs

abbrev pub contains : Text → Text → Bool
contains part [] = starts_with part []
contains part (c ∷ cs) = starts_with part (c ∷ cs) || contains part cs

module _ (client : ProbeClient) where
  timeout_detail : ℤ → Text
  timeout_detail timeout_seconds =
      codes "timed out after " ++ client.print_seconds timeout_seconds ++ codes "s"

  unfoldable pub classify_probe_error : TransportError → ℤ → ProbeResult
  unfolding timeout_detail
  classify_probe_error error timeout_seconds =
      if error.not_https
      then failed_probe reason_scheme none (codes "URL is not HTTPS")
      else if error.blocked_address
      then failed_probe reason_blocked none (codes "destination address is not allowed")
      else if error.tls
      then failed_probe reason_tls none (codes "TLS handshake or certificate verification failed")
      else if error.timeout
      then failed_probe reason_timeout none (timeout_detail timeout_seconds)
      else if error.dns
      then failed_probe reason_network none (codes "DNS lookup failed")
      else failed_probe reason_network none (codes "connection failed")

  -- The match of the body, where one is configured.
  unfoldable pub match_body : ProbeConfig → ℤ → Body → ProbeResult
  unfolding timeout_detail
  match_body config status body = elim config.body_match [
    | none ↦ record { status = some status; reason = none; detail = [] }
    | some text ↦ elim body [
      | unread timed_out ↦
          if timed_out
          then failed_probe reason_timeout (some status) (timeout_detail config.timeout_seconds)
          else failed_probe reason_network (some status) (codes "response body could not be read")
      | read bytes ↦
          if not (contains text bytes)
          then failed_probe reason_body_mismatch (some status)
              (codes "response body did not contain the expected text")
          else record { status = some status; reason = none; detail = [] }
    ]
  ]

  unfoldable pub judge_response : ProbeConfig → Response → ProbeResult
  judge_response config unbuilt =
      failed_probe reason_network none (codes "request could not be built")
  judge_response config (no_response error) = classify_probe_error error config.timeout_seconds
  judge_response config (responds status body) =
      if not (any (eqb_ℤ status) config.expected_statuses)
      then failed_probe reason_http_status (some status)
          (codes "HTTP " ++ client.print_seconds status)
      else match_body config status body

  unfoldable pub run_probe : ProbeClaim → ProbeResult
  run_probe claim = elim claim.sealed_access_token [
    | none ↦ judge_response claim.config (client.get claim.config.url none)
    | some sealed ↦ elim (client.open_token claim.check_id sealed) [
      | none ↦ failed_probe reason_config none (codes "access credential could not be opened")
      | some token ↦ elim (validate_access_token token) [
        | err text ↦ failed_probe reason_config none (codes "access credential is invalid")
        | valid ↦ judge_response claim.config (client.get claim.config.url (some token))
      ]
    ]
  ]

-- RecordProbeResult on the row that it locks; `none` is its `applied` false.
unfoldable pub record_probe_result :
    (Text → Text) → ℤ → ProbeResult → Instant → Instant → StoredCheck → Option StoredCheck
record_probe_result sanitize_probe_detail config_version result now hold_off_until current =
    elim current.probe [
      | none ↦ none
      | some probe ↦
          if not (eqb_ℤ probe.config_version config_version)
          then none
          else let applied =
              apply_probe_result sanitize_probe_detail current result now hold_off_until in
            if not applied.1 then none else some applied.0
    ]
