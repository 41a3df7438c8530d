-- ===== src/Examples/Probes.antt =====
-- A probe that times out, on the configuration of its check.
use irl_notifs.Base.{pos, codes, ◌≡◌, refl, true, false, ◌&&◌, not, none, is_some}
use irl_notifs.Heartbeat.Machine.{known_state}
use irl_notifs.Heartbeat.Probing.{
  no_response, ProbeClient, ProbeClaim, run_probe, record_probe_result,
}
use irl_notifs.Heartbeat.Probing.Recorded.{run_probe-recorded}
use irl_notifs.Examples.Checks.{site, probe_state, same_text}

abbrev slow_client : ProbeClient
slow_client = record {
  open_token = λ id sealed. none;
  get = λ url token. no_response (record {
    not_https = false;
    blocked_address = false;
    tls = false;
    timeout = true;
    dns = false;
  });
  print_seconds = λ n. codes "10";
}

abbrev site_claim : ProbeClaim
site_claim = record {
  check_id = site.id;
  config_version = probe_state.config_version;
  config = probe_state.config;
  sealed_access_token = none;
}

run_probe-recorded_example :
    is_some (
      record_probe_result same_text probe_state.config_version
        (run_probe slow_client site_claim)
        (pos 9000)
        (pos 0)
        site)
    ≡ (not site.paused && known_state site.state)
run_probe-recorded_example =
    run_probe-recorded slow_client same_text site_claim site probe_state (pos 9000) (pos 0) refl
      refl
