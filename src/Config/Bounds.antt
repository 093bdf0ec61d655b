-- ===== src/Config/Bounds.antt =====
-- What a loaded configuration satisfies.
use wallet_scan.Prelude.{
  ◌≡◌, ◌≢◌, sym, subst, inl, inr, Bool, true, none, some, [], arith, Option-cases,
}
use wallet_scan.Prelude.Int.{pos, ◌≤ℤ◌}
use wallet_scan.Prelude.Texts.{Text, codes, text_eq, text_beq_iff}
use wallet_scan.Config.{
  Config, loaded, Env, env_bool, read_config, api_error, scan_error, checked, load,
}

-- The bounds on the API's values.
pub record IsApiValid (c : Config) : Type 0 where
  pub has_database : c.database_url ≢ []
  pub mode : c.scan_mode ≡ codes "once"
  pub max_low : pos 1 ≤ℤ c.api_max_in_flight
  pub max_high : c.api_max_in_flight ≤ℤ pos 10000
  pub initial_low : pos 1 ≤ℤ c.api_initial_concurrency
  pub initial_high : c.api_initial_concurrency ≤ℤ c.api_max_in_flight
  pub queue_wait : pos 1 ≤ℤ c.api_queue_wait
  pub interval : pos 1 ≤ℤ c.api_adjust_interval
  pub target : pos 1 ≤ℤ c.api_target_latency

-- The bounds on the scanner's values.
pub record IsScanValid (is_host_port : Text → Bool) (c : Config) : Type 0 where
  pub batch_low : pos 1 ≤ℤ c.batch_size
  pub batch_high : c.batch_size ≤ℤ pos 10000
  pub retries_low : pos 0 ≤ℤ c.max_retries
  pub retries_high : c.max_retries ≤ℤ pos 20
  pub retention : pos 1 ≤ℤ c.empty_retention_days
  pub timeout : pos 1 ≤ℤ c.request_timeout
  pub workers_low : pos 1 ≤ℤ c.address_workers
  pub workers_high : c.address_workers ≤ℤ pos 256
  pub threshold_low : pos 1 ≤ℤ c.node_failure_threshold
  pub threshold_high : c.node_failure_threshold ≤ℤ pos 100
  pub base_delay : pos 1 ≤ℤ c.retry_base_delay
  pub address : is_host_port c.bind_address ≡ true

api_error-IsApiValid : (c : Config) → api_error c ≡ none → IsApiValid c
unfolding api_error
api_error-IsApiValid c h =
    ground (arith, text_beq_iff c.database_url [], text_beq_iff c.scan_mode (codes "once"))

scan_error-IsScanValid : (p : Text → Bool) (c : Config) → scan_error p c ≡ none → IsScanValid p c
unfolding scan_error
scan_error-IsScanValid p c h = ground arith

IsApiValid-api_error : (c : Config) → IsApiValid c → api_error c ≡ none
unfolding api_error
IsApiValid-api_error c v =
    ground (arith, text_beq_iff c.database_url [], text_beq_iff c.scan_mode (codes "once"))

IsScanValid-scan_error : (p : Text → Bool) (c : Config) → IsScanValid p c → scan_error p c ≡ none
unfolding scan_error
IsScanValid-scan_error p c v = ground arith

checked_valid :
    (p : Text → Bool) (c c' : Config)
    → checked p c ≡ loaded c'
    → (c ≡ c') × (api_error c ≡ none) × (scan_error p c ≡ none)
unfolding checked
checked_valid p c c' h = ground arith

-- A configuration that loads is the one that the environment spells, and every value of it lies in its
-- documented range.
pub load_valid :
    (p : Text → Bool) (env : Env) (c : Config)
    → load p env ≡ loaded c
    → (generate : Bool) × (env_bool env (codes "GENERATE_WALLET_ON_STARTUP") true ≡ some generate)
      × (c ≡ read_config env generate)
      × IsApiValid c
      × IsScanValid p c
unfolding load
load_valid p env c h =
    elim (Option-cases (env_bool env (codes "GENERATE_WALLET_ON_STARTUP") true)) [
      | inl e ↦ absurd (ground arith)
      | inr (generate, e) ↦
          let r = read_config env generate in
          let (same, api, scan) = checked_valid p r c (ground arith) in
          (
            generate,
            e,
            sym same,
            subst IsApiValid same (api_error-IsApiValid r api),
            subst (IsScanValid p) same (scan_error-IsScanValid p r scan),
          )
    ]

-- The tests refuse nothing else: an environment with a well-formed switch and values in range loads.
pub load_accepts :
    (p : Text → Bool) (env : Env) (generate : Bool)
    → env_bool env (codes "GENERATE_WALLET_ON_STARTUP") true ≡ some generate
    → IsApiValid (read_config env generate)
    → IsScanValid p (read_config env generate)
    → load p env ≡ loaded (read_config env generate)
unfolding load checked
load_accepts p env generate e api scan =
    let r = read_config env generate in
    let no_api = IsApiValid-api_error r api in
    let no_scan = IsScanValid-scan_error p r scan in ground arith
