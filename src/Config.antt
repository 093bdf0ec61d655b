-- ===== src/Config.antt =====
-- Configuration from the environment, internal/config/config.go. `env` is `os.Getenv`, empty where a
-- variable is not set; whether a text is `host:port` is the parameter `is_host_port`, which stands for
-- `net.SplitHostPort` without an error. A Go int is an int64.
mod Tests
mod Readers
pub mod Bounds
pub mod Compose
unfoldable pub use Readers.*
use wallet_scan.Prelude.{
  ℕ, ◌+◌, ◌-◌, ◌*◌, ◌^◌, ◌≤◌, Bool, true, false, not, ◌&&◌, ◌||◌, Option, none, some, List, [], ◌∷◌,
  ltb, leb, eqb, ◌==◌, if◌then◌else◌,
}
use wallet_scan.Prelude.Int.{ℤ, pos, negsuc, sub_ℕ, ltb_ℤ, leb_ℤ, mul64}
use wallet_scan.Prelude.Texts.{Text, codes, text_eq}

pub record ProviderConfig : Type 0 where
  pub btc_url : Text
  pub eth_url : Text
  pub arb_url : Text
  pub bsc_url : Text
  pub sol_url : Text
  pub tron_url : Text
  pub btc_concurrency : ℤ
  pub eth_concurrency : ℤ
  pub arb_concurrency : ℤ
  pub bsc_concurrency : ℤ
  pub sol_concurrency : ℤ
  pub tron_concurrency : ℤ

pub record Config : Type 0 where
  pub database_url : Text
  pub bind_address : Text
  pub api_key : Text
  pub generate_wallet_on_startup : Bool
  pub api_max_in_flight : ℤ
  pub api_initial_concurrency : ℤ
  pub api_queue_wait : ℤ
  pub api_adjust_interval : ℤ
  pub api_target_latency : ℤ
  pub we_com_webhook_url : Text
  pub scan_mode : Text
  pub batch_size : ℤ
  pub max_retries : ℤ
  pub empty_retention_days : ℤ
  pub request_timeout : ℤ
  pub address_workers : ℤ
  pub node_failure_threshold : ℤ
  pub retry_base_delay : ℤ
  pub provider : ProviderConfig

pub data ConfigError : Type 0 where
  bad_boolean : Text → ConfigError
  no_database_url : ConfigError
  bad_scan_mode : ConfigError
  bad_api_max_in_flight : ConfigError
  bad_api_initial_concurrency : ConfigError
  bad_api_queue_wait : ConfigError
  bad_api_adjust_interval : ConfigError
  bad_api_target_latency : ConfigError
  bad_batch_size : ConfigError
  bad_max_retries : ConfigError
  bad_empty_retention_days : ConfigError
  bad_request_timeout : ConfigError
  bad_address_workers : ConfigError
  bad_node_failure_threshold : ConfigError
  bad_retry_base_delay : ConfigError
  bad_bind_address : ConfigError

pub data Loaded : Type 0 where
  loaded : Config → Loaded
  failed : ConfigError → Loaded

-- `time.Duration(n) * unit`, in nanoseconds.
abbrev pub milliseconds : ℤ → ℤ
milliseconds n = mul64 n (pos 1000000)

abbrev pub seconds : ℤ → ℤ
seconds n = mul64 n (pos 1000000000)

unfoldable pub provider_config : Env → ProviderConfig
provider_config env = record {
  btc_url = env_string env (codes "BTC_API_URL") (codes "https://mempool.space/api");
  eth_url = env_string env (codes "ETH_RPC_URL") (codes "https://ethereum-rpc.publicnode.com");
  arb_url = env_string env (codes "ARB_RPC_URL") (codes "https://arb1.arbitrum.io/rpc");
  bsc_url = env_string env (codes "BSC_RPC_URL") (codes "https://bsc-dataseed.bnbchain.org");
  sol_url = env_string env (codes "SOL_RPC_URL") (codes "https://solana-rpc.publicnode.com");
  tron_url = env_string env (codes "TRON_API_URL") (codes "https://api.trongrid.io");
  btc_concurrency = env_int env (codes "BTC_CONCURRENCY") 2;
  eth_concurrency = env_int env (codes "ETH_CONCURRENCY") 4;
  arb_concurrency = env_int env (codes "ARB_CONCURRENCY") 4;
  bsc_concurrency = env_int env (codes "BSC_CONCURRENCY") 4;
  sol_concurrency = env_int env (codes "SOL_CONCURRENCY") 2;
  tron_concurrency = env_int env (codes "TRON_CONCURRENCY") 2;
}

-- The values before they are checked.
unfoldable pub read_config : Env → Bool → Config
read_config env generate = record {
  database_url = env (codes "DATABASE_URL");
  bind_address = env_string env (codes "BIND_ADDRESS") (codes "0.0.0.0:8080");
  api_key = env (codes "SCANNER_API_KEY");
  generate_wallet_on_startup = generate;
  api_max_in_flight = env_int env (codes "API_MAX_IN_FLIGHT") 100;
  api_initial_concurrency = env_int env (codes "API_INITIAL_CONCURRENCY") 20;
  api_queue_wait = milliseconds (env_int env (codes "API_QUEUE_WAIT_MS") 250);
  api_adjust_interval = seconds (env_int env (codes "API_ADJUST_INTERVAL_SECONDS") 5);
  api_target_latency = milliseconds (env_int env (codes "API_TARGET_LATENCY_MS") 800);
  we_com_webhook_url = env (codes "WECOM_WEBHOOK_URL");
  scan_mode = env_string env (codes "SCAN_MODE") (codes "once");
  batch_size = env_int env (codes "BATCH_SIZE") 100;
  max_retries = env_int env (codes "MAX_RETRIES") 3;
  empty_retention_days = env_int env (codes "EMPTY_RETENTION_DAYS") 7;
  request_timeout = seconds (env_int env (codes "REQUEST_TIMEOUT_SECONDS") 12);
  address_workers = env_int env (codes "ADDRESS_WORKERS") 8;
  node_failure_threshold = env_int env (codes "NODE_FAILURE_THRESHOLD") 5;
  retry_base_delay = seconds (env_int env (codes "RETRY_BASE_DELAY_SECONDS") 2);
  provider = provider_config env;
}

abbrev pub outside : ℤ → ℕ → ℕ → Bool
outside z low high = ltb_ℤ z (pos low) || ltb_ℤ (pos high) z

-- The tests of `Load`, in their order: the error of the first that fails. The API's, then the scanner's.
unfoldable pub api_error : Config → Option ConfigError
api_error c =
    if c.database_url == []
    then some no_database_url
    else if not (c.scan_mode == codes "once")
    then some bad_scan_mode
    else if outside c.api_max_in_flight 1 10000
    then some bad_api_max_in_flight
    else if ltb_ℤ c.api_initial_concurrency (pos 1)
        || ltb_ℤ c.api_max_in_flight c.api_initial_concurrency
    then some bad_api_initial_concurrency
    else if leb_ℤ c.api_queue_wait (pos 0)
    then some bad_api_queue_wait
    else if leb_ℤ c.api_adjust_interval (pos 0)
    then some bad_api_adjust_interval
    else if leb_ℤ c.api_target_latency (pos 0)
    then some bad_api_target_latency
    else none

unfoldable pub scan_error : (Text → Bool) → Config → Option ConfigError
scan_error is_host_port c =
    if leb_ℤ c.batch_size (pos 0) || ltb_ℤ (pos 10000) c.batch_size
    then some bad_batch_size
    else if outside c.max_retries 0 20
    then some bad_max_retries
    else if ltb_ℤ c.empty_retention_days (pos 1)
    then some bad_empty_retention_days
    else if leb_ℤ c.request_timeout (pos 0)
    then some bad_request_timeout
    else if leb_ℤ c.address_workers (pos 0) || ltb_ℤ (pos 256) c.address_workers
    then some bad_address_workers
    else if outside c.node_failure_threshold 1 100
    then some bad_node_failure_threshold
    else if leb_ℤ c.retry_base_delay (pos 0)
    then some bad_retry_base_delay
    else if not (is_host_port c.bind_address)
    then some bad_bind_address
    else none

unfoldable pub checked : (Text → Bool) → Config → Loaded
checked is_host_port c = elim (api_error c) [
  | some e ↦ failed e
  | none ↦ elim (scan_error is_host_port c) [ some e ↦ failed e | none ↦ loaded c ]
]

-- `Load`.
unfoldable pub load : (Text → Bool) → Env → Loaded
load is_host_port env = elim (env_bool env (codes "GENERATE_WALLET_ON_STARTUP") true) [
  | none ↦ failed (bad_boolean (codes "GENERATE_WALLET_ON_STARTUP"))
  | some generate ↦ checked is_host_port (read_config env generate)
]
