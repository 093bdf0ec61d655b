-- ===== src/Config/Tests.antt =====
-- An environment with the database and two more variables set.
use wallet_scan.Prelude.{◌≡◌, ◌≤◌, refl, true, Bool, some, [], ◌==◌, if◌then◌else◌}
use wallet_scan.Prelude.Int.{pos, mul64, wrap64}
use wallet_scan.Prelude.Texts.{Text, codes, text_beq, text_eq}
use wallet_scan.Config.{
  Env, Config, loaded, failed, bad_batch_size, load, checked, api_error, scan_error, read_config,
  provider_config, env_string, env_int, env_bool, atoi, digits_of, digits_from,
}
use wallet_scan.Config.Bounds.{IsApiValid, IsScanValid, load_valid, load_accepts}
use wallet_scan.Config.Compose.{limiter_config, loaded_limiter}
use wallet_scan.Adaptive.{new}

abbrev env : Env
env name =
    if name == codes "DATABASE_URL"
    then codes "postgres://db"
    else if name == codes "API_MAX_IN_FLIGHT"
    then codes "50"
    else if name == codes "BATCH_SIZE"
    then codes "many"
    else []

abbrev is_host_port : Text → Bool
is_host_port s = true

abbrev read : Config
read = read_config env true

load-env : load is_host_port env ≡ loaded read
unfolding load checked api_error scan_error read_config provider_config env_string env_int env_bool
    atoi digits_of digits_from text_beq mul64 wrap64
load-env = refl

load_valid_example :
    (generate : Bool) × (env_bool env (codes "GENERATE_WALLET_ON_STARTUP") true ≡ some generate)
    × (read ≡ read_config env generate)
    × IsApiValid read
    × IsScanValid is_host_port read
load_valid_example = load_valid is_host_port env read load-env

read_bool : env_bool env (codes "GENERATE_WALLET_ON_STARTUP") true ≡ some true
unfolding env_bool text_beq
read_bool = refl

api_valid : IsApiValid read
api_valid = (load_valid is_host_port env read load-env).3

scan_valid : IsScanValid is_host_port read
scan_valid = (load_valid is_host_port env read load-env).4

load_accepts_example : load is_host_port env ≡ loaded (read_config env true)
load_accepts_example = load_accepts is_host_port env true read_bool api_valid scan_valid

loaded_limiter_example :
    let l = new (limiter_config read) 7 in
    (pos l.max ≡ read.api_max_in_flight)
    × (pos l.global_limit ≡ read.api_initial_concurrency)
    × (l.queue_wait ≡ read.api_queue_wait)
    × (l.interval ≡ read.api_adjust_interval)
    × (l.target ≡ read.api_target_latency)
    × (l.max ≤ 10000)
loaded_limiter_example = loaded_limiter is_host_port env read 7 load-env

-- A number of 20000 that is not in range.
abbrev large_batch : Env
large_batch name =
    if name == codes "DATABASE_URL"
    then codes "postgres://db"
    else if name == codes "BATCH_SIZE"
    then codes "20000"
    else []

batch_refused : load is_host_port large_batch ≡ failed bad_batch_size
unfolding load checked api_error scan_error read_config provider_config env_string env_int env_bool
    atoi digits_of digits_from text_beq mul64 wrap64
batch_refused = refl
