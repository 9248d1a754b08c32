-- ===== src/Config/Args.antt =====
-- src/config.rs: the command line. An `OsString` is a text, `PathBuf::from` of one the path of that one
-- piece.
pub mod Laws
use Prim.Native.String.{◌++◌ as append}
use codaze.Prelude.{
  ℕ, String, Bool, true, Option, none, some, List, [], ◌∷◌, if◌then◌else◌, and_then, ◌==◌, false,
}
use codaze.Prelude.Text.{trim, is_empty}
use codaze.Prelude.Result.{Result, ok, err, ok_or, ◌>>=◌}
use codaze.Config.{
  RoutingPolicy, least_in_flight, FingerprintMode, normalize, ArgsError, missing_value,
  unknown_argument, invalid_grace_period, empty_version, same_addresses, home_not_set,
  windows_home_not_set, usage, parse_policy, parse_mode,
}
use codaze.Accounts.Types.{FilePath, join}
use codaze.Semantics.Payload.{parse_u64}

pub record RuntimeConfig : Type 0 where
  pub listen : String
  pub admin_listen : String
  pub accounts_dir : FilePath
  pub routing_policy : RoutingPolicy
  pub fingerprint_mode : FingerprintMode
  pub upstream_base_url : String
  pub codex_version : String
  pub request_timeout_seconds : ℕ
  pub refresh_skew_seconds : ℕ
  pub accounts_scan_interval_seconds : ℕ
  pub shutdown_grace_period_seconds : ℕ

-- The environment that the default directory is taken from.
pub record HomeEnv : Type 0 where
  pub is_windows : Bool
  pub home : Option String
  pub userprofile : Option String
  pub homedrive : Option String
  pub homepath : Option String

abbrev pub non_empty : Option String → Option String
non_empty none = none
non_empty (some s) = if is_empty s then none else some s

unfoldable pub windows_home_dir : HomeEnv → Option FilePath
windows_home_dir e = elim (non_empty e.userprofile) [
  | some userprofile ↦ some (userprofile ∷ [])
  | none ↦ and_then (non_empty e.homedrive) (λ homedrive.
      and_then (non_empty e.homepath) (λ homepath. some (append homedrive homepath ∷ [])))
]

unfoldable pub default_accounts_dir : HomeEnv → Result ArgsError FilePath
unfolding windows_home_dir
default_accounts_dir e = do
  home_dir ← elim e.is_windows [
    | true ↦ ok_or (windows_home_dir e) windows_home_not_set
    | false ↦ ok_or (and_then (non_empty e.home) (λ home. some (home ∷ []))) home_not_set
  ]
  ok (join home_dir ".codaze")

-- The variables of the loop over the arguments.
pub record Draft : Type 0 where
  pub listen : String
  pub admin_listen : String
  pub accounts_dir : Option FilePath
  pub routing_policy : RoutingPolicy
  pub fingerprint_mode : FingerprintMode
  pub codex_version : String
  pub shutdown_grace_period_seconds : ℕ

abbrev pub defaults : Draft
defaults = record {
  listen = "127.0.0.1:18039";
  admin_listen = "127.0.0.1:18040";
  accounts_dir = none;
  routing_policy = least_in_flight;
  fingerprint_mode = normalize;
  codex_version = "0.121.0";
  shutdown_grace_period_seconds = 10;
}

-- The options that take a value.
pub data Flag : Type 0 where
  listen_flag admin_listen_flag accounts_dir_flag routing_policy_flag : Flag
  fingerprint_mode_flag codex_version_flag grace_period_flag : Flag

pub data Argument : Type 0 where
  flag : Flag → Argument
  help unknown : Argument

unfoldable pub flag_name : Flag → String
flag_name listen_flag = "--listen"
flag_name admin_listen_flag = "--admin-listen"
flag_name accounts_dir_flag = "--accounts-dir"
flag_name routing_policy_flag = "--routing-policy"
flag_name fingerprint_mode_flag = "--fingerprint-mode"
flag_name codex_version_flag = "--codex-version"
flag_name grace_period_flag = "--shutdown-grace-period-seconds"

-- The patterns of the `match` on an argument.
unfoldable pub argument_of : String → Argument
unfolding flag_name
argument_of arg =
    if arg == flag_name listen_flag
    then flag listen_flag
    else if arg == flag_name admin_listen_flag
    then flag admin_listen_flag
    else if arg == flag_name accounts_dir_flag
    then flag accounts_dir_flag
    else if arg == flag_name routing_policy_flag
    then flag routing_policy_flag
    else if arg == flag_name fingerprint_mode_flag
    then flag fingerprint_mode_flag
    else if arg == flag_name codex_version_flag
    then flag codex_version_flag
    else if arg == flag_name grace_period_flag
    then flag grace_period_flag
    else if arg == "--help"
    then help
    else if arg == "-h"
    then help
    else unknown

unfoldable pub set_flag : Flag → String → Draft → Result ArgsError Draft
set_flag listen_flag value d = ok (record d { listen = value })
set_flag admin_listen_flag value d = ok (record d { admin_listen = value })
set_flag accounts_dir_flag value d = ok (record d { accounts_dir = some (value ∷ []) })
set_flag routing_policy_flag value d = do
  policy ← parse_policy value
  ok (record d { routing_policy = policy })
set_flag fingerprint_mode_flag value d = do
  mode ← parse_mode value
  ok (record d { fingerprint_mode = mode })
set_flag codex_version_flag value d = ok (record d { codex_version = value })
set_flag grace_period_flag value d = do
  n ← ok_or (parse_u64 value) (invalid_grace_period value)
  ok (record d { shutdown_grace_period_seconds = n })

-- The loop. A flag waits for its value.
unfoldable pub parse_args : List String → Option Flag → Draft → Result ArgsError Draft
parse_args [] none d = ok d
parse_args [] (some f) d = err (missing_value (flag_name f))
parse_args (value ∷ rest) (some f) d = set_flag f value d >>= parse_args rest none
parse_args (arg ∷ rest) none d = elim (argument_of arg) [
  | flag f ↦ parse_args rest (some f) d
  | help ↦ err usage
  | unknown ↦ err (unknown_argument arg)
]

abbrev pub configure : Draft → FilePath → RuntimeConfig
configure d accounts_dir = record {
  listen = d.listen;
  admin_listen = d.admin_listen;
  accounts_dir = accounts_dir;
  routing_policy = d.routing_policy;
  fingerprint_mode = d.fingerprint_mode;
  upstream_base_url = "https://chatgpt.com/backend-api/codex";
  codex_version = d.codex_version;
  request_timeout_seconds = 600;
  refresh_skew_seconds = 8;
  accounts_scan_interval_seconds = 15;
  shutdown_grace_period_seconds = d.shutdown_grace_period_seconds;
}

abbrev pub accounts_dir_of : HomeEnv → Option FilePath → Result ArgsError FilePath
accounts_dir_of e (some path) = ok path
accounts_dir_of e none = default_accounts_dir e

-- The tests after the loop, and the configuration.
unfoldable pub finish : HomeEnv → Draft → Result ArgsError RuntimeConfig
finish e d =
    if is_empty (trim d.codex_version)
    then err empty_version
    else if d.listen == d.admin_listen
    then err same_addresses
    else accounts_dir_of e d.accounts_dir >>= λ path. ok (configure d path)

unfoldable pub from_args : HomeEnv → List String → Result ArgsError RuntimeConfig
from_args e args = parse_args args none defaults >>= finish e
