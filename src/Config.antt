-- ===== src/Config.antt =====
-- src/config.rs: the routing policies and the fingerprint modes, with their names.
pub mod Args
pub mod Names
use codaze.Prelude.{String, if◌then◌else◌, ◌==◌}
use codaze.Prelude.Result.{Result, ok, err}

pub data RoutingPolicy : Type 0 where
  round_robin least_in_flight fill_first : RoutingPolicy

pub data FingerprintMode : Type 0 where
  normalize passthrough : FingerprintMode

-- The errors of the command line, and `usage` where the program prints its usage and exits.
pub data ArgsError : Type 0 where
  unsupported_policy unsupported_mode : String → ArgsError
  missing_value unknown_argument invalid_grace_period : String → ArgsError
  empty_version same_addresses home_not_set windows_home_not_set usage : ArgsError

-- `RoutingPolicy::parse` and `as_str`
unfoldable pub parse_policy : String → Result ArgsError RoutingPolicy
parse_policy raw =
    if raw == "round_robin"
    then ok round_robin
    else if raw == "least_in_flight"
    then ok least_in_flight
    else if raw == "fill_first"
    then ok fill_first
    else err (unsupported_policy raw)

unfoldable pub policy_name : RoutingPolicy → String
policy_name round_robin = "round_robin"
policy_name least_in_flight = "least_in_flight"
policy_name fill_first = "fill_first"

-- `FingerprintMode::parse` and `as_str`
unfoldable pub parse_mode : String → Result ArgsError FingerprintMode
parse_mode raw =
    if raw == "normalize"
    then ok normalize
    else if raw == "passthrough"
    then ok passthrough
    else err (unsupported_mode raw)

unfoldable pub mode_name : FingerprintMode → String
mode_name normalize = "normalize"
mode_name passthrough = "passthrough"
