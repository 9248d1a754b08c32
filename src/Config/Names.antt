-- ===== src/Config/Names.antt =====
-- The names of the policies and of the modes of src/config.rs are read back.
use mathlib.Core.Path.{subst}
use codaze.Prelude.{String, ◌≡◌, refl, ◌↔◌, arith, eq_iff}
use codaze.Prelude.Result.{ok}
use codaze.Config.{
  RoutingPolicy, round_robin, least_in_flight, fill_first, FingerprintMode, normalize, passthrough,
  parse_policy, policy_name, parse_mode, mode_name,
}

parse_policy_of_name : (policy : RoutingPolicy) → parse_policy (policy_name policy) ≡ ok policy
unfolding parse_policy policy_name
parse_policy_of_name round_robin = refl
parse_policy_of_name least_in_flight = refl
parse_policy_of_name fill_first = refl

policy_name_of_parse :
    (raw : String) (policy : RoutingPolicy)
    → parse_policy raw ≡ ok policy
    → policy_name policy ≡ raw
unfolding parse_policy policy_name
policy_name_of_parse raw round_robin h =
    ground (arith, eq_iff raw "round_robin", eq_iff raw "least_in_flight", eq_iff raw "fill_first")
policy_name_of_parse raw least_in_flight h =
    ground (arith, eq_iff raw "round_robin", eq_iff raw "least_in_flight", eq_iff raw "fill_first")
policy_name_of_parse raw fill_first h =
    ground (arith, eq_iff raw "round_robin", eq_iff raw "least_in_flight", eq_iff raw "fill_first")

-- A text is read as a policy exactly if it is the name of that policy.
pub parse_policy-policy_name :
    (raw : String) (policy : RoutingPolicy)
    → (parse_policy raw ≡ ok policy) ↔ (policy_name policy ≡ raw)
parse_policy-policy_name raw policy = (
  policy_name_of_parse raw policy,
  λ e. subst (λ r. parse_policy r ≡ ok policy) e (parse_policy_of_name policy),
)

parse_mode_of_name : (mode : FingerprintMode) → parse_mode (mode_name mode) ≡ ok mode
unfolding parse_mode mode_name
parse_mode_of_name normalize = refl
parse_mode_of_name passthrough = refl

mode_name_of_parse :
    (raw : String) (mode : FingerprintMode) → parse_mode raw ≡ ok mode → mode_name mode ≡ raw
unfolding parse_mode mode_name
mode_name_of_parse raw normalize h =
    ground (arith, eq_iff raw "normalize", eq_iff raw "passthrough")
mode_name_of_parse raw passthrough h =
    ground (arith, eq_iff raw "normalize", eq_iff raw "passthrough")

-- A text is read as a mode exactly if it is the name of that mode.
pub parse_mode-mode_name :
    (raw : String) (mode : FingerprintMode) → (parse_mode raw ≡ ok mode) ↔ (mode_name mode ≡ raw)
parse_mode-mode_name raw mode = (
  mode_name_of_parse raw mode,
  λ e. subst (λ r. parse_mode r ≡ ok mode) e (parse_mode_of_name mode),
)
