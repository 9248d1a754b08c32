-- ===== src/Config/Args/Laws.antt =====
-- What the command line of src/config.rs accepts, and that every configuration can be written on it.
use codaze.Prelude.{
  ◌≤◌, String, false, Option, none, some, List, [], ◌∷◌, ◌≡◌, ◌≢◌, refl, arith, inl, inr, eq_iff,
  Bool-cases, ◌==◌,
}
use codaze.Prelude.Decimal.{show}
use codaze.Prelude.Text.{trim, is_empty}
use codaze.Prelude.Time.{u64_max}
use codaze.Prelude.Result.{ok, ◌>>=◌, >>=-eq-ok}
use codaze.Config.{policy_name, mode_name}
use codaze.Config.Names.{parse_policy-policy_name, parse_mode-mode_name}
use codaze.Semantics.Numbers.{parse_u64-show, parse_u64-le}
use codaze.Config.Args.{
  RuntimeConfig, HomeEnv, Draft, defaults, Flag, listen_flag, admin_listen_flag, accounts_dir_flag,
  routing_policy_flag, fingerprint_mode_flag, codex_version_flag, grace_period_flag, argument_of,
  flag, help, unknown, flag_name, set_flag, parse_args, finish, from_args, accounts_dir_of,
  configure,
}

argument_of-flag_name : (f : Flag) → argument_of (flag_name f) ≡ flag f
unfolding argument_of flag_name
argument_of-flag_name listen_flag = refl
argument_of-flag_name admin_listen_flag = refl
argument_of-flag_name accounts_dir_flag = refl
argument_of-flag_name routing_policy_flag = refl
argument_of-flag_name fingerprint_mode_flag = refl
argument_of-flag_name codex_version_flag = refl
argument_of-flag_name grace_period_flag = refl

-- A flag with its value is one step of the loop.
parse_args_flag :
    (f : Flag) (value : String) (rest : List String) (d : Draft)
    → parse_args (flag_name f ∷ value ∷ rest) none d ≡ (set_flag f value d >>= parse_args rest none)
unfolding parse_args
parse_args_flag f value rest d = rw (argument_of-flag_name f, parse_args)

-- The command line that sets every option.
unfoldable pub command_line : String → Draft → List String
unfolding flag_name
command_line dir d =
    flag_name listen_flag
    ∷ d.listen
    ∷ flag_name admin_listen_flag
    ∷ d.admin_listen
    ∷ flag_name accounts_dir_flag
    ∷ dir
    ∷ flag_name routing_policy_flag
    ∷ policy_name d.routing_policy
    ∷ flag_name fingerprint_mode_flag
    ∷ mode_name d.fingerprint_mode
    ∷ flag_name codex_version_flag
    ∷ d.codex_version
    ∷ flag_name grace_period_flag
    ∷ show d.shutdown_grace_period_seconds
    ∷ []

parse_args-command_line :
    (dir : String) (d : Draft)
    → d.shutdown_grace_period_seconds ≤ u64_max
    → parse_args (command_line dir d) none defaults
      ≡ ok (record d { accounts_dir = some (dir ∷ []) })
unfolding command_line set_flag parse_args
parse_args-command_line dir d fits =
    let policy = (parse_policy-policy_name _ d.routing_policy).1 refl in
    let mode = (parse_mode-mode_name _ d.fingerprint_mode).1 refl in
    let number = parse_u64-show d.shutdown_grace_period_seconds fits in
    rw (
      parse_args_flag, parse_args_flag, parse_args_flag, parse_args_flag, policy, parse_args_flag,
      mode, parse_args_flag, parse_args_flag, number, parse_args,
    )

-- Every configuration of policies, modes, addresses, version, directory and grace period within 64
-- bits can be written on the command line, which is then read as just that, before the final tests.
pub from_args-command_line :
    (e : HomeEnv) (dir : String) (d : Draft)
    → d.shutdown_grace_period_seconds ≤ u64_max
    → from_args e (command_line dir d) ≡ finish e (record d { accounts_dir = some (dir ∷ []) })
unfolding from_args
from_args-command_line e dir d fits = rw (parse_args-command_line dir d fits)

set_flag-le :
    (f : Flag) (value : String) (d r : Draft)
    → d.shutdown_grace_period_seconds ≤ u64_max
    → set_flag f value d ≡ ok r
    → r.shutdown_grace_period_seconds ≤ u64_max
unfolding set_flag
set_flag-le listen_flag value d r fits h = ground arith
set_flag-le admin_listen_flag value d r fits h = ground arith
set_flag-le accounts_dir_flag value d r fits h = ground arith
set_flag-le routing_policy_flag value d r fits h = ground arith
set_flag-le fingerprint_mode_flag value d r fits h = ground arith
set_flag-le codex_version_flag value d r fits h = ground arith
set_flag-le grace_period_flag value d r fits h =
    ground (arith, parse_u64-le value r.shutdown_grace_period_seconds)

parse_args-le :
    (args : List String) (waits : Option Flag) (d r : Draft)
    → d.shutdown_grace_period_seconds ≤ u64_max
    → parse_args args waits d ≡ ok r
    → r.shutdown_grace_period_seconds ≤ u64_max
unfolding parse_args
parse_args-le [] none d r fits h = ground arith
parse_args-le [] (some f) d r fits h = cc
parse_args-le (value ∷ rest) (some f) d r fits h =
    let (d', set, later) = >>=-eq-ok (set_flag f value d) (parse_args rest none) h in
    parse_args-le rest none d' r (set_flag-le f value d d' fits set) later
parse_args-le (arg ∷ rest) none d r fits h =
    elim (argument_of arg)
        as (λ a. argument_of arg ≡ a → r.shutdown_grace_period_seconds ≤ u64_max) [
          | flag f ↦ λ e. parse_args-le rest (some f) d r fits (rw (e, parse_args) at h)
          | help ↦ λ e. absurd (ground arith)
          | unknown ↦ λ e. absurd (ground arith)
        ]
      refl

finish_sound :
    (e : HomeEnv) (d : Draft) (c : RuntimeConfig)
    → finish e d ≡ ok c
    → (c.listen ≢ c.admin_listen)
      × (is_empty (trim c.codex_version) ≡ false)
      × (c.shutdown_grace_period_seconds ≡ d.shutdown_grace_period_seconds)
unfolding finish
finish_sound e d c h = elim (Bool-cases (is_empty (trim d.codex_version))) [
  | inl blank ↦ absurd (ground arith)
  | inr version ↦ elim (Bool-cases (d.listen == d.admin_listen)) [
    | inl same ↦ absurd (ground arith)
    | inr differ ↦
        let (path, _, made) =
          >>=-eq-ok (accounts_dir_of e d.accounts_dir) (λ path. ok (configure d path))
            (rw (version, differ, finish) at h) in
        ground (arith, eq_iff d.listen d.admin_listen)
  ]
]

-- A configuration that is accepted has two different addresses, a version that is not blank and a grace
-- period within 64 bits, whatever the arguments and the environment.
pub from_args_sound :
    (e : HomeEnv) (args : List String) (c : RuntimeConfig)
    → from_args e args ≡ ok c
    → (c.listen ≢ c.admin_listen)
      × (is_empty (trim c.codex_version) ≡ false)
      × (c.shutdown_grace_period_seconds ≤ u64_max)
unfolding from_args finish
from_args_sound e args c h =
    let (d, parsed, finished) = >>=-eq-ok (parse_args args none defaults) (finish e) h in
    let fits = parse_args-le args none defaults d (omega arith) parsed in
    let (differ, version, same) = finish_sound e d c finished in (differ, version, omega arith)
