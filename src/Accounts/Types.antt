-- ===== src/Accounts/Types.antt =====
-- The data of src/accounts/mod.rs. A `HashMap` of records is an association list, a `PathBuf` the
-- list of its components, a `u32` a number.
use codaze.Prelude.{ℕ, String, Bool, Option, List, [], ◌∷◌, ◌++◌}
use codaze.Prelude.Time.{DateTime, Duration}

pub data RoutingState : Type 0 where
  cold ready warming cooldown risk_controlled temporarily_unavailable auth_invalid : RoutingState

pub data BlockedReason : Type 0 where
  rate_limited quota_exhausted risk_controlled temporarily_unavailable auth_invalid : BlockedReason

pub data BlockedSource : Type 0 where
  upstream_retry_after local_backoff fixed_policy : BlockedSource

abbrev pub FilePath : Type 0
FilePath = List String

abbrev pub join : FilePath → String → FilePath
join dir name = dir ++ name ∷ []

pub record AccountRecord : Type 0 where
  pub id : String
  pub file_path : FilePath
  pub label : Option String
  pub email : Option String
  pub refresh_token : String
  pub access_token : Option String
  pub account_id : Option String
  pub plan_type : Option String
  pub access_token_expires_at : Option DateTime
  pub last_refresh_at : Option DateTime
  pub routing_state : RoutingState
  pub blocked_reason : Option BlockedReason
  pub blocked_source : Option BlockedSource
  pub blocked_until : Option DateTime
  pub local_backoff_level : ℕ
  pub refresh_in_flight : Bool
  pub in_flight_requests : ℕ
  pub last_selected_at : Option DateTime
  pub last_success_at : Option DateTime
  pub last_error_at : Option DateTime
  pub last_error : Option String
  pub auth_invalid_tombstone : Bool
  pub detached : Bool

pub record AccountStore : Type 0 where
  pub accounts_dir : FilePath
  pub records : List (String × AccountRecord)
  pub round_robin_cursor : ℕ

-- The errors that the store makes itself; `anyhow` messages are constructors.
pub data Error : Type 0 where
  unknown_account : String → Error
  selected_account_disappeared invalid_refresh_token : Error

pub record AccountSelection : Type 0 where
  pub account_id : String
  pub refresh_token : String
  pub needs_refresh : Bool

pub data SelectionFailure : Type 0 where
  no_eligible_account : SelectionFailure
  internal : Error → SelectionFailure

pub record AccountFile : Type 0 where
  pub refresh_token : String
  pub label : Option String
  pub email : Option String

pub data AccountDiskOp : Type 0 where
  write : FilePath → AccountFile → AccountDiskOp
  remove : FilePath → AccountDiskOp
  move_to_trash : FilePath → FilePath → AccountDiskOp

pub data ImportApply : Type 0 where
  nothing : ImportApply
  insert : String → FilePath → AccountFile → ImportApply
  update_metadata : String → Option String → Option String → ImportApply

pub record ImportAccountPlan : Type 0 where
  pub account_id : String
  pub already_exists : Bool
  pub apply : ImportApply
  pub disk_op : Option AccountDiskOp

pub record RefreshedAccount : Type 0 where
  pub access_token : String
  pub refresh_token : Option String
  pub account_id : Option String
  pub plan_type : Option String
  pub email : Option String
  pub access_token_expires_at : Option DateTime

pub record RemoveAccountPlan : Type 0 where
  pub account_id : String
  pub disk_op : AccountDiskOp

pub record AuthInvalidPlan : Type 0 where
  pub account_id : String
  pub trash_op : Option AccountDiskOp

pub record AccountView : Type 0 where
  pub id : String
  pub label : Option String
  pub email : Option String
  pub routing_state : RoutingState
  pub blocked_reason : Option BlockedReason
  pub blocked_source : Option BlockedSource
  pub blocked_until : Option DateTime
  pub account_id : Option String
  pub plan_type : Option String
  pub refresh_in_flight : Bool
  pub in_flight_requests : ℕ
  pub access_token_expires_at : Option DateTime
  pub last_refresh_at : Option DateTime
  pub last_selected_at : Option DateTime
  pub last_success_at : Option DateTime
  pub last_error_at : Option DateTime
  pub last_error : Option String

pub record ImportAccountResult : Type 0 where
  pub account : AccountView
  pub already_exists : Bool

pub data WakeDisposition : Type 0 where
  woken skipped_auth_invalid : WakeDisposition

pub record WakeAccountResult : Type 0 where
  pub disposition : WakeDisposition
  pub account : AccountView

pub record WakeAllResult : Type 0 where
  pub woken : ℕ
  pub skipped_auth_invalid : ℕ
  pub accounts : List WakeAccountResult

pub record UpstreamAccount : Type 0 where
  pub access_token : String
  pub chatgpt_account_id : Option String

pub data UpstreamAccountError : Type 0 where
  missing_record missing_access_token : UpstreamAccountError

pub record PoolBlockSummary : Type 0 where
  pub blocked_reason : BlockedReason
  pub blocked_until : Option DateTime
  pub retry_after : Option Duration

-- `From<&AccountRecord> for AccountView`
unfoldable pub view_of : AccountRecord → AccountView
view_of r = record {
  id = r.id;
  label = r.label;
  email = r.email;
  routing_state = r.routing_state;
  blocked_reason = r.blocked_reason;
  blocked_source = r.blocked_source;
  blocked_until = r.blocked_until;
  account_id = r.account_id;
  plan_type = r.plan_type;
  refresh_in_flight = r.refresh_in_flight;
  in_flight_requests = r.in_flight_requests;
  access_token_expires_at = r.access_token_expires_at;
  last_refresh_at = r.last_refresh_at;
  last_selected_at = r.last_selected_at;
  last_success_at = r.last_success_at;
  last_error_at = r.last_error_at;
  last_error = r.last_error;
}

unfoldable pub account_file_from_record : AccountRecord → AccountFile
account_file_from_record r = record {
  refresh_token = r.refresh_token;
  label = r.label;
  email = r.email;
}

-- `AccountStore::new`
unfoldable pub new_store : FilePath → AccountStore
new_store dir = record { accounts_dir = dir; records = []; round_robin_cursor = 0 }

abbrev pub is_auth_invalid : RoutingState → Bool
is_auth_invalid RoutingState.auth_invalid = Bool.true
is_auth_invalid _ = Bool.false

abbrev pub is_warming : RoutingState → Bool
is_warming RoutingState.warming = Bool.true
is_warming _ = Bool.false

abbrev pub is_cold : RoutingState → Bool
is_cold RoutingState.cold = Bool.true
is_cold _ = Bool.false
