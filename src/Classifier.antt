-- ===== src/Classifier.antt =====
-- src/classifier.rs: what a failed call to the upstream means for the account that made it.

use codaze.Prelude.{Bool, true, false}

pub data FailureClass : Type 0 where
  access_token_rejected auth_invalid rate_limited quota_exhausted risk_controlled : FailureClass
  temporary_failure request_rejected internal_failure : FailureClass

abbrev pub is_auth_invalid_class : FailureClass → Bool
is_auth_invalid_class auth_invalid = true
is_auth_invalid_class _ = false
