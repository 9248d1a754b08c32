-- ===== src/Failover/Measure.antt =====
-- How many accounts the sets of the loop of src/failover.rs still leave, and that each account which
-- a round notes lowers the number.
use codaze.Prelude.{
  ℕ, suc, ◌≤◌, ◌<◌, String, false, List, [], ◌∷◌, ◌≡◌, arith, inl, inr, In, contains, set_insert,
  if◌then◌else◌, eq_iff,
}

-- The ids of the list that the set does not have.
unfoldable pub missing : List String → List String → ℕ
missing [] xs = 0
missing (u ∷ us) xs = let rest = missing us xs in if contains xs u then rest else suc rest

missing-cons_le :
    (us : List String) (id : String) (xs : List String) → missing us (id ∷ xs) ≤ missing us xs
unfolding missing
missing-cons_le [] id xs = ground arith
missing-cons_le (u ∷ us) id xs = let rest = missing-cons_le us id xs in ground arith

missing-cons_lt :
    (us : List String) (id : String) (xs : List String)
    → In id us
    → contains xs id ≡ false
    → missing us (id ∷ xs) < missing us xs
unfolding missing
missing-cons_lt [] id xs member new = elim member [ ]
missing-cons_lt (u ∷ us) id xs (inl same) new =
    let rest = missing-cons_le us id xs in ground (arith, eq_iff id u)
missing-cons_lt (u ∷ us) id xs (inr later) new =
    let rest = missing-cons_lt us id xs later new in ground arith

-- A member of the list that is new to the set leaves fewer.
pub missing-set_insert :
    (us : List String) (id : String) (xs : List String)
    → In id us
    → contains xs id ≡ false
    → missing us (set_insert id xs) < missing us xs
missing-set_insert us id xs member new = rw new (missing-cons_lt us id xs member new)
