-- ===== src/Models/Sanctions.antt =====
-- core/models/sanctions.py: violations, suspensions and the two query sets.
use room_reserve.Prelude.{ℕ, Bool, true, false, ◌&&◌, Option, String, ltb, leb, is_none, null_or}

pub data ViolationKind : Type 0 where
  no_show manual : ViolationKind

pub record Violation : Type 0 where
  pub id : ℕ
  pub user : ℕ
  pub booking : Option ℕ
  pub kind : ViolationKind
  pub occurred_at : ℕ
  pub expires_at : ℕ
  pub counts_as_strike : Bool
  pub actor : Option ℕ
  pub note : String
  pub incident : Option ℕ
  pub voided_at : Option ℕ
  pub voided_by : Option ℕ
  pub void_reason : String
  pub consumed_by : Option ℕ

abbrev pub is_no_show_kind : ViolationKind → Bool
is_no_show_kind ViolationKind.no_show = true
is_no_show_kind ViolationKind.manual = false

-- `ViolationQuerySet.eligible_strikes`
abbrev pub is_eligible_strike : ℕ → Violation → Bool
is_eligible_strike now v =
    is_none v.voided_at
    && (v.counts_as_strike
        && (is_none v.consumed_by && (leb v.occurred_at now && ltb now v.expires_at)))

pub data SuspensionSource : Type 0 where
  auto manual : SuspensionSource

abbrev pub is_auto : SuspensionSource → Bool
is_auto SuspensionSource.auto = true
is_auto SuspensionSource.manual = false

-- A suspension with no end is indefinite.
pub record Suspension : Type 0 where
  pub id : ℕ
  pub user : ℕ
  pub starts_at : ℕ
  pub ends_at : Option ℕ
  pub lifted_at : Option ℕ
  pub lifted_by : Option ℕ
  pub lift_reason : String
  pub reason : String
  pub source : SuspensionSource
  pub created_by : Option ℕ
  pub start_notified_at : Option ℕ
  pub end_notified_at : Option ℕ

-- `SuspensionQuerySet.active`
abbrev pub is_active_suspension : ℕ → Suspension → Bool
is_active_suspension now s =
    is_none s.lifted_at && (leb s.starts_at now && null_or (λ e. ltb now e) s.ends_at)
