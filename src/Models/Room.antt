-- ===== src/Models/Room.antt =====
-- core/models/room.py: rooms, access lists, closures, calendar overrides and weekly blocks, and the
-- service incidents of core/models/policy.py.
use room_reserve.Prelude.{ℕ, Bool, true, false, Option, List, String}
use room_reserve.Models.Account.{InstrumentCategory}

pub data ReservationScope : Type 0 where
  everyone listed : ReservationScope

-- `label` is what `str(room)` shows: the label, or the room's number behind the word "Room".
pub record Room : Type 0 where
  pub id : ℕ
  pub number : String
  pub label : String
  pub requires_approval : Bool
  pub availability_only : Bool
  pub is_active : Bool
  pub reservation_scope : ReservationScope
  pub members_only : Bool

abbrev pub is_restricted : Room → Bool
is_restricted r = elim r.reservation_scope [
  | ReservationScope.everyone ↦ false
  | ReservationScope.listed ↦ true
]

-- `RoomAllowedCategory`
pub record AllowedCategory : Type 0 where
  pub room : ℕ
  pub category : InstrumentCategory

pub record RoomMember : Type 0 where
  pub room : ℕ
  pub email : String

-- A closure with no room closes every room.
pub record Closure : Type 0 where
  pub id : ℕ
  pub room : Option ℕ
  pub starts_at : ℕ
  pub ends_at : ℕ
  pub reason : String
  pub acknowledged_in_use : Bool
  pub created_by : Option ℕ
  pub revoked_at : Option ℕ
  pub revoked_by : Option ℕ
  pub revoked_reason : String

pub record CalendarOverride : Type 0 where
  pub id : ℕ
  pub local_date : ℕ
  pub is_open : Bool
  pub open_hour : Option ℕ
  pub close_hour : Option ℕ
  pub reason : String
  pub created_by : Option ℕ

pub record WeeklyBlock : Type 0 where
  pub room : ℕ
  pub weekday : ℕ
  pub start_hour : ℕ
  pub end_hour : ℕ
  pub reason : String
  pub valid_from : Option ℕ
  pub valid_until : Option ℕ

-- An incident with no rooms covers every room.
pub record ServiceIncident : Type 0 where
  pub id : ℕ
  pub starts_at : ℕ
  pub ends_at : ℕ
  pub rooms : List ℕ
  pub reason : String
  pub created_by : Option ℕ
