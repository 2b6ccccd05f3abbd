-- ===== src/Quota.antt =====
-- core/services/quota.py: the daily quota, the cap on upcoming hours, and the same and adjacent hours.
pub mod Laws
use room_reserve.Prelude.{
  ℕ, ◌+◌, ◌-◌, Bool, true, false, ◌&&◌, ◌||◌, Option, none, some, List, [], ◌∷◌, any, count, ltb,
  leb, ◌==◌, holds, if◌then◌else◌,
}
use room_reserve.Settings.{hour}
use room_reserve.Errors.{Code}
use room_reserve.Models.Booking.{Booking, Status, is_blocking, is_quota, is_no_show}
use room_reserve.Models.Policy.{PolicyVersion, daily_quota, max_upcoming_hours}
use room_reserve.Models.Operations.{Value, Fields}
use room_reserve.Models.Db.{Db}
use room_reserve.Slots.{local_date}
use room_reserve.Policy.{policy_of, with_policy, current_policy}
use room_reserve.Action.{Action, Failure, Result, ok, err, rejection}

abbrev pub charges_quota : ℕ → ℕ → Booking → Bool
charges_quota user date b = b.user == user && (b.slot_date == date && is_quota b.status)

unfoldable pub quota_used : ℕ → ℕ → Db → ℕ
quota_used user date db = count (charges_quota user date) db.bookings

-- The hour before the first instant is no hour: the subtraction must not stop at 0.
abbrev pub blocks_hour : ℕ → ℕ → Booking → Bool
blocks_hour user slot_start b =
    b.user == user
    && (is_blocking b.status
        && (b.slot_start == slot_start
            || (b.slot_start + hour == slot_start || b.slot_start == slot_start + hour)))

unfoldable pub has_blocking_bookings : ℕ → ℕ → Db → Bool
has_blocking_bookings user slot_start db = any (blocks_hour user slot_start) db.bookings

-- `UPCOMING_STATUSES`
abbrev pub is_upcoming : Status → Bool
is_upcoming Status.pending_approval = true
is_upcoming Status.scheduled = true
is_upcoming Status.in_use = true
is_upcoming _ = false

abbrev pub holds_upcoming : ℕ → ℕ → Booking → Bool
holds_upcoming user now b = b.user == user && (is_upcoming b.status && ltb now b.slot_end)

unfoldable pub upcoming_hours : ℕ → ℕ → Db → ℕ
upcoming_hours user now db = count (holds_upcoming user now) db.bookings

-- The truncated differences are the `max(0, …)` of the source.
unfoldable pub upcoming_remaining : ℕ → ℕ → Action ℕ
upcoming_remaining user now db = (
  ok (max_upcoming_hours db.settings (policy_of db) - upcoming_hours user now db),
  with_policy db,
)

unfoldable pub quota_remaining : ℕ → ℕ → Action ℕ
quota_remaining user date db =
    (ok (daily_quota (policy_of db) - quota_used user date db), with_policy db)

abbrev pub forfeited : ℕ → ℕ → ℕ → Booking → Bool
forfeited user room slot_start b =
    b.user == user && (b.room == room && (b.slot_start == slot_start && is_no_show b.status))

unfoldable pub no_show_reclaim : ℕ → ℕ → ℕ → Db → Bool
no_show_reclaim user room slot_start db = any (forfeited user room slot_start) db.bookings

abbrev pub quota_limit : ℕ → Fields
quota_limit n = ("limit", Value.num n) ∷ []

abbrev pub refuse_with : Code → Fields → Result (Unit {0})
refuse_with code fields = err (Failure.rejected (rejection code fields))

-- The checks in their order, under a policy version.
unfoldable pub quota_and_adjacency :
    ℕ → ℕ → Option ℕ → ℕ → ℕ → PolicyVersion → Db → Result (Unit {0})
quota_and_adjacency user slot_start room date now policy db =
    if has_blocking_bookings user slot_start db
    then refuse_with Code.adjacency_conflict []
    else if leb (daily_quota policy) (quota_used user date db)
    then refuse_with Code.quota_exceeded []
    else if leb (max_upcoming_hours db.settings policy) (upcoming_hours user now db)
    then refuse_with Code.upcoming_limit (quota_limit (max_upcoming_hours db.settings policy))
    else if holds (λ r. no_show_reclaim user r slot_start db) room
    then refuse_with Code.no_show_reclaim []
    else ok tt

-- All modelled callers leave `local_date` out and give `now`.
unfoldable pub assert_quota_and_adjacency : ℕ → ℕ → Option ℕ → ℕ → Action (Unit {0})
assert_quota_and_adjacency user slot_start room now db = (
  quota_and_adjacency user slot_start room (local_date slot_start) now (policy_of db) db,
  with_policy db,
)
