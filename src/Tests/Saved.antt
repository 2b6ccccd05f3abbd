-- ===== src/Tests/Saved.antt =====
-- The theorems on the operations, at the runs.
use room_reserve.Prelude.{◌+◌, ◌*◌, ◌≡◌, refl, true, false, none, some, update_where, ◌==◌}
use room_reserve.Settings.{minute}
use room_reserve.Cancel.{cancelled}
use room_reserve.Checkin.{checked_in}
use room_reserve.Tests.Data.{
  student, staff, piano_room, other_room, approval_room, monday, at_hour, empty_db, context_at,
  fields_of,
}
use room_reserve.Tests.Runs.{
  weekly_db, cancelling, cancelling_ok, moving, moving_ok, checking_in, checking_in_ok, asking,
  asking_ok, deciding, deciding_ok, walking_in, walking_in_ok, holding, holding_ok, ending_series,
  ending_series_ok, none_under_two,
}
use room_reserve.Tests.Bookings.{
  reserving, reserved_IsConsistent, empty_IsConsistent, empty_HasGrace,
}
use room_reserve.Models.Booking.{Booking, is_pending}
use room_reserve.Bookings.{find_booking}
use room_reserve.Bookings.Constraints.{IsConsistent}
use room_reserve.Bookings.Updates.{update-IsTable}
use room_reserve.Bookings.Save.{has_id}
use room_reserve.Reserve.Table.{create_advance_booking-IsConsistent}
use room_reserve.Change.Table.{move_booking-IsConsistent}
use room_reserve.Approval.Table.{IsDecided, decide_approval_decides}
use room_reserve.Cancel.Table.{MayCancel, cancel_ok, cancel-IsConsistent}
use room_reserve.Cancel.Series.{IsEnded, cancel_recurring_reservation-IsEnded}
use room_reserve.Checkin.Table.{MayCheckIn, check_in_ok, check_in-IsConsistent}
use room_reserve.Walkin.Table.{use_now-IsConsistent}
use room_reserve.Staff.Table.{create_staff_booking-IsConsistent}

cancel-IsConsistent_example : IsConsistent cancelling.1
cancel-IsConsistent_example =
    cancel-IsConsistent (context_at (at_hour 8 + 2) student) 1 "ill" false reserving.1 cancelling_ok
      reserved_IsConsistent

move_booking-IsConsistent_example : IsConsistent moving.1
move_booking-IsConsistent_example =
    move_booking-IsConsistent (context_at (at_hour 8 + 2) student) 1 other_room reserving.1
      moving_ok reserved_IsConsistent

check_in-IsConsistent_example : IsConsistent checking_in.1
check_in-IsConsistent_example =
    check_in-IsConsistent (context_at (at_hour 10 + 1) student) 1 none false "" reserving.1
      checking_in_ok reserved_IsConsistent

check_in_ok_example :
    (b : Booking) × (find_booking 1 reserving.1 ≡ some b)
    × MayCheckIn (context_at (at_hour 10 + 1) student) none false b
    × (checking_in.1.bookings
        ≡ update_where
            (has_id b.id)
            (checked_in (context_at (at_hour 10 + 1) student))
            reserving.1.bookings)
    × (checking_in.1.next_booking ≡ reserving.1.next_booking)
check_in_ok_example =
    check_in_ok (context_at (at_hour 10 + 1) student) 1 none false "" reserving.1 checking_in_ok

cancel_ok_example :
    (b : Booking) × (find_booking 1 reserving.1 ≡ some b)
    × MayCancel (context_at (at_hour 8 + 2) student) false b
    × (cancelling.1.bookings
        ≡ update_where
            (has_id b.id)
            (cancelled (context_at (at_hour 8 + 2) student) "ill" false)
            reserving.1.bookings)
    × (cancelling.1.next_booking ≡ reserving.1.next_booking)
cancel_ok_example =
    cancel_ok (context_at (at_hour 8 + 2) student) 1 "ill" false reserving.1 cancelling_ok

asked_IsConsistent : IsConsistent asking.1
asked_IsConsistent =
    create_advance_booking-IsConsistent (context_at (at_hour 8 + 1) student) approval_room
      (at_hour 10) empty_db (fields_of asking.0) asking.1 asking_ok empty_IsConsistent
      empty_HasGrace

decide_approval_decides_example :
    ((b : Booking) × (b' : Booking) × (find_booking 1 asking.1 ≡ some b)
      × (is_pending b.status ≡ true)
      × (find_booking 1 deciding.1 ≡ some b')
      × IsDecided "APPROVED" b b')
    × (find_booking 2 deciding.1 ≡ find_booking 2 asking.1)
    × IsConsistent deciding.1
decide_approval_decides_example =
    decide_approval_decides (context_at (at_hour 8 + 2) staff) 1 "APPROVED" "" asking.1 2
      deciding_ok refl asked_IsConsistent

use_now-IsConsistent_example : IsConsistent walking_in.1
use_now-IsConsistent_example =
    use_now-IsConsistent (context_at (at_hour 10 + 5 * minute) student) piano_room empty_db
      walking_in_ok empty_IsConsistent

create_staff_booking-IsConsistent_example : IsConsistent holding.1
create_staff_booking-IsConsistent_example =
    create_staff_booking-IsConsistent (context_at (at_hour 8 + 1) staff) piano_room monday 13 15
      empty_db holding_ok empty_IsConsistent empty_HasGrace

weekly_IsConsistent : IsConsistent weekly_db
weekly_IsConsistent =
    update-IsTable reserving.1.next_booking reserving.1.bookings (λ b. b.id == 1)
      (λ b. record b { recurrence = some 3 }) (λ b. refl)
      (λ b r e. record {
        length = r.length;
        aligned = r.aligned;
        dated = r.dated;
        walk_in = r.walk_in;
        deadline = r.deadline;
        within = r.within;
        checkin = r.checkin;
        cancellation = r.cancellation;
        reason = r.reason;
      })
      (λ room start b e h. h) (λ user start b e h. h) reserved_IsConsistent

cancel_recurring_reservation-IsEnded_example :
    IsEnded (context_at (at_hour 8 + 2) student) 3 weekly_db ending_series.1
    × (find_booking 2 ending_series.1 ≡ find_booking 2 weekly_db)
    × IsConsistent ending_series.1
cancel_recurring_reservation-IsEnded_example =
    cancel_recurring_reservation-IsEnded (context_at (at_hour 8 + 2) student) 3 "" weekly_db 2
      ending_series_ok none_under_two weekly_IsConsistent
