-- ===== src/Tests/Lifetime.antt =====
-- A reservation, then a tick after its hour: the theorems on the life of a deployment, at that run.
use room_reserve.Prelude.{◌+◌, true, some, []}
use room_reserve.Protocol.{run_once}
use room_reserve.Protocol.Operations.{Operation, request_of}
use room_reserve.Protocol.Table.{IsSound}
use room_reserve.Scheduler.{run_tick}
use room_reserve.Lifetime.{request, tick, here, step, reached-IsSound}
use room_reserve.Tests.Data.{student, piano_room, at_hour, empty_db}
use room_reserve.Tests.Bookings.{empty_IsConsistent, empty_HasGrace}
use room_reserve.Tests.Transaction.{digest, early}
use room_reserve.Tests.Desk.{none_stale, mailed, unlocked, token}

reached-IsSound_example :
    IsSound
      (run_tick none_stale mailed unlocked token true true
        (at_hour 11)
        (at_hour 11 + 5)
        (run_once digest true early
          (request_of (Operation.reserve piano_room (at_hour 10)) (some student) [] "create" "k")
          empty_db).1).1
reached-IsSound_example =
    reached-IsSound digest none_stale mailed
      (step
        (request true early (Operation.reserve piano_room (at_hour 10)) (some student) [] "create"
          "k" empty_db)
        (step (tick unlocked token true true (at_hour 11) (at_hour 11 + 5) _) here))
      (record { consistent = empty_IsConsistent; grace = empty_HasGrace })
