-- ===== src/Retirement/Table.antt =====
-- Switching a room or an account off keeps the booking table valid, wherever it stops.
use room_reserve.Prelude.{ℕ, refl, String, List}
use room_reserve.Models.Booking.{Booking}
use room_reserve.Audit.{record_audit}
use room_reserve.Outbox.{enqueue}
use room_reserve.Policy.{policy_of}
use room_reserve.Bookings.{Context, save_booking}
use room_reserve.Action.{for_each}
use room_reserve.Action.Orderly.{IsOrderlyStep, IsOrderly, aside_orderly, orderly}
use room_reserve.Bulk.{dropped, flagged}
use room_reserve.Bulk.Table.{dropped-Steps, flagged-Steps, saved_loop_orderly}
use room_reserve.Retirement.{
  drop_for_room, flag_row, audit_retired, switch_room_off, deactivate_room, drop_silently,
  switch_account_off, deactivate_account,
}

module _ (ctx : Context) where
  drop_orderly : (bs : List Booking) → IsOrderlyStep (for_each bs (drop_for_room ctx))
  drop_orderly bs =
      saved_loop_orderly (λ d. dropped ctx "ROOM_DEACTIVATED") (drop_for_room ctx) (λ db. bs)
        (unfold drop_for_room enqueue save_booking in
          record { rows = λ d db. refl; next = λ d db. refl })
        (dropped-Steps ctx "ROOM_DEACTIVATED")
        (λ b db. unfold drop_for_room enqueue save_booking policy_of in (refl, refl))

  drop_silently_orderly : (bs : List Booking) → IsOrderlyStep (for_each bs (drop_silently ctx))
  drop_silently_orderly bs =
      saved_loop_orderly (λ d. dropped ctx "ACCOUNT_DEACTIVATED") (drop_silently ctx) (λ db. bs)
        (unfold drop_silently save_booking in record { rows = λ d db. refl; next = λ d db. refl })
        (dropped-Steps ctx "ACCOUNT_DEACTIVATED")
        (λ b db. unfold drop_silently save_booking policy_of in (refl, refl))

  flag_orderly : (note : String) (bs : List Booking) → IsOrderlyStep (for_each bs (flag_row note))
  flag_orderly note bs =
      saved_loop_orderly (λ d. flagged note) (flag_row note) (λ db. bs)
        (unfold flag_row save_booking in record { rows = λ d db. refl; next = λ d db. refl })
        (flagged-Steps note) (λ b db. unfold flag_row save_booking policy_of in (refl, refl))

  audit_orderly :
      (action entity : String) (id : ℕ) (reason : String) (xs ys : List Booking)
      → IsOrderlyStep (audit_retired ctx action entity id reason xs ys)
  unfolding audit_retired record_audit policy_of
  audit_orderly action entity id reason xs ys = aside_orderly (λ db. (refl, refl, refl, refl))

  room_orderly : (id : ℕ) → IsOrderlyStep (switch_room_off id)
  unfolding switch_room_off policy_of
  room_orderly id = aside_orderly (λ db. (refl, refl, refl, refl))

  account_orderly : (id : ℕ) → IsOrderlyStep (switch_account_off id)
  unfolding switch_account_off policy_of
  account_orderly id = aside_orderly (λ db. (refl, refl, refl, refl))

  pub deactivate_room-IsOrderly :
      (id : ℕ) (reason : String) → IsOrderly (deactivate_room ctx id reason)
  unfolding deactivate_room
  deactivate_room-IsOrderly id reason =
      search (orderly, room_orderly, drop_orderly, flag_orderly, audit_orderly) depth 24

  pub deactivate_account-IsOrderly :
      (id : ℕ) (reason : String) → IsOrderly (deactivate_account ctx id reason)
  unfolding deactivate_account
  deactivate_account-IsOrderly id reason =
      search (orderly, account_orderly, drop_silently_orderly, flag_orderly, audit_orderly) depth 24
