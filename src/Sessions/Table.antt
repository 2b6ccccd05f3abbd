-- ===== src/Sessions/Table.antt =====
-- The operations on sessions keep the booking table valid, wherever they stop.
use room_reserve.Prelude.{
  ℕ, ◌≡◌, refl, sym, ap, ◌∙◌, ◌⊎◌, update_where, Bool-cases, true, some, String, inl, inr,
  Option-cases, arith,
}
use room_reserve.Models.Booking.{Booking, is_in_use, claims_room, claims_user}
use mathlib.Core.Path.{subst}
use room_reserve.Prelude.Text.{is_spaces}
use room_reserve.Models.Db.{Db}
use room_reserve.Audit.{record_audit}
use room_reserve.Policy.{policy_of}
use room_reserve.Bookings.{Context, find_booking, reload_for_update, save_booking}
use room_reserve.Bookings.Constraints.{IsRow, IsTable, IsConsistent}
use room_reserve.Bookings.Save.{has_id, row_id, valid_of_found, save-IsTable}
use room_reserve.Action.{reject_if}
use room_reserve.Action.Orderly.{IsOrderly, step_orderly}
use room_reserve.Sessions.{
  completed_early, write_completed_early, complete_session_early, reviewed, write_reviewed,
  resolve_review,
}

module _ (ctx : Context) where
  early-IsRow :
      (reason : String) (b : Booking)
      → IsRow b
      → is_in_use b.status ≡ true
      → IsRow (completed_early ctx reason b)
  unfolding completed_early
  early-IsRow reason b r u = record {
    length = r.length;
    aligned = r.aligned;
    dated = r.dated;
    walk_in = ground arith;
    deadline = r.deadline;
    within = r.within;
    checkin = r.checkin;
    cancellation = ground (arith, r.cancellation);
    reason = ground (arith, r.reason);
  }

  reviewed-IsRow : (note : String) (b : Booking) → IsRow b → IsRow (reviewed note b)
  unfolding reviewed
  reviewed-IsRow note b r = record {
    length = r.length;
    aligned = r.aligned;
    dated = r.dated;
    walk_in = r.walk_in;
    deadline = r.deadline;
    within = r.within;
    checkin = r.checkin;
    cancellation = r.cancellation;
    reason = r.reason;
  }

  -- The database after the body: as before, or with the session's row written.
  early_cases :
      (id : ℕ) (reason : String) (db : Db)
      → ((complete_session_early ctx id reason db).1 ≡ db)
        ⊎ ((b : Booking) × (find_booking id db ≡ some b)
            × (is_in_use b.status ≡ true)
            × ((complete_session_early ctx id reason db).1 ≡ write_completed_early ctx b reason db))
  unfolding complete_session_early reload_for_update reject_if
  early_cases id reason db = elim (Option-cases (find_booking id db)) [
    | inl e ↦ inl (ground (arith, e))
    | inr (b, e) ↦ elim (Bool-cases (is_spaces reason)) [
      | inl blank ↦ inl (ground (arith, e, blank))
      | inr said ↦ elim (Bool-cases (is_in_use b.status)) [
        | inl u ↦ inr (b, e, u, ground (arith, e, said, u))
        | inr u ↦ inl (ground (arith, e, said, u))
      ]
    ]
  ]

  review_cases :
      (id : ℕ) (note : String) (db : Db)
      → ((resolve_review ctx id note db).1 ≡ db)
        ⊎ ((b : Booking) × (find_booking id db ≡ some b)
            × ((resolve_review ctx id note db).1 ≡ write_reviewed ctx b note db))
  unfolding resolve_review reload_for_update reject_if
  review_cases id note db = elim (Option-cases (find_booking id db)) [
    | inl e ↦ inl (ground (arith, e))
    | inr (b, e) ↦ elim (Bool-cases (is_spaces note)) [
      | inl blank ↦ inl (ground (arith, e, blank))
      | inr said ↦ inr (b, e, ground (arith, e, said))
    ]
  ]

  -- One booking that was read is saved under its key, valid and with no new claim.
  saved :
      (f : Booking → Booking) (id : ℕ) (b : Booking) (db : Db)
      → ((x : Booking) → (f x).id ≡ x.id)
      → (IsRow b → IsRow (f b))
      → ((room start : ℕ) → claims_room room start (f b) ≡ true → claims_room room start b ≡ true)
      → ((user start : ℕ) → claims_user user start (f b) ≡ true → claims_user user start b ≡ true)
      → find_booking id db ≡ some b
      → IsConsistent db
      → IsTable db.next_booking (update_where (has_id b.id) f db.bookings)
  saved f id b db key row room user found t =
      let same : b.id ≡ id = row_id db.next_booking id db.bookings b f t found in
      rw same (
        save-IsTable db.next_booking id db.bookings b f t found key
          (row (valid_of_found db.next_booking id db.bookings b f t found))
          (λ r s h. inl (room r s h)) user)

  pub complete_session_early-IsOrderly :
      (id : ℕ) (reason : String) → IsOrderly (complete_session_early ctx id reason)
  complete_session_early-IsOrderly id reason = record {
    step =
        step_orderly
          (λ db t. elim (early_cases id reason db) [
            | inl e ↦ subst IsConsistent (sym e) t
            | inr (b, found, used, e) ↦ subst IsConsistent (sym e) (
                unfold write_completed_early record_audit save_booking in
                saved (completed_early ctx reason) id b db (λ x. unfold completed_early in refl)
                  (λ r. early-IsRow reason b r used)
                  (λ r s h. unfold completed_early in ground arith)
                  (λ u s h. unfold completed_early in ground arith) found t)
          ])
          (λ db. elim (early_cases id reason db) [
            | inl e ↦ (ap (λ d. d.requests) e, ap policy_of e)
            | inr (b, found, used, e) ↦ (
              ap (λ d. d.requests) e
                  ∙ (unfold write_completed_early record_audit save_booking in refl),
              ap policy_of e
                  ∙ (unfold write_completed_early record_audit save_booking policy_of in refl),
            )
          ]);
  }

  pub resolve_review-IsOrderly : (id : ℕ) (note : String) → IsOrderly (resolve_review ctx id note)
  resolve_review-IsOrderly id note = record {
    step =
        step_orderly
          (λ db t. elim (review_cases id note db) [
            | inl e ↦ subst IsConsistent (sym e) t
            | inr (b, found, e) ↦ subst IsConsistent (sym e) (
                unfold write_reviewed record_audit save_booking in
                saved (reviewed note) id b db (λ x. unfold reviewed in refl) (reviewed-IsRow note b)
                  (λ r s h. unfold reviewed in h) (λ u s h. unfold reviewed in h) found t)
          ])
          (λ db. elim (review_cases id note db) [
            | inl e ↦ (ap (λ d. d.requests) e, ap policy_of e)
            | inr (b, found, e) ↦ (
              ap (λ d. d.requests) e ∙ (unfold write_reviewed record_audit save_booking in refl),
              ap policy_of e ∙ (unfold write_reviewed record_audit save_booking policy_of in refl),
            )
          ]);
  }
