-- ===== src/Approval/Table.antt =====
-- What a decision on a request writes, and the constraints of the booking table.
use room_reserve.Prelude.{
  ℕ, ◌≡◌, refl, ap, ◌∙◌, ◌⊎◌, inl, inr, true, some, String, update_where, first, List, ◌==◌,
  ==_refl, false, Option-cases, Bool-cases, arith,
}
use room_reserve.Prelude.Count
use room_reserve.Prelude.Text.{same_text}
use room_reserve.Models.Booking.{Booking, Status, is_pending}
use room_reserve.Models.Operations.{Fields}
use room_reserve.Models.Db.{Db}
use room_reserve.Audit.{record_audit}
use room_reserve.Outbox.{enqueue}
use room_reserve.Policy.{current_policy, with_policy}
use room_reserve.Bookings.{Context, find_booking, reload_for_update, user_of, room_of, save_booking}
use room_reserve.Bookings.Constraints.{IsRow, IsConsistent}
use room_reserve.Bookings.Save.{has_id, row_id, valid_of_found, save-IsTable, first_other}
use room_reserve.Action.{ok, reject_if}
use room_reserve.Approval.{
  decide_approval, approve, turn_down, approved, refused, bounded_note, announce_approved,
  announce_refused,
}

module _ (f : Booking → Booking) (h : (x : Booking) → (f x).id ≡ x.id) where
  -- What is found after a save of the row that was found, under its key and under another.
  saved_rows :
      (b : Booking) (id other : ℕ) (rows rows' : List Booking)
      → b.id ≡ id
      → first (has_id id) rows ≡ some b
      → (other == id) ≡ false
      → rows' ≡ update_where (has_id b.id) f rows
      → (first (has_id id) rows' ≡ some (f b))
        × (first (has_id other) rows' ≡ first (has_id other) rows)
  saved_rows b id other rows rows' key found e saved =
      let here : rows' ≡ update_where (has_id id) f rows =
        saved ∙ ap (λ i. update_where (has_id i) f rows) key in
      (
        ap (first (has_id id)) here
            ∙ Count.first-update_where (has_id id) (has_id id) f (λ x. ap (λ i. i == id) (h x)) rows
                b found (ap (λ i. i == id) key ∙ ==_refl id),
        ap (first (has_id other)) here ∙ first_other f h id other e rows,
      )

-- The row after a decision.
abbrev pub Decided : Context → String → String → Booking → Db → Db → Type 0
Decided ctx decision note b db db' =
    ((same_text decision "APPROVED" ≡ true)
      × (db'.bookings ≡ update_where (has_id b.id) (approved ctx (bounded_note note)) db.bookings))
    ⊎ ((same_text decision "APPROVED" ≡ false)
        × (same_text decision "REJECTED" ≡ true)
        × (db'.bookings ≡ update_where (has_id b.id) (refused (bounded_note note)) db.bookings))

pub decide_approval_ok :
    (ctx : Context) (id : ℕ) (decision note : String) (db : Db) {fields : Fields} {db' : Db}
    → decide_approval ctx id decision note db ≡ (ok fields, db')
    → (b : Booking) × (find_booking id db ≡ some b)
      × (is_pending b.status ≡ true)
      × Decided ctx decision note b db db'
      × (db'.next_booking ≡ db.next_booking)
unfolding decide_approval approve turn_down reload_for_update reject_if user_of room_of
    announce_approved announce_refused enqueue record_audit save_booking current_policy with_policy
decide_approval_ok ctx id decision note db {fields} {db'} h =
    elim (Option-cases (find_booking id db)) [
      | inl e ↦ ground arith
      | inr (b, e) ↦ (b, e, ground arith, decided b e, ground arith)
    ]
  where
    decided : (b : Booking) → find_booking id db ≡ some b → Decided ctx decision note b db db'
    decided b e = elim (Bool-cases (same_text decision "APPROVED")) [
      | inl y ↦ inl (y, ground arith)
      | inr n ↦ inr (n, ground arith, ground arith)
    ]

approved-IsRow :
    (ctx : Context) (note : String) (b : Booking)
    → IsRow b
    → is_pending b.status ≡ true
    → IsRow (approved ctx note b)
unfolding approved
approved-IsRow ctx note b r p = record {
  length = r.length;
  aligned = r.aligned;
  dated = r.dated;
  walk_in = ground (arith, r.walk_in);
  deadline = r.deadline;
  within = r.within;
  checkin = r.checkin;
  cancellation = ground (arith, r.cancellation);
  reason = r.reason;
}

refused-IsRow :
    (note : String) (b : Booking) → IsRow b → is_pending b.status ≡ true → IsRow (refused note b)
unfolding refused
refused-IsRow note b r p = record {
  length = r.length;
  aligned = r.aligned;
  dated = r.dated;
  walk_in = ground (arith, r.walk_in);
  deadline = r.deadline;
  within = r.within;
  checkin = r.checkin;
  cancellation = ground (arith, r.cancellation);
  reason = r.reason;
}

-- The booking table satisfies all its constraints after a decision, if it did before.
pub decide_approval-IsConsistent :
    (ctx : Context) (id : ℕ) (decision note : String) (db : Db) {fields : Fields} {db' : Db}
    → decide_approval ctx id decision note db ≡ (ok fields, db')
    → IsConsistent db
    → IsConsistent db'
unfolding approved refused
decide_approval-IsConsistent ctx id decision note db done t =
    let (b, found, pending, decided, next) = decide_approval_ok ctx id decision note db done in
    let yes_f = approved ctx (bounded_note note) in
    let no_f = refused (bounded_note note) in
    let valid = valid_of_found db.next_booking id db.bookings b yes_f t found in
    let key : b.id ≡ id = row_id db.next_booking id db.bookings b yes_f t found in
    elim decided [
      | inl (_, rows) ↦
          rw (rows, next, key)
            (save-IsTable db.next_booking id db.bookings b yes_f t found (λ x. refl)
              (approved-IsRow ctx (bounded_note note) b valid pending)
              (λ room start h. ground arith) (λ user start h. ground arith))
      | inr (_, _, rows) ↦
          rw (rows, next, key)
            (save-IsTable db.next_booking id db.bookings b no_f t found (λ x. refl)
              (refused-IsRow (bounded_note note) b valid pending) (λ room start h. ground arith)
              (λ user start h. ground arith))
    ]

-- The booking under the key after a decision, on the hour and room that it had.
pub record IsDecided (decision : String) (b b' : Booking) : Type 0 where
  pub verdict :
      ((same_text decision "APPROVED" ≡ true) × (b'.status ≡ Status.scheduled))
      ⊎ ((same_text decision "REJECTED" ≡ true) × (b'.status ≡ Status.rejected))
  pub owner : b'.user ≡ b.user
  pub place : b'.room ≡ b.room
  pub hour : b'.slot_start ≡ b.slot_start

approved-IsDecided :
    (ctx : Context) (note decision : String) (b : Booking)
    → same_text decision "APPROVED" ≡ true
    → IsDecided decision b (approved ctx (bounded_note note) b)
unfolding approved
approved-IsDecided ctx note decision b y = record {
  verdict = inl (y, refl);
  owner = refl;
  place = refl;
  hour = refl;
}

refused-IsDecided :
    (note decision : String) (b : Booking)
    → same_text decision "REJECTED" ≡ true
    → IsDecided decision b (refused (bounded_note note) b)
unfolding refused
refused-IsDecided note decision b y = record {
  verdict = inr (y, refl);
  owner = refl;
  place = refl;
  hour = refl;
}

-- A decision goes through only for a request that waits for one. Afterwards the request is scheduled when
-- the decision was to approve it and rejected when it was to refuse it, with its owner, room and hour
-- as they were, every booking under another key is as it was, and the table satisfies all its
-- constraints, if it did before.
pub decide_approval_decides :
    (ctx : Context) (id : ℕ) (decision note : String) (db : Db) (other : ℕ) {fields : Fields}
    {db' : Db}
    → decide_approval ctx id decision note db ≡ (ok fields, db')
    → (other == id) ≡ false
    → IsConsistent db
    → ((b : Booking) × (b' : Booking) × (find_booking id db ≡ some b)
        × (is_pending b.status ≡ true)
        × (find_booking id db' ≡ some b')
        × IsDecided decision b b')
      × (find_booking other db' ≡ find_booking other db)
      × IsConsistent db'
decide_approval_decides ctx id decision note db other {fields} {db'} done e t =
    let (b, found, pending, decided, next) = decide_approval_ok ctx id decision note db done in
    let yes_f = approved ctx (bounded_note note) in
    let no_f = refused (bounded_note note) in
    let key : b.id ≡ id = row_id db.next_booking id db.bookings b yes_f t found in
    let after = decide_approval-IsConsistent ctx id decision note db done t in
    elim decided [
      | inl (y, rows) ↦
          let (here, there) =
            saved_rows yes_f (λ x. unfold approved in refl) b id other db.bookings db'.bookings key
              found e rows in
          (
            (b, yes_f b, found, pending, here, approved-IsDecided ctx note decision b y),
            there,
            after,
          )
      | inr (n, y, rows) ↦
          let (here, there) =
            saved_rows no_f (λ x. unfold refused in refl) b id other db.bookings db'.bookings key
              found e rows in
          ((b, no_f b, found, pending, here, refused-IsDecided note decision b y), there, after)
    ]
