-- ===== src/Cancel/Series.antt =====
-- What the end of a weekly series leaves: no occurrence ahead, and the series closed.
use room_reserve.Prelude.{
  ℕ, ◌≡◌, refl, sym, ap, ◌∙◌, inl, inr, Bool, true, false, ◌&&◌, some, String, List, [], ◌∷◌, any,
  filter, first, order_by, update_where, holds, ltb, leb, ◌==◌, Option-cases, if◌then◌else◌, arith,
}
use room_reserve.Prelude.Count
use room_reserve.Prelude.Text.{is_blank}
use room_reserve.Models.Booking.{Booking, RecurringReservation, SeriesStatus}
use room_reserve.Models.Operations.{Fields}
use room_reserve.Models.Db.{Db}
use room_reserve.Audit.{record_audit}
use room_reserve.Outbox.{enqueue}
use room_reserve.Bookings.{
  Context, find_booking, reload_for_update, user_of, room_of, save_booking, is_open_status,
}
use room_reserve.Bookings.Constraints.{IsConsistent}
use room_reserve.Bookings.Save.{has_id, row_id, first_other}
use room_reserve.Action.{ok, reject_if}
use room_reserve.Action.Rules.{bind_ok}
use room_reserve.Due.Rows.{updates}
use room_reserve.Due.Left.{found_Listed, updates_none}
use room_reserve.Due.Found.{any-order_by}
use room_reserve.Cancel.{
  cancel, cancelled, write_cancel, announce_cancelled, cancel_each, future_occurrences,
  cancel_recurring_reservation, close_series, owns_series, is_active_series, is_empty,
}
use room_reserve.Cancel.Table.{
  cancel_ok, cancel-IsConsistent, cancel_recurring_reservation-IsConsistent,
}

-- An occurrence of the series that waits or is scheduled, after an instant.
abbrev pub lies_ahead : ℕ → ℕ → Booking → Bool
lies_ahead series now b =
    holds (λ s. s == series) b.recurrence && (is_open_status b.status && ltb now b.slot_start)

cancel_series :
    (ctx : Context) (id : ℕ) (reason : String) (db : Db) {fields : Fields} {db' : Db}
    → cancel ctx id reason false db ≡ (ok fields, db')
    → db'.series ≡ db.series
unfolding cancel reload_for_update reject_if user_of room_of write_cancel announce_cancelled enqueue
    record_audit save_booking
cancel_series ctx id reason db h = ground arith

-- The loop writes each occurrence as cancelled and leaves the series alone.
cancel_each_rows :
    (ctx : Context) (bs : List Booking) (reason : String) (db : Db) {u : Unit {0}} {db' : Db}
    → cancel_each ctx bs reason db ≡ (ok u, db')
    → IsConsistent db
    → (db'.bookings ≡ updates (λ d. cancelled ctx reason false) bs db.bookings)
      × (db'.series ≡ db.series)
unfolding cancel_each updates
cancel_each_rows ctx [] reason db h t =
    (ap (λ r. r.1.bookings) (sym h), ap (λ r. r.1.series) (sym h))
cancel_each_rows ctx (b ∷ bs) reason db h t =
    let f = cancelled ctx reason false in
    let (fields, d, one, rest) =
      bind_ok (cancel ctx b.id reason false) (λ _. cancel_each ctx bs reason) db h in
    let (x, found, may, rows, next) = cancel_ok ctx b.id reason false db one in
    let key : x.id ≡ b.id = row_id db.next_booking b.id db.bookings x f t found in
    let saved : d.bookings ≡ update_where (has_id b.id) f db.bookings =
      rows ∙ ap (λ i. update_where (has_id i) f db.bookings) key in
    let (after, series) =
      cancel_each_rows ctx bs reason d rest (cancel-IsConsistent ctx b.id reason false db one t) in
    (after ∙ ap (updates (λ d. f) bs) saved, series ∙ cancel_series ctx b.id reason db one)

-- What the end of a series has passed and done.
pub record IsEnded (ctx : Context) (id : ℕ) (before after : Db) : Type 0 where
  pub series : RecurringReservation
  pub found : first (λ s. s.id == id) before.series ≡ some series
  pub owned : owns_series ctx.actor series ≡ true
  pub active : is_active_series series.status ≡ true
  pub some_ahead : any (lies_ahead id ctx.now) before.bookings ≡ true
  pub none_ahead : any (lies_ahead id ctx.now) after.bookings ≡ false
  pub closed :
      first (λ s. s.id == id) after.series
      ≡ some (record series { status = SeriesStatus.cancelled; cancelled_at = some ctx.now })

any-filter : (p : Booking → Bool) (xs : List Booking) → any (λ _. true) (filter p xs) ≡ any p xs
any-filter p [] = refl
any-filter p (x ∷ xs) = ground (arith, any-filter p xs)

some_found : (xs : List Booking) → is_empty xs ≡ false → any (λ _. true) xs ≡ true
some_found [] h = sym h
some_found (x ∷ xs) h = refl

future_ahead :
    (id now : ℕ) (db : Db)
    → is_empty (future_occurrences id now db) ≡ false
    → any (lies_ahead id now) db.bookings ≡ true
unfolding future_occurrences
future_ahead id now db h =
    let le = λ (a b : Booking). leb b.slot_start a.slot_start in
    let p = lies_ahead id now in
    sym (any-filter p db.bookings)
    ∙ (sym (any-order_by (λ _. true) le (filter p db.bookings))
        ∙ some_found (order_by le (filter p db.bookings)) h)

cancelled_behind :
    (ctx : Context) (reason : String) (id : ℕ) (x : Booking)
    → lies_ahead id ctx.now (cancelled ctx reason false x) ≡ false
unfolding cancelled
cancelled_behind ctx reason id x = ground arith

close_rows :
    (ctx : Context) (id : ℕ) (reason : String) (future : List Booking) (s : RecurringReservation)
    (db : Db)
    → first (λ s. s.id == id) db.series ≡ some s
    → first (λ s. s.id == id) (close_series ctx id reason future db).series
      ≡ some (record s { status = SeriesStatus.cancelled; cancelled_at = some ctx.now })
unfolding close_series record_audit
close_rows ctx id reason future s db h =
    Count.first-update_where (λ s. s.id == id) (λ s. s.id == id)
      (λ s. record s { status = SeriesStatus.cancelled; cancelled_at = some ctx.now }) (λ x. refl)
      db.series s h (Count.first_passes (λ s. s.id == id) db.series s h)

updates_other :
    (f : Booking → Booking)
    → ((x : Booking) → (f x).id ≡ x.id)
    → (other : ℕ) (ds rows : List Booking) → any (λ d. d.id == other) ds ≡ false
    → first (has_id other) (updates (λ d. f) ds rows) ≡ first (has_id other) rows
unfolding updates
updates_other f h other [] rows e = refl
updates_other f h other (d ∷ ds) rows e =
    updates_other f h other ds (update_where (has_id d.id) f rows) (ground arith)
    ∙ first_other f h d.id other (ground arith) rows

any-filter_and :
    (p q : Booking → Bool) (xs : List Booking) → any q (filter p xs) ≡ any (λ x. p x && q x) xs
any-filter_and p q [] = refl
any-filter_and p q (x ∷ xs) = ground (arith, any-filter_and p q xs)

not_in_future :
    (id now other : ℕ) (db : Db)
    → any (λ b. lies_ahead id now b && b.id == other) db.bookings ≡ false
    → any (λ d. d.id == other) (future_occurrences id now db) ≡ false
unfolding future_occurrences
not_in_future id now other db h =
    let le = λ (a b : Booking). leb b.slot_start a.slot_start in
    let p = lies_ahead id now in
    any-order_by (λ d. d.id == other) le (filter p db.bookings)
    ∙ (any-filter_and p (λ d. d.id == other) db.bookings ∙ h)

-- A weekly series ends only for its owner, while it is active and has an occurrence ahead. Afterwards no
-- occurrence of it waits or is scheduled later than now, the series is cancelled as of now, a booking
-- that was no such occurrence is as it was, and the booking table satisfies all its constraints, if it
-- did before.
pub cancel_recurring_reservation-IsEnded :
    (ctx : Context) (id : ℕ) (reason : String) (db : Db) (other : ℕ) {fields : Fields} {db' : Db}
    → cancel_recurring_reservation ctx id reason db ≡ (ok fields, db')
    → any (λ b. lies_ahead id ctx.now b && b.id == other) db.bookings ≡ false
    → IsConsistent db
    → IsEnded ctx id db db' × (find_booking other db' ≡ find_booking other db) × IsConsistent db'
unfolding cancel_recurring_reservation reject_if
cancel_recurring_reservation-IsEnded ctx id reason db other {fields} {db'} h apart t =
    elim (Option-cases (first (λ s. s.id == id) db.series)) [
      | inl e ↦ ground (arith, e)
      | inr (s, e) ↦
          let p = lies_ahead id ctx.now in
          let future = future_occurrences id ctx.now db in
          let why = if is_blank reason then "SERIES_CANCELLATION" else reason in
          let run = cancel_each ctx future why db in
          let done : cancel_each ctx future why db ≡ (ok tt, run.1) = ground (arith, e) in
          let last : db' ≡ close_series ctx id reason future run.1 = ground (arith, e) in
          let (rows, same) = cancel_each_rows ctx future why db done t in
          let kept : (close_series ctx id reason future run.1).bookings ≡ run.1.bookings =
            unfold close_series record_audit in refl in
          let found : first (λ s. s.id == id) run.1.series ≡ some s =
            ap (first (λ s. s.id == id)) same ∙ e in
          (
            record {
              series = s;
              found = e;
              owned = ground (arith, e);
              active = ground (arith, e);
              some_ahead = future_ahead id ctx.now db (ground (arith, e));
              none_ahead =
                  ap (λ d. any p d.bookings) last
                  ∙ (ap (any p) (kept ∙ rows)
                      ∙ updates_none p (λ d. cancelled ctx why false)
                          (λ d x. cancelled_behind ctx why id x) future db.bookings
                          (unfold future_occurrences in
                            found_Listed p (λ a b. leb b.slot_start a.slot_start) db.bookings));
              closed =
                  ap (λ d. first (λ s. s.id == id) d.series) last
                  ∙ close_rows ctx id reason future s run.1 found;
            },
            ap (find_booking other) last
                ∙ (ap (first (has_id other)) (kept ∙ rows)
                    ∙ updates_other (cancelled ctx why false) (λ x. unfold cancelled in refl) other
                        future db.bookings (not_in_future id ctx.now other db apart)),
            cancel_recurring_reservation-IsConsistent ctx id reason db h t,
          )
    ]
