-- ===== src/Due/Rows.antt =====
-- A loop that saves the bookings that a query found: what becomes of the booking table.
use room_reserve.Prelude.{
  ℕ, ◌≡◌, refl, sym, ap, ◌∙◌, Bool, true, ◌&&◌, List, [], ◌∷◌, update_where, All, arith,
}
use mathlib.Core.Path.{subst}
use room_reserve.Prelude.Count
use room_reserve.Models.Booking.{Booking, claims_room, claims_user}
use room_reserve.Models.Db.{Db}
use room_reserve.Bookings.Constraints.{IsRow, IsTable}
use room_reserve.Bookings.Updates.{update-IsTable}
use room_reserve.Bookings.Save.{has_id}
use room_reserve.Action.{for_each}

-- The table after one save for each found booking.
unfoldable pub updates : (Booking → Booking → Booking) → List Booking → List Booking → List Booking
updates f [] rows = rows
updates f (d ∷ ds) rows = updates f ds (update_where (has_id d.id) (f d) rows)

-- A round of the loop saves its booking, and writes no other booking.
pub record Saves (f : Booking → Booking → Booking) (body : Booking → Db → Db) : Type 0 where
  pub rows :
      (d : Booking) (db : Db) → (body d db).bookings ≡ update_where (has_id d.id) (f d) db.bookings
  pub next : (d : Booking) (db : Db) → (body d db).next_booking ≡ db.next_booking

module _ (f : Booking → Booking → Booking) (body : Booking → Db → Db) (s : Saves f body) where
  pub for_each_rows :
      (ds : List Booking) (db : Db)
      → ((for_each ds body db).bookings ≡ updates f ds db.bookings)
        × ((for_each ds body db).next_booking ≡ db.next_booking)
  unfolding for_each updates
  for_each_rows [] db = (refl, refl)
  for_each_rows (d ∷ ds) db =
      let ih = for_each_rows ds (body d db) in
      (ih.0 ∙ ap (updates f ds) (s.rows d db), ih.1 ∙ s.next d db)

-- What the loop needs of a row for the booking it was found as, and what it then keeps.
pub record Steps (f : Booking → Booking → Booking) (ready : Booking → Booking → Bool) : Type 0 where
  pub key : (d x : Booking) → (f d x).id ≡ x.id
  pub row : (d x : Booking) → IsRow x → ready d x ≡ true → IsRow (f d x)
  pub room :
      (d x : Booking) (room start : ℕ)
      → ready d x ≡ true
      → claims_room room start (f d x) ≡ true
      → claims_room room start x ≡ true
  pub user :
      (d x : Booking) (user start : ℕ)
      → ready d x ≡ true
      → claims_user user start (f d x) ≡ true
      → claims_user user start x ≡ true
  pub stays : (d e x : Booking) → ready d x ≡ true → ready e x ≡ true → ready e (f d x) ≡ true

abbrev pub ReadyRows : (Booking → Booking → Bool) → List Booking → Booking → Type 0
ReadyRows ready rows d = All (λ x. x.id ≡ d.id → ready d x ≡ true) rows

module _ (f : Booking → Booking → Booking) (ready : Booking → Booking → Bool)
    (s : Steps f ready) where
  ready_update :
      (d : Booking) (rows : List Booking)
      → ReadyRows ready rows d
      → update_where (has_id d.id) (f d) rows
        ≡ update_where (λ x. has_id d.id x && ready d x) (f d) rows
  ready_update d [] r = refl
  ready_update d (x ∷ xs) r = ground (arith, r.0, ready_update d xs r.1)

  ready_after :
      (d e : Booking) (rows : List Booking)
      → ReadyRows ready rows d
      → ReadyRows ready rows e
      → ReadyRows ready (update_where (has_id d.id) (f d) rows) e
  ready_after d e [] rd re = tt
  ready_after d e (x ∷ xs) rd re = (
    Count.if_both (λ y. y.id ≡ e.id → ready e y ≡ true) (has_id d.id x) (f d x) x
        (λ q i. s.stays d e x (rd.0 (ground arith)) (re.0 (sym (s.key d x) ∙ i))) re.0,
    ready_after d e xs rd.1 re.1,
  )

  pub updates-IsTable :
      (next : ℕ) (ds rows : List Booking)
      → All (ReadyRows ready rows) ds
      → IsTable next rows
      → IsTable next (updates f ds rows)
  unfolding updates
  updates-IsTable next [] rows r t = t
  updates-IsTable next (d ∷ ds) rows r t =
      updates-IsTable next ds (update_where (has_id d.id) (f d) rows)
        (Count.All-map (ReadyRows ready rows)
          (ReadyRows ready (update_where (has_id d.id) (f d) rows)) (λ e. ready_after d e rows r.0)
          ds r.1)
        (subst (IsTable next) (sym (ready_update d rows r.0)) (
          update-IsTable next rows (λ x. has_id d.id x && ready d x) (f d) (s.key d)
            (λ b v q. s.row d b v (ground arith))
            (λ room start b q. s.room d b room start (ground arith))
            (λ user start b q. s.user d b user start (ground arith)) t))
