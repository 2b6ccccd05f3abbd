-- ===== src/Closures/Cleared.antt =====
-- What a closure that was created has cleared.
use room_reserve.Prelude.{
  ℕ, ◌<◌, ◌≡◌, refl, sym, ap, ◌∙◌, Bool, true, false, not, ◌&&◌, Option, none, some, String, List,
  [], ◌∷◌, ◌++◌, any, filter, order_by, All, length, ltb, leb, ◌==◌, null_or, arith,
}
use mathlib.Core.Path.{subst}
use room_reserve.Prelude.Count
use room_reserve.Models.Booking.{Booking, is_in_use}
use room_reserve.Models.Room.{Room, Closure}
use room_reserve.Models.Db.{Db}
use room_reserve.Slots.{slot_end_for}
use room_reserve.Calendar.{is_slot_closed, closes}
use room_reserve.Audit.{record_audit}
use room_reserve.Outbox.{enqueue}
use room_reserve.Bookings.{Context, save_booking, is_open_status}
use room_reserve.Action.{ok, for_each, reject_if}
use room_reserve.Action.Rules.{for_each_keeps}
use room_reserve.Due.Rows.{updates, for_each_rows}
use room_reserve.Due.Left.{
  Listed, kept_Listed, none-Listed, updates_none, updates_keep_none, any-updates,
}
use room_reserve.Bulk.{dropped, flagged}
use room_reserve.Closures.{
  is_affected, in_progress, is_cancellable, affected, Preview, preview_of, preview_closure,
  new_closure, insert_closure, drop_for_closure, flag, on_site_note, audit_closure, write_closure,
  create_closure,
}
use room_reserve.Closures.Table.{drop_for_closure-Saves, flag-Saves}

-- A booking of the closure's rooms whose time overlaps the closure.
unfoldable pub is_within : Option Room → ℕ → ℕ → Booking → Bool
is_within none starts_at ends_at b = ltb b.slot_start ends_at && ltb starts_at b.slot_end
is_within (some r) starts_at ends_at b =
    (b.room == r.id) && (ltb b.slot_start ends_at && ltb starts_at b.slot_end)

-- A booking that is still ahead, or is a student's and was not checked in.
abbrev pub is_waiting : ℕ → Booking → Bool
is_waiting now b = is_open_status b.status && not (b.is_staff_booking && leb b.slot_start now)

-- No waiting booking overlaps the closure; one that is in use overlaps it only when that was
-- acknowledged; and every slot of the rooms that overlaps the closure is closed.
pub record IsCleared (room : Option Room) (starts_at ends_at now : ℕ) (acknowledged : Bool)
    (db : Db) : Type 0 where
  pub given_up :
      any (λ b. is_within room starts_at ends_at b && is_waiting now b) db.bookings ≡ false
  pub confirmed :
      acknowledged ≡ false
      → any (λ b. is_within room starts_at ends_at b && is_in_use b.status) db.bookings ≡ false
  pub closed :
      (slot_start id : ℕ)
      → null_or (λ r. r.id == id) room ≡ true
      → slot_start < ends_at
      → starts_at < slot_end_for slot_start
      → is_slot_closed slot_start id db ≡ true

waiting-affected :
    (room : Option Room) (starts_at ends_at now : ℕ) (b : Booking)
    → (is_within room starts_at ends_at b && is_waiting now b) ≡ true
    → (is_affected room starts_at ends_at b && is_cancellable now b) ≡ true
unfolding is_within is_affected
waiting-affected none starts_at ends_at now b h = ground arith
waiting-affected (some r) starts_at ends_at now b h = ground arith

used-affected :
    (room : Option Room) (starts_at ends_at now : ℕ) (b : Booking)
    → (is_within room starts_at ends_at b && is_in_use b.status) ≡ true
    → (is_affected room starts_at ends_at b && in_progress now b) ≡ true
unfolding is_within is_affected
used-affected none starts_at ends_at now b h = ground arith
used-affected (some r) starts_at ends_at now b h = ground arith

any_less :
    (p q : Booking → Bool)
    → ((b : Booking) → q b ≡ true → p b ≡ true)
    → (rows : List Booking) → any p rows ≡ false
    → any q rows ≡ false
any_less p q f [] h = refl
any_less p q f (b ∷ rows) h = let rest = any_less p q f rows in let here = f b in ground arith

module _ (ctx : Context) (room : Option Room) (starts_at ends_at : ℕ) (reason : String) where
  written_rows :
      (c : Closure) (p : Preview) (db : Db)
      → (write_closure ctx room c reason p db).bookings
        ≡ updates
            (λ d. flagged (on_site_note reason))
            p.in_use
            (updates (λ d. dropped ctx "CLOSURE") p.scheduled db.bookings)
  unfolding write_closure audit_closure record_audit
  written_rows c p db =
      let d = insert_closure c db in
      let drops =
        for_each_rows (λ d. dropped ctx "CLOSURE") (drop_for_closure ctx c.id reason)
          (drop_for_closure-Saves ctx c.id reason) p.scheduled d in
      let flags =
        for_each_rows (λ d. flagged (on_site_note reason)) (flag (on_site_note reason))
          (flag-Saves (on_site_note reason)) p.in_use
          (for_each p.scheduled (drop_for_closure ctx c.id reason) d) in
      flags.0
      ∙ (ap (updates (λ d. flagged (on_site_note reason)) p.in_use) drops.0
          ∙ (unfold insert_closure in refl))

  flag_same :
      (cs : List Closure) (b : Booking) (d : Db)
      → d.closures ≡ cs
      → (flag (on_site_note reason) b d).closures ≡ cs
  unfolding flag save_booking
  flag_same cs b d h = h

  drop_same :
      (cs : List Closure) (id : ℕ) (b : Booking) (d : Db)
      → d.closures ≡ cs
      → (drop_for_closure ctx id reason b d).closures ≡ cs
  unfolding drop_for_closure enqueue record_audit save_booking
  drop_same cs id b d h = h

  written_closures :
      (c : Closure) (p : Preview) (db : Db)
      → (write_closure ctx room c reason p db).closures ≡ db.closures ++ (c ∷ [])
  unfolding write_closure audit_closure record_audit
  written_closures c p db =
      let same = λ (d : Db). d.closures ≡ db.closures ++ (c ∷ []) in
      let d = insert_closure c db in
      let drops = for_each p.scheduled (drop_for_closure ctx c.id reason) d in
      let inserted : d.closures ≡ db.closures ++ (c ∷ []) = unfold insert_closure in refl in
      for_each_keeps same (flag (on_site_note reason)) (flag_same (db.closures ++ (c ∷ [])))
        p.in_use drops
        (for_each_keeps same (drop_for_closure ctx c.id reason)
          (drop_same (db.closures ++ (c ∷ [])) c.id) p.scheduled d inserted)

  create_closure_ok :
      (acknowledged : Bool) (db : Db) {c : Closure} {db' : Db}
      → create_closure ctx room starts_at ends_at reason acknowledged db ≡ (ok c, db')
      → (c ≡ new_closure ctx room starts_at ends_at reason acknowledged db)
        × (db' ≡ write_closure ctx room c reason (preview_of room starts_at ends_at db) db)
        × ((ltb 0 (length (preview_of room starts_at ends_at db).in_use) && not acknowledged)
            ≡ false)
  unfolding create_closure preview_closure reject_if
  create_closure_ok acknowledged db h = ground arith

new_closes :
    (ctx : Context) (room : Option Room) (starts_at ends_at : ℕ) (reason : String)
    (acknowledged : Bool) (db : Db) (slot_start id : ℕ)
    → null_or (λ r. r.id == id) room ≡ true
    → slot_start < ends_at
    → starts_at < slot_end_for slot_start
    → closes slot_start
        (slot_end_for slot_start)
        id
        (new_closure ctx room starts_at ends_at reason acknowledged db)
      ≡ true
unfolding new_closure
new_closes ctx none starts_at ends_at reason acknowledged db slot_start id s b a = ground arith
new_closes ctx (some r) starts_at ends_at reason acknowledged db slot_start id s b a = ground arith

none_found :
    (p k : Booking → Bool) (le : Booking → Booking → Bool) (rows : List Booking)
    → length (filter k (order_by le (filter p rows))) ≡ 0
    → any (λ x. p x && k x) rows ≡ false
none_found p k le rows h = go (filter k (order_by le (filter p rows))) h (kept_Listed p k le rows)
  where
    go :
        (ds : List Booking)
        → length ds ≡ 0
        → All (Listed (λ x. p x && k x) ds) rows
        → any (λ x. p x && k x) rows ≡ false
    go [] h a = none-Listed (λ x. p x && k x) rows a
    go (d ∷ ds) h a = ground arith

-- When a closure is created, no booking of its rooms that overlaps it still waits for approval or is
-- scheduled, except staff bookings whose hour has begun; if bookings in use were not acknowledged,
-- none that is in use overlaps it; and every slot of its rooms that overlaps it is closed.
pub create_closure-IsCleared :
    (ctx : Context) (room : Option Room) (starts_at ends_at : ℕ) (reason : String)
    (acknowledged : Bool) (db : Db) {c : Closure} {db' : Db}
    → create_closure ctx room starts_at ends_at reason acknowledged db ≡ (ok c, db')
    → IsCleared room starts_at ends_at db.wall acknowledged db'
unfolding preview_of affected
create_closure-IsCleared ctx room starts_at ends_at reason acknowledged db {c} {db'} h =
    let (new, wrote, guard) =
      create_closure_ok ctx room starts_at ends_at reason acknowledged db h in
    let hit = is_affected room starts_at ends_at in
    let le = λ (a b : Booking). leb a.slot_start b.slot_start in
    let p = preview_of room starts_at ends_at db in
    let note = on_site_note reason in
    let rows = updates (λ d. dropped ctx "CLOSURE") p.scheduled db.bookings in
    let after : db'.bookings ≡ updates (λ d. flagged note) p.in_use rows =
      ap (λ d. d.bookings) wrote ∙ written_rows ctx room starts_at ends_at reason c p db in
    record {
      given_up =
          any_less (λ b. hit b && is_cancellable db.wall b)
            (λ b. is_within room starts_at ends_at b && is_waiting db.wall b)
            (waiting-affected room starts_at ends_at db.wall) db'.bookings
            (ap (any (λ b. hit b && is_cancellable db.wall b)) after
              ∙ (any-updates (λ b. hit b && is_cancellable db.wall b) (λ d. flagged note)
                    (λ d x. unfold flagged is_affected in refl) p.in_use rows
                  ∙ updates_none (λ b. hit b && is_cancellable db.wall b)
                      (λ d. dropped ctx "CLOSURE")
                      (λ d x. unfold dropped is_affected in ground arith) p.scheduled db.bookings
                      (kept_Listed hit (is_cancellable db.wall) le db.bookings)));
      confirmed = λ e.
          any_less (λ b. hit b && in_progress db.wall b)
            (λ b. is_within room starts_at ends_at b && is_in_use b.status)
            (used-affected room starts_at ends_at db.wall) db'.bookings
            (ap (any (λ b. hit b && in_progress db.wall b)) after
              ∙ (any-updates (λ b. hit b && in_progress db.wall b) (λ d. flagged note)
                    (λ d x. unfold flagged is_affected in refl) p.in_use rows
                  ∙ updates_keep_none (λ b. hit b && in_progress db.wall b)
                      (λ d. dropped ctx "CLOSURE")
                      (λ d x. unfold dropped is_affected in ground arith) p.scheduled db.bookings
                      (none_found hit (in_progress db.wall) le db.bookings (ground arith))));
      closed = λ slot_start id scope before behind.
          unfold is_slot_closed in
          ap (any (closes slot_start (slot_end_for slot_start) id))
            (ap (λ d. d.closures) wrote ∙ written_closures ctx room starts_at ends_at reason c p db)
          ∙ Count.any-append_last (closes slot_start (slot_end_for slot_start) id) db.closures c (
              subst (λ x. closes slot_start (slot_end_for slot_start) id x ≡ true) (sym new)
                (new_closes ctx room starts_at ends_at reason acknowledged db slot_start id scope
                  before behind));
    }
