-- ===== src/Sanctions/Laws.antt =====
-- What staff sanctions make of the accounts: no second suspension in force, and no account with enough
-- strikes and without one.
use room_reserve.Prelude.{
  ℕ, ◌≤◌, ◌≡◌, refl, sym, ap, ◌∙◌, inl, inr, Bool, true, false, ◌&&◌, Option, none, some, String,
  List, [], ◌∷◌, ◌++◌, any, count, first, filter, order_by, update_where, All, leb, ◌==◌, ==_refl,
  Bool-cases, Option-cases, arith,
}
use mathlib.Core.Path.{subst}
use room_reserve.Prelude.Count
use room_reserve.Models.Account.{User}
use room_reserve.Models.Sanctions.{Violation, Suspension, is_active_suspension}
use room_reserve.Models.Db.{Db}
use room_reserve.Audit.{record_audit}
use room_reserve.Outbox.{enqueue}
use room_reserve.Bookings.{Context, save_booking}
use room_reserve.Action.{ok, reject_if, violate_if}
use room_reserve.Action.Rules.{for_each_keeps}
use room_reserve.Due.Found.{filter-All, order_by-All, any-order_by}
use room_reserve.Strikes.{open_bookings}
use room_reserve.Strikes.Over.{HasOneActive}
use room_reserve.Sanctions.{
  active_of, apply_manual_suspension, suspend_or_adjust, create_manual, manual_suspension,
  insert_manual, cancel_scheduled, drop_for_suspension, extend_or_shorten_suspension,
  find_suspension, adjusted, write_adjusted,
}

any-filter :
    (p : Suspension → Bool) (xs : List Suspension) → any (λ _. true) (filter p xs) ≡ any p xs
any-filter p [] = refl
any-filter p (x ∷ xs) = ground (arith, any-filter p xs)

nothing_first : (xs : List Suspension) → first (λ _. true) xs ≡ none → any (λ _. true) xs ≡ false
nothing_first [] h = refl
nothing_first (x ∷ xs) h = cc h

-- The same violation, whether a suspension has consumed it or not.
abbrev pub is_row_of : Violation → Violation → Bool
is_row_of v x =
    x.id == v.id
    && (x.user == v.user && (x.occurred_at == v.occurred_at && x.expires_at == v.expires_at))

module _ (ctx : Context) where
  none_active :
      (user : ℕ) (db : Db)
      → active_of ctx.now user db ≡ none
      → any (λ s. s.user == user && is_active_suspension ctx.now s) db.suspensions ≡ false
  unfolding active_of
  none_active user db h =
      let p = λ (s : Suspension). s.user == user && is_active_suspension ctx.now s in
      let le = λ (a b : Suspension). leb b.starts_at a.starts_at in
      sym (any-filter p db.suspensions)
      ∙ (sym (any-order_by (λ _. true) le (filter p db.suspensions))
          ∙ nothing_first (order_by le (filter p db.suspensions)) h)

  cancel_same :
      (user : User) (reason : String) (db : Db)
      → (cancel_scheduled ctx user reason db).suspensions ≡ db.suspensions
  unfolding cancel_scheduled
  cancel_same user reason db =
      for_each_keeps (λ d. d.suspensions ≡ db.suspensions) (drop_for_suspension ctx user reason)
        (λ b d h. unfold drop_for_suspension enqueue record_audit save_booking in h)
        (open_bookings user.id db) db refl

  inserted_rows :
      (user : User) (reason : String) (s : Suspension) (db : Db)
      → (insert_manual ctx user reason s db).suspensions ≡ db.suspensions ++ (s ∷ [])
  unfolding insert_manual enqueue record_audit
  inserted_rows user reason s db = refl

  create_one :
      (user : User) (reason : String) (ends_at : Option ℕ) (db : Db) {s : Suspension} {db' : Db}
      → create_manual ctx user reason ends_at db ≡ (ok s, db')
      → active_of ctx.now user.id db ≡ none
      → HasOneActive ctx.now db
      → HasOneActive ctx.now db'
  unfolding create_manual reject_if HasOneActive
  create_one user reason ends_at db {s} {db'} h free one other =
      let new = manual_suspension ctx user reason ends_at db in
      let p = λ (u : ℕ) (x : Suspension). x.user == u && is_active_suspension ctx.now x in
      let last : db'
          ≡ cancel_scheduled ctx user "SUSPENSION" (insert_manual ctx user reason new db) =
        ground arith in
      let rows : db'.suspensions ≡ db.suspensions ++ (new ∷ []) =
        ap (λ d. d.suspensions) last
        ∙ (cancel_same user "SUSPENSION" (insert_manual ctx user reason new db)
            ∙ inserted_rows user reason new db) in
      let sum = Count.count-append (p other) db.suspensions (new ∷ []) in
      let mine = Count.count_of_any (p user.id) db.suspensions (none_active user.id db free) in
      elim (Bool-cases (other == user.id)) [
        | inl same ↦
            let id : other ≡ user.id = ground arith in
            rw (rows, sum, id) (unfold manual_suspension in ground (arith, mine))
        | inr else_ ↦ rw (rows, sum) (unfold manual_suspension in ground (arith, one other))
      ]

  adjusted_rows :
      (b : Suspension) (ends_at : Option ℕ) (reason : String) {id : ℕ}
      → b.id ≡ id
      → (db : Db)
      → (write_adjusted ctx b ends_at reason true db).suspensions
        ≡ update_where (λ x. x.id == id) (adjusted ends_at) db.suspensions
  unfolding write_adjusted record_audit
  adjusted_rows b ends_at reason e db =
      ap (λ i. update_where (λ x. x.id == i) (adjusted ends_at) db.suspensions) e

  adjust_one :
      (user : ℕ) (a : Suspension) (ends_at : Option ℕ) (reason : String) (db : Db) {s : Suspension}
      {db' : Db}
      → extend_or_shorten_suspension ctx a.id ends_at reason true db ≡ (ok s, db')
      → active_of ctx.now user db ≡ some a
      → ((i : ℕ) → count (λ s. s.id == i) db.suspensions ≤ 1)
      → HasOneActive ctx.now db
      → HasOneActive ctx.now db'
  unfolding extend_or_shorten_suspension reject_if violate_if HasOneActive active_of
  adjust_one user a ends_at reason db {s} {db'} h found keys one other =
      elim (Option-cases (find_suspension a.id db)) [
        | inl e ↦ ground (arith, e)
        | inr (b, e) ↦
            let p = λ (u : ℕ) (x : Suspension). x.user == u && is_active_suspension ctx.now x in
            let le = λ (x y : Suspension). leb y.starts_at x.starts_at in
            let last : db' ≡ write_adjusted ctx b ends_at reason true db = ground (arith, e) in
            let only = Count.only_row (λ x. x.id == a.id) b db.suspensions (keys a.id) e in
            let Found : Suspension → Type 0 =
              λ x. (p user x ≡ true) × ((x.id == a.id) ≡ true → x ≡ b) in
            let listed : All Found (order_by le (filter (p user) db.suspensions)) =
              order_by-All Found le (filter (p user) db.suspensions) (
                filter-All Found (p user) db.suspensions (
                  Count.All-map (λ x. (x.id == a.id) ≡ true → x ≡ b)
                    (λ x. p user x ≡ true → Found x) (λ x k q. (q, k)) db.suspensions only)) in
            let it =
              Count.first_All Found (λ _. true) (order_by le (filter (p user) db.suspensions)) a
                listed found in
            let same : a ≡ b = it.1 (==_refl a.id) in
            let was : p user b ≡ true = subst (λ x. p user x ≡ true) same it.0 in
            let id : b.id ≡ a.id = ap (λ x. x.id) (sym same) in
            let rows : db'.suspensions
                ≡ update_where (λ x. x.id == a.id) (adjusted ends_at) db.suspensions =
              ap (λ d. d.suspensions) last ∙ adjusted_rows b ends_at reason id db in
            let fewer =
              Count.count-update_row-le (p other) (λ x. x.id == a.id) (adjusted ends_at) b
                (unfold adjusted in λ k. ground arith) db.suspensions only in
            rw rows (omega (arith, fewer, one other))
      ]

  -- A suspension that staff applied, as a new row or as a change of the one in force, leaves no account
  -- with two suspensions in force, if none had two and no key stands twice.
  pub apply_manual_suspension-HasOneActive :
      (id : ℕ) (reason : String) (ends_at : Option ℕ) (db : Db) {s : Suspension} {db' : Db}
      → apply_manual_suspension ctx id reason ends_at db ≡ (ok s, db')
      → ((i : ℕ) → count (λ s. s.id == i) db.suspensions ≤ 1)
      → HasOneActive ctx.now db
      → HasOneActive ctx.now db'
  unfolding apply_manual_suspension reject_if suspend_or_adjust
  apply_manual_suspension-HasOneActive id reason ends_at db {s} {db'} h keys one =
      elim (Option-cases (first (λ u. u.id == id) db.users)) [
        | inl e ↦ ground (arith, e)
        | inr (u, e) ↦ elim (Option-cases (active_of ctx.now u.id db)) [
          | inl free ↦ create_one u reason ends_at db {s = s} (ground (arith, e, free)) free one
          | inr (a, found) ↦
              adjust_one u.id a ends_at reason db {s = s} (ground (arith, e, found)) found keys one
        ]
      ]
