-- ===== src/Strikes/Over.antt =====
-- What the sanctions make of the accounts: enough strikes and no suspension in force is a state that
-- does not last, and no account gets a second suspension in force.
use room_reserve.Prelude.{
  ℕ, ◌≤◌, ◌≡◌, refl, ap, any, ◌∙◌, inl, inr, Bool, true, false, ◌&&◌, Option, some, List, [], ◌∷◌,
  ◌++◌, count, filter, update_where, All, ltb, leb, ◌==◌, Bool-cases, arith, if◌then◌else◌,
}
use room_reserve.Prelude.Count
use room_reserve.Models.Account.{User}
use room_reserve.Models.Policy.{PolicyVersion, strike_threshold}
use room_reserve.Models.Sanctions.{Violation, is_active_suspension, Suspension}
use room_reserve.Models.Db.{Db}
use room_reserve.Audit.{record_audit}
use room_reserve.Outbox.{enqueue}
use room_reserve.Policy.{policy_of, with_policy}
use room_reserve.Bookings.{save_booking}
use room_reserve.Action.{for_each}
use room_reserve.Action.Rules.{for_each_keeps}
use room_reserve.Strikes.{
  open_bookings, cancel_for_suspension, cancel_scheduled_for_suspension, announce_suspension,
  insert_suspension, create_automatic_suspension, is_over_threshold, has_active_suspension,
  suspend_if_free, apply_strike_thresholds, is_strike_of, strike_count, consume,
  automatic_suspension, is_finished, notify_finished, notify_finished_suspensions,
}

-- Strikes enough for a suspension come with one in force.
unfoldable pub IsSanctioned : ℕ → PolicyVersion → ℕ → Db → Type 0
IsSanctioned now policy user db =
    (ltb 0 (strike_count now user db) && leb (strike_threshold policy) (strike_count now user db))
      ≡ true
    → has_active_suspension now user db ≡ true

-- At most one suspension in force.
unfoldable pub HasOneActive : ℕ → Db → Type 0
HasOneActive now db =
    (user : ℕ) → count (λ s. s.user == user && is_active_suspension now s) db.suspensions ≤ 1

none_left :
    (now user k : ℕ) (vs : List Violation)
    → count (is_strike_of now user) (update_where (is_strike_of now user) (consume k) vs) ≡ 0
none_left now user k [] = refl
none_left now user k (v ∷ vs) = ground (arith, none_left now user k vs)

notice_keeps :
    (now : ℕ) (policy : PolicyVersion) (user : ℕ) (s : Suspension) (db : Db)
    → IsSanctioned now policy user db
    → IsSanctioned now policy user (notify_finished now s db)
unfolding IsSanctioned strike_count has_active_suspension notify_finished enqueue
notice_keeps now policy user s db t enough =
    Count.any-update_where (λ x. x.user == user && is_active_suspension now x) (λ x. x.id == s.id)
      (λ x. record x { end_notified_at = some now }) (λ x. refl) db.suspensions
    ∙ t enough

-- The notices of suspensions that ran out change neither strikes nor suspensions in force.
pub notify-IsSanctioned :
    (now : ℕ) (policy : PolicyVersion) (user : ℕ) (db : Db)
    → IsSanctioned now policy user db
    → IsSanctioned now policy user (notify_finished_suspensions now db)
unfolding notify_finished_suspensions
notify-IsSanctioned now policy user db h =
    for_each_keeps (IsSanctioned now policy user) (notify_finished now)
      (notice_keeps now policy user) (filter (is_finished now) db.suspensions) db h

pub notify-users : (now : ℕ) (db : Db) → (notify_finished_suspensions now db).users ≡ db.users
unfolding notify_finished_suspensions
notify-users now db =
    for_each_keeps (λ d. d.users ≡ db.users) (notify_finished now)
      (λ s d h. unfold notify_finished enqueue in h) (filter (is_finished now) db.suspensions) db
      refl

-- What the cancellations that come with a suspension leave alone.
cancel_scheduled_keeps :
    (now : ℕ) (actor : Option User) (u : User) (db : Db)
    → ((cancel_scheduled_for_suspension now actor u db).violations ≡ db.violations)
      × ((cancel_scheduled_for_suspension now actor u db).suspensions ≡ db.suspensions)
      × ((cancel_scheduled_for_suspension now actor u db).users ≡ db.users)
unfolding cancel_scheduled_for_suspension
cancel_scheduled_keeps now actor u db =
    for_each_keeps
      (λ d.
        (d.violations ≡ db.violations) × (d.suspensions ≡ db.suspensions) × (d.users ≡ db.users))
      (cancel_for_suspension now actor u)
      (λ b d h. (unfold cancel_for_suspension enqueue record_audit save_booking in h))
      (open_bookings u.id db) db (refl, refl, refl)

module _ (now : ℕ) (actor : Option User) (policy : PolicyVersion) where
  -- A new suspension is a row of the account, with the account's strikes consumed.
  create_rows :
      (u : User) (db : Db)
      → ((create_automatic_suspension now actor policy u db).violations
          ≡ update_where (is_strike_of now u.id) (consume db.next_suspension) db.violations)
        × ((create_automatic_suspension now actor policy u db).suspensions
            ≡ db.suspensions ++ (automatic_suspension db.next_suspension now actor u policy ∷ []))
        × ((create_automatic_suspension now actor policy u db).users ≡ db.users)
  unfolding create_automatic_suspension
  create_rows u db =
      unfold announce_suspension insert_suspension enqueue record_audit automatic_suspension in
      cancel_scheduled_keeps now actor u _

  create_sanctions :
      (u : User) (db : Db)
      → IsSanctioned now policy u.id (create_automatic_suspension now actor policy u db)
  unfolding IsSanctioned strike_count
  create_sanctions u db =
      let (vs, ss, us) = create_rows u db in
      rw vs (ground (arith, none_left now u.id db.next_suspension db.violations))

  create_keeps :
      (u : User) (user : ℕ) (db : Db)
      → IsSanctioned now policy user db
      → IsSanctioned now policy user (create_automatic_suspension now actor policy u db)
  unfolding IsSanctioned strike_count has_active_suspension
  create_keeps u user db h =
      let (vs, ss, us) = create_rows u db in
      let fewer =
        Count.count-update_where-le (is_strike_of now user) (is_strike_of now u.id)
          (consume db.next_suspension) (λ v e e'. ground arith) db.violations in
      let more =
        Count.any-append_left (λ s. s.user == user && is_active_suspension now s) db.suspensions
          (automatic_suspension db.next_suspension now actor u policy ∷ []) in
      rw (vs, ss) (ground (arith, fewer, more, h))

  free_sanctions :
      (u : User) (db : Db) → IsSanctioned now policy u.id (suspend_if_free now actor policy u db)
  unfolding suspend_if_free
  free_sanctions u db =
      Count.if_both (IsSanctioned now policy u.id) (has_active_suspension now u.id db) db
        (create_automatic_suspension now actor policy u db)
        (λ e. unfold IsSanctioned in λ enough. e) (create_sanctions u db)

  free_keeps :
      (user : ℕ) (u : User) (db : Db)
      → IsSanctioned now policy user db
      → IsSanctioned now policy user (suspend_if_free now actor policy u db)
  unfolding suspend_if_free
  free_keeps user u db h =
      Count.if_both (IsSanctioned now policy user) (has_active_suspension now u.id db) db
        (create_automatic_suspension now actor policy u db) (λ e. h) (create_keeps u user db h)

  -- Every account that the loop visits, and every one that was sanctioned before.
  loop_sanctions :
      (us : List User) (db : Db)
      → All
          (λ u. IsSanctioned now policy u.id (for_each us (suspend_if_free now actor policy) db))
          us
  unfolding for_each
  loop_sanctions [] db = tt
  loop_sanctions (u ∷ us) db = (
    for_each_keeps (IsSanctioned now policy u.id) (suspend_if_free now actor policy)
        (free_keeps u.id) us (suspend_if_free now actor policy u db) (free_sanctions u db),
    loop_sanctions us (suspend_if_free now actor policy u db),
  )

  one_active :
      (u : User) (db : Db)
      → HasOneActive now db
      → HasOneActive now (suspend_if_free now actor policy u db)
  unfolding suspend_if_free
  one_active u db h = if_free (has_active_suspension now u.id db) refl
    where
      if_free :
          (b : Bool)
          → has_active_suspension now u.id db ≡ b
          → HasOneActive now (if b then db else create_automatic_suspension now actor policy u db)
      if_free true e = h
      if_free false e =
          let (vs, ss, us) = create_rows u db in
          unfold HasOneActive has_active_suspension automatic_suspension in
          λ user.
            let old =
              Count.count_of_any (λ s. s.user == u.id && is_active_suspension now s) db.suspensions
                e in
            let sum =
              Count.count-append (λ s. s.user == user && is_active_suspension now s) db.suspensions
                (automatic_suspension db.next_suspension now actor u policy ∷ []) in
            elim (Bool-cases (user == u.id)) [
              | inl same ↦
                  let id : user ≡ u.id = ground arith in rw (ss, sum, id) (ground (arith, old))
              | inr other ↦ rw (ss, sum) (ground (arith, h user))
            ]

  users_keep : (u : User) (db : Db) → (suspend_if_free now actor policy u db).users ≡ db.users
  unfolding suspend_if_free
  users_keep u db = let (vs, ss, us) = create_rows u db in ground (arith, us)

  violations_keep :
      (p : Violation → Bool)
      → ((k : ℕ) (v : Violation) → p (consume k v) ≡ p v)
      → (u : User) (db : Db)
      → any p (suspend_if_free now actor policy u db).violations ≡ any p db.violations
  unfolding suspend_if_free
  violations_keep p h u db =
      let (vs, ss, us) = create_rows u db in
      let same =
        Count.any-update_where p (is_strike_of now u.id) (consume db.next_suspension)
          (h db.next_suspension) db.violations in
      Count.if_both (λ d. any p d.violations ≡ any p db.violations)
        (has_active_suspension now u.id db) db (create_automatic_suspension now actor policy u db)
        (λ e. refl) (ap (any p) vs ∙ same)

module _ (now : ℕ) (actor : Option User) (db : Db) where
  -- The strike thresholds leave each account with too few strikes or with a suspension in force.
  pub apply_strike_thresholds-IsSanctioned :
      All
        (λ u. IsSanctioned now (policy_of db) u.id (apply_strike_thresholds now actor db))
        db.users
  unfolding apply_strike_thresholds
  apply_strike_thresholds-IsSanctioned =
      let p = policy_of db in
      let body = suspend_if_free now actor p in
      let over = filter (is_over_threshold now p (with_policy db)) db.users in
      Count.All-of_filter (λ u. IsSanctioned now p u.id (for_each over body (with_policy db)))
        (is_over_threshold now p (with_policy db)) db.users
        (λ u e.
          for_each_keeps (IsSanctioned now p u.id) body (free_keeps now actor p u.id) over
            (with_policy db) (unfold IsSanctioned in λ enough. cc))
        (loop_sanctions now actor p over (with_policy db))

  pub apply_strike_thresholds-HasOneActive :
      HasOneActive now db → HasOneActive now (apply_strike_thresholds now actor db)
  unfolding apply_strike_thresholds
  apply_strike_thresholds-HasOneActive h =
      let p = policy_of db in
      for_each_keeps (HasOneActive now) (suspend_if_free now actor p) (one_active now actor p)
        (filter (is_over_threshold now p (with_policy db)) db.users) (with_policy db)
        (unfold HasOneActive with_policy in h)

  pub apply_strike_thresholds-users : (apply_strike_thresholds now actor db).users ≡ db.users
  unfolding apply_strike_thresholds
  apply_strike_thresholds-users =
      let p = policy_of db in
      for_each_keeps (λ d. d.users ≡ db.users) (suspend_if_free now actor p)
        (λ u d h. users_keep now actor p u d ∙ h)
        (filter (is_over_threshold now p (with_policy db)) db.users) (with_policy db)
        (unfold with_policy in refl)

  -- The thresholds mark violations as consumed, and change nothing else in them.
  pub apply_strike_thresholds-violations :
      (p : Violation → Bool)
      → ((k : ℕ) (v : Violation) → p (consume k v) ≡ p v)
      → any p (apply_strike_thresholds now actor db).violations ≡ any p db.violations
  unfolding apply_strike_thresholds
  apply_strike_thresholds-violations p h =
      for_each_keeps (λ d. any p d.violations ≡ any p db.violations)
        (suspend_if_free now actor (policy_of db))
        (λ u d e. violations_keep now actor (policy_of db) p h u d ∙ e)
        (filter (is_over_threshold now (policy_of db) (with_policy db)) db.users) (with_policy db)
        (unfold with_policy in refl)
