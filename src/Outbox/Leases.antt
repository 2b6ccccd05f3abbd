-- ===== src/Outbox/Leases.antt =====
-- Claiming a batch: no claimed notice can be claimed again before its lease ends.
use room_reserve.Prelude.{
  ℕ, ◌+◌, ◌*◌, ◌<◌, ◌≡◌, refl, Bool, true, false, ◌&&◌, Option, List, [], ◌∷◌, any, map,
  update_where, ◌==◌, arith,
}
use room_reserve.Models.Operations.{Notification}
use room_reserve.Models.Db.{Db}
use room_reserve.Outbox.{is_due, or_default, due_rows, lease, claim_due}

any-update_none :
    (p q : Notification → Bool) (f : Notification → Notification)
    → ((x : Notification) → q x ≡ true → p (f x) ≡ false)
    → ((x : Notification) → q x ≡ false → p x ≡ false)
    → (rows : List Notification) → any p (update_where q f rows) ≡ false
any-update_none p q f h k [] = refl
any-update_none p q f h k (x ∷ xs) = ground (arith, h x, k x, any-update_none p q f h k xs)

any-map :
    (p : Notification → Bool) (f : Notification → Notification)
    → ((x : Notification) → p (f x) ≡ p x)
    → (rows : List Notification) → any p (map f rows) ≡ any p rows
any-map p f h [] = refl
any-map p f h (r ∷ rows) = ground (arith, h r, any-map p f h rows)

-- Until the lease ends, no notice of a claimed batch is due, whatever rows another worker has
-- locked.
pub claim_due_leased :
    (now later : ℕ) (limit lease_seconds : Option ℕ) (locked locked' : Notification → Bool)
    (fresh : ℕ → ℕ) (db : Db)
    → later < now + or_default lease_seconds db.settings.outbox_lease_seconds * 1000000
    → let (rows, db') = claim_due now limit lease_seconds locked fresh db in
      any (λ n. is_due later locked' n && any (λ c. c.id == n.id) rows) db'.outbox ≡ false
unfolding claim_due
claim_due_leased now later limit lease_seconds locked locked' fresh db h =
    let n = or_default limit db.settings.outbox_batch_size in
    let until = now + or_default lease_seconds db.settings.outbox_lease_seconds * 1000000 in
    let rows = due_rows now locked n db.outbox in
    any-update_none
      (λ n. is_due later locked' n && any (λ c. c.id == n.id) (map (lease until fresh) rows))
      (λ r. any (λ c. c.id == r.id) rows) (lease until fresh) (λ x e. ground (arith, h))
      (λ x e. ground (arith, e, any-map (λ c. c.id == x.id) (lease until fresh) (λ y. refl) rows))
      db.outbox
