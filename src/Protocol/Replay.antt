-- ===== src/Protocol/Replay.antt =====
-- Idempotency: a request that succeeded is answered from its record when it comes again.
use room_reserve.Prelude.{
  ℕ, ◌≡◌, refl, sym, ap, ◌∙◌, inl, inr, Bool, true, Option, none, some, String, List, [], ◌∷◌, ◌++◌,
  first, Option-cases, ==_refl, arith,
}
use text.Mathlib.TextEquality.{eq_iff}
use room_reserve.Prelude.Text.{same_text}
use room_reserve.Models.Account.{User}
use room_reserve.Models.Operations.{Fields, OperationRequest}
use room_reserve.Models.Db.{Db}
use room_reserve.Reconcile.{reconcile}
use room_reserve.Reconcile.Keeps.{reconcile-requests}
use room_reserve.Action.{Action, ok, Outcome, replay}
use room_reserve.Protocol.{
  Request, keyed_user, is_request_of, prior_request, in_savepoint, new_request, answer_prior,
  record_request, record_if_ok, context_of, answer, run_once,
}
use room_reserve.Protocol.Outcomes.{IsQuiet, prior_request_same, ran}

same_text_refl : (s : String) → same_text s s ≡ true
same_text_refl s = (eq_iff s s).1 refl

first_append_one :
    (p : OperationRequest → Bool) (xs : List OperationRequest) (y : OperationRequest)
    → first p xs ≡ none
    → p y ≡ true
    → first p (xs ++ (y ∷ [])) ≡ some y
first_append_one p [] y h e = ground arith
first_append_one p (x ∷ xs) y h e = ground (arith, first_append_one p xs y)

module _ (digest : Fields → String) (r : Request) (u : User) (keyed : keyed_user r ≡ some u) where
  -- What the record of a successful request holds.
  IsRecorded : Outcome → Option OperationRequest → Type 0
  IsRecorded o q =
      (x : OperationRequest) × (q ≡ some x)
      × (x.code ≡ o.code)
      × (x.fields ≡ o.fields)
      × (same_text x.payload_fingerprint (digest r.payload) ≡ true)

  record_request-IsRecorded :
      (o : Outcome) (db : Db) {o' : Outcome} {db' : Db}
      → prior_request r (some u) db ≡ none
      → record_request digest r o (some u) db ≡ (ok o', db')
      → IsRecorded o' (prior_request r (some u) db')
  unfolding IsRecorded record_request prior_request
  record_request-IsRecorded o db {o'} {db'} e h =
      let q = new_request digest r u o db.wall in
      let fits : is_request_of r u q ≡ true =
        unfold new_request in
        ground (arith, ==_refl u.id, same_text_refl r.operation, same_text_refl r.key) in
      let found = first_append_one (is_request_of r u) db.requests q e fits in
      (
        q,
        ground (arith, found, h, e),
        unfold new_request in ground (arith, h, e),
        unfold new_request in ground (arith, h, e),
        unfold new_request in same_text_refl (digest r.payload),
      )

  answer_old :
      (now : ℕ) (db : Db) (q : OperationRequest)
      → prior_request r (some u) db ≡ some q
      → answer digest now r db ≡ (ok (answer_prior digest r q), db)
  unfolding answer
  answer_old now db q e =
      let e' : prior_request r (keyed_user r) db ≡ some q =
        ap (λ k. prior_request r k db) keyed ∙ e in
      ground (arith, e')

  prior_good :
      (q : OperationRequest)
      → (answer_prior digest r q).ok ≡ true
      → (same_text q.payload_fingerprint (digest r.payload) ≡ true)
        × (answer_prior digest r q ≡ replay q.code q.fields)
  prior_good q h = ground arith

  saved_requests :
      (body : Action Outcome) (db : Db) {o : Outcome} {d : Db}
      → (body db).1.requests ≡ db.requests
      → in_savepoint body db ≡ (ok o, d)
      → d.requests ≡ db.requests
  unfolding in_savepoint
  saved_requests body db q h = ground arith

  recorded_good :
      (o : Outcome) (db : Db) {o' : Outcome} {db' : Db}
      → record_if_ok digest r o db ≡ (ok o', db')
      → o'.ok ≡ true
      → record_request digest r o (some u) db ≡ (ok o', db')
  unfolding record_if_ok
  recorded_good o db h good = ground (arith, keyed)

  recorded :
      (now : ℕ) (db : Db) {o : Outcome} {db' : Db}
      → IsQuiet r.body
      → answer digest now r db ≡ (ok o, db')
      → o.ok ≡ true
      → IsRecorded o (prior_request r (some u) db')
  recorded now db {o} {db'} quiet h good = elim (Option-cases (prior_request r (some u) db)) [
    | inr (q, e) ↦
        let old = sym (answer_old now db q e) ∙ h in
        let is_o : answer_prior digest r q ≡ o = ground arith in
        let is_db : db ≡ db' = ap (λ x. x.1) old in
        let (same, replayed) = prior_good q (ap (λ x. x.ok) is_o ∙ good) in
        unfold IsRecorded in
        (
          q,
          ap (prior_request r (some u)) (sym is_db) ∙ e,
          sym (ap (λ x. x.code) (sym is_o ∙ replayed)),
          sym (ap (λ x. x.fields) (sym is_o ∙ replayed)),
          same,
        )
    | inl e ↦
        let (x, d, saved, rest) = ran digest now r db h (rw keyed e) in
        let same =
          saved_requests (r.body (context_of now r)) db (quiet.requests (context_of now r) db)
            saved in
        record_request-IsRecorded x d (prior_request_same r (some u) db d same ∙ e)
          (recorded_good x d rest good)
  ]

  -- A request with a key that succeeded is answered with its first result when it comes again, at
  -- whatever time, and writes nothing but what the second reconciliation writes, when that one
  -- meets no backlog. The body may not record a request itself.
  pub run_once_again :
      (now later : ℕ) (db : Db) {o : Outcome} {db' : Db} {summary : List ℕ} {d : Db}
      → IsQuiet r.body
      → run_once digest true now r db ≡ (ok o, db')
      → o.ok ≡ true
      → reconcile later r.actor none db' ≡ (ok summary, d)
      → run_once digest true later r db' ≡ (ok (replay o.code o.fields), d)
  unfolding IsRecorded
  run_once_again now later db {o} {db'} {summary} {d} quiet h good again =
      let first_run : answer digest now r (reconcile now r.actor none db).1 ≡ (ok o, db') =
        unfold run_once in ground (arith, h, good) in
      let found = recorded now (reconcile now r.actor none db).1 quiet first_run good in
      let (q, is_q, code, fields, same) = found in
      let same_rows : d.requests ≡ db'.requests =
        ap (λ x. x.1.requests) (sym again) ∙ reconcile-requests later r.actor none db' in
      let old = answer_old later d q (prior_request_same r (some u) db' d same_rows ∙ is_q) in
      let answered : answer_prior digest r q ≡ replay o.code o.fields =
        ground (arith, same, code, fields) in
      unfold run_once in ground (arith, again, old, answered)
