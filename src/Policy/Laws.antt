-- ===== src/Policy/Laws.antt =====
-- The active version is the newest one, reading it twice reads the same, and a version that was
-- created is valid, newest and later than all others.
use room_reserve.Prelude.{
  ◌≤◌, ◌<◌, ◌≡◌, refl, ap, ◌⊎◌, inl, inr, true, false, Option, none, some, List, [], ◌∷◌, ◌++◌, All,
  arith, Bool-cases, is_none, if◌then◌else◌,
}
use room_reserve.Prelude.Count
use room_reserve.Models.Policy.{PolicyVersion, Snapshot}
use room_reserve.Models.Db.{Db}
use room_reserve.Policy.{
  latest, newer, policy_or_initial, policy_of, with_policy, create_policy_version, validate, merge,
  is_sane, next_version, snapshot_from_settings,
}

-- The table that `with_policy` leaves.
abbrev settled : Db → List PolicyVersion → List PolicyVersion
settled db ps = if is_none (latest ps) then policy_or_initial db.settings (latest ps) ∷ [] else ps

settled-latest :
    (db : Db) (ps : List PolicyVersion)
    → policy_or_initial db.settings (latest (settled db ps))
      ≡ policy_or_initial db.settings (latest ps)
unfolding latest
settled-latest db [] = refl
settled-latest db (p ∷ ps) = refl

settled_again : (db : Db) (ps : List PolicyVersion) → settled db (settled db ps) ≡ settled db ps
unfolding latest
settled_again db [] = refl
settled_again db (p ∷ ps) = refl

-- Once the version is written, reading it again gives the same version.
pub policy_of-with_policy : (db : Db) → policy_of (with_policy db) ≡ policy_of db
unfolding policy_of with_policy
policy_of-with_policy db = settled-latest db db.policies

-- And it writes nothing more.
pub with_policy_again : (db : Db) → with_policy (with_policy db) ≡ with_policy db
unfolding policy_of with_policy
with_policy_again db = ap (λ ps. record db { policies = ps }) (settled_again db db.policies)

latest-append_above :
    (ps : List PolicyVersion) (p : PolicyVersion)
    → All (λ q. q.version < p.version) ps
    → latest (ps ++ (p ∷ [])) ≡ some p
unfolding latest
latest-append_above [] p a = refl
latest-append_above (q ∷ qs) p a = rw (latest-append_above qs p a.1) (ground arith)

next_version_mono :
    (q : PolicyVersion) (o : Option PolicyVersion)
    → (q.version < next_version (some (newer q o)))
      × (next_version o ≤ next_version (some (newer q o)))
next_version_mono q none = (omega arith, omega arith)
next_version_mono q (some m) = (ground arith, ground arith)

latest_above : (ps : List PolicyVersion) → All (λ q. q.version < next_version (latest ps)) ps
unfolding latest
latest_above [] = tt
latest_above (q ∷ qs) =
    let (here, there) = next_version_mono q (latest qs) in
    (
      here,
      Count.All-map (λ x. x.version < next_version (latest qs))
          (λ x. x.version < next_version (some (newer q (latest qs)))) (λ x h. omega arith) qs
          (latest_above qs),
    )

-- What staff may submit is bounded: a new version is refused exactly when a merged value is out of
-- its bounds or the merged e-mail domain is empty or has an at sign, and otherwise it carries the merged values, is above every older version, and is the
-- version in force from then on.
pub create_policy_version_lem :
    (s : Snapshot) (db : Db)
    → ((create_policy_version s db ≡ none)
        × (is_sane (merge s (snapshot_from_settings db.settings)) ≡ false))
      ⊎ ((p : PolicyVersion) × (db' : Db) × (create_policy_version s db ≡ some (p, db'))
          × (p.snapshot ≡ merge s (snapshot_from_settings db.settings))
          × (is_sane p.snapshot ≡ true)
          × All (λ q. q.version < p.version) db.policies
          × (policy_of db' ≡ p))
unfolding create_policy_version validate policy_of
create_policy_version_lem s db =
    elim (Bool-cases (is_sane (merge s (snapshot_from_settings db.settings)))) [
      | inl sane ↦
          let p : PolicyVersion = record {
            version = next_version (latest db.policies);
            snapshot = merge s (snapshot_from_settings db.settings);
          } in
          let above : All (λ q. q.version < p.version) db.policies = latest_above db.policies in
          inr (
            p,
            record db { policies = db.policies ++ (p ∷ []) },
            rw (sane, create_policy_version, validate),
            refl,
            sane,
            above,
            rw (latest-append_above db.policies p above),
          )
      | inr wild ↦ inl (rw (wild, create_policy_version, validate), wild)
    ]
