-- ===== src/Reconcile/Sanctioned.antt =====
-- After a reconciliation, strikes enough for a suspension come with one in force.
use room_reserve.Prelude.Count
use room_reserve.Models.Db.{Db}
