-- ===== src/Tests/Data.antt =====
-- One student, one member of staff, two rooms, and a Monday morning.
use room_reserve.Prelude.{ℕ, ◌+◌, ◌-◌, ◌*◌, true, false, none, some, [], ◌∷◌}
use room_reserve.Settings.{hour, day, default_settings}
use room_reserve.Models.Account.{User, Eligibility}
use room_reserve.Models.Room.{Room, ReservationScope}
use room_reserve.Models.Operations.{Fields}
use room_reserve.Models.Db.{Db}
use room_reserve.Slots.{bangkok_offset}
use room_reserve.Bookings.{Context}
use room_reserve.Action.{Result, ok, err}

abbrev pub student : User
student = record {
  id = 1;
  email = "student@example.org";
  locale = "";
  is_active = true;
  is_superuser = false;
  is_operational_staff = false;
  is_teacher = false;
  email_verified_at = some 1;
  eligibility = Eligibility.approved;
  eligibility_reason = "";
  declared_category = none;
  declared_category_confirmed = false;
}

abbrev pub staff : User
staff = record student { id = 2; is_operational_staff = true }

abbrev pub piano_room : Room
piano_room = record {
  id = 7;
  number = "501";
  label = "Room 501";
  requires_approval = false;
  availability_only = false;
  is_active = true;
  reservation_scope = ReservationScope.everyone;
  members_only = false;
}

abbrev pub other_room : Room
other_room = record piano_room { id = 8; number = "502"; label = "Room 502" }

abbrev pub approval_room : Room
approval_room = record piano_room { id = 9; number = "503"; requires_approval = true }

-- A Monday, and the instants of its local hours.
abbrev pub monday : ℕ
monday = 737996

abbrev pub at_hour : ℕ → ℕ
at_hour h = monday * day + h * hour - bangkok_offset

abbrev pub empty_db : Db
empty_db = record {
  settings = default_settings;
  wall = at_hour 8 + 1;
  users = student ∷ staff ∷ [];
  roster = [];
  rooms = piano_room ∷ other_room ∷ approval_room ∷ [];
  allowed_categories = [];
  members = [];
  closures = [];
  next_closure = 1;
  overrides = [];
  next_override = 1;
  weekly_blocks = [];
  incidents = [];
  next_incident = 1;
  policies = [];
  bookings = [];
  next_booking = 1;
  series = [];
  violations = [];
  next_violation = 1;
  suspensions = [];
  next_suspension = 1;
  outbox = [];
  next_notification = 1;
  audits = [];
  requests = [];
  heartbeats = [];
}

abbrev pub context_at : ℕ → User → Context
context_at now u = record { now = now; actor = some u; payload = [] }

-- The fields that a run returned, if it did.
abbrev pub fields_of : Result Fields → Fields
fields_of (ok fields) = fields
fields_of (err e) = []
