-- ===== src/Models/Account.antt =====
-- core/models/user.py and the roster row of core/models/identity.py, in the columns that decide
-- what an account may do.
use room_reserve.Prelude.{ℕ, Bool, true, false, ◌&&◌, Option, String, is_some}

pub data Eligibility : Type 0 where
  pending approved rejected : Eligibility

abbrev pub is_approved_eligibility : Eligibility → Bool
is_approved_eligibility Eligibility.approved = true
is_approved_eligibility _ = false

abbrev pub is_pending_eligibility : Eligibility → Bool
is_pending_eligibility Eligibility.pending = true
is_pending_eligibility _ = false

-- `InstrumentCategory`
pub data InstrumentCategory : Type 0 where
  piano percussion strings woodwind brass voice guitar harp other unknown : InstrumentCategory

abbrev pub category_code : InstrumentCategory → ℕ
category_code InstrumentCategory.piano = 0
category_code InstrumentCategory.percussion = 1
category_code InstrumentCategory.strings = 2
category_code InstrumentCategory.woodwind = 3
category_code InstrumentCategory.brass = 4
category_code InstrumentCategory.voice = 5
category_code InstrumentCategory.guitar = 6
category_code InstrumentCategory.harp = 7
category_code InstrumentCategory.other = 8
category_code InstrumentCategory.unknown = 9

-- A blank `declared_category` is `none`; the email address is stored stripped and in lower case.
pub record User : Type 0 where
  pub id : ℕ
  pub email : String
  pub locale : String
  pub is_active : Bool
  pub is_superuser : Bool
  pub is_operational_staff : Bool
  pub is_teacher : Bool
  pub email_verified_at : Option ℕ
  pub eligibility : Eligibility
  pub eligibility_reason : String
  pub declared_category : Option InstrumentCategory
  pub declared_category_confirmed : Bool

abbrev pub email_is_verified : User → Bool
email_is_verified u = is_some u.email_verified_at

abbrev pub is_approved : User → Bool
is_approved u = is_approved_eligibility u.eligibility && u.is_active

-- `EligibleStudent`
pub record EligibleStudent : Type 0 where
  pub account : Option ℕ
  pub instrument_category : InstrumentCategory
  pub is_active : Bool
