-- ===== src/Store/Tables.antt =====
-- internal/store: the rows of the members', questions' and answers' tables.
use piecesoflife.Prelude.{ℕ, String, Bool, true, false, Option, List, ◌==◌}

-- memberships.role
pub data Role : Type 0 where
  admin member : Role

abbrev pub is_admin : Role → Bool
is_admin admin = true
is_admin member = false

pub record User : Type 0 where
  pub id : ℕ
  pub name : String
  pub email : String
  pub avatar_url : Option String
  pub bio : Option String
  pub is_active : Bool
  pub last_group_id : Option ℕ

pub record Membership : Type 0 where
  pub id : ℕ
  pub group_id : ℕ
  pub user_id : ℕ
  pub role : Role
  pub is_active : Bool

pub record NotificationPreferences : Type 0 where
  pub user_id : ℕ
  pub issue_open : Bool
  pub reminders : Bool
  pub published : Bool
  pub comment_notify : Bool

-- questions.source
pub data Source : Type 0 where
  bank friend admin_source default : Source

abbrev pub is_default : Source → Bool
is_default default = true
is_default _ = false

pub record Question : Type 0 where
  pub id : ℕ
  pub issue_id : ℕ
  pub text : String
  pub category : Option String
  pub source : Source
  pub submitted_by : Option ℕ
  pub sort_order : ℕ

pub record QuestionBank : Type 0 where
  pub id : ℕ
  pub group_id : ℕ
  pub text : String
  pub category : String
  pub used : Bool

pub record DefaultQuestion : Type 0 where
  pub id : ℕ
  pub group_id : ℕ
  pub text : String
  pub enabled : Bool
  pub sort_order : ℕ

pub record Response : Type 0 where
  pub id : ℕ
  pub user_id : ℕ
  pub question_id : ℕ
  pub is_draft : Bool
  pub version : ℕ

-- response_blocks.type
pub data BlockType : Type 0 where
  text photo audio video link : BlockType

abbrev pub block_code : BlockType → ℕ
block_code text = 0
block_code photo = 1
block_code audio = 2
block_code video = 3
block_code link = 4

abbrev pub is_block_type : BlockType → BlockType → Bool
is_block_type a b = block_code a == block_code b

pub record ResponseBlock : Type 0 where
  pub id : ℕ
  pub response_id : ℕ
  pub block_type : BlockType
  pub content : Option String
  pub file_path : Option String
  pub caption : Option String
  pub is_covered : Bool
  pub cover_note : Option String
  pub link_url : Option String
  pub sort_order : ℕ
  pub created_at : ℕ

-- The columns of `comments` that the deletion of an answer reads.
pub record Comment : Type 0 where
  pub id : ℕ
  pub response_id : Option ℕ

-- These tables. A `…_seq` field is the last id that AUTOINCREMENT gave out.
pub record Content : Type 0 where
  pub memberships : List Membership
  pub membership_seq : ℕ
  pub preferences : List NotificationPreferences
  pub questions : List Question
  pub question_seq : ℕ
  pub question_bank : List QuestionBank
  pub bank_seq : ℕ
  pub default_questions : List DefaultQuestion
  pub default_seq : ℕ
  pub responses : List Response
  pub response_seq : ℕ
  pub blocks : List ResponseBlock
  pub block_seq : ℕ
  pub comments : List Comment
