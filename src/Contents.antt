-- ===== src/Contents.antt =====
-- The content structs of the messages (src/zdtm_*_msg.h) and of a todo item (src/zdtm_common.h).
-- An array of the struct is the list of its bytes, of the array's length.
use lib_zdtm_sync.Prelude.{ℕ, Option, List}
use lib_zdtm_sync.Env.{FormatParam}

-- struct zdtm_todo_item
pub record TodoItem : Type 0 where
  pub attribute : ℕ
  pub creation_date : List ℕ
  pub modification_date : List ℕ
  pub sync_id : ℕ
  pub category_len : ℕ
  pub category : Option (List ℕ)
  pub start_date : List ℕ
  pub due_date : List ℕ
  pub completed_date : List ℕ
  pub progress : ℕ
  pub priority : ℕ
  pub description_len : ℕ
  pub description : Option (List ℕ)
  pub notes_len : ℕ
  pub notes : Option (List ℕ)

-- Messages of the Zaurus.
pub record Aay : Type 0 where
  pub uk_data_0 : List ℕ

pub record Aig : Type 0 where
  pub model_str_len : ℕ
  pub model_str : Option (List ℕ)
  pub uk_data_0 : List ℕ
  pub language : List ℕ
  pub auth_state : ℕ
  pub uk_data_1 : List ℕ

pub record Amg : Type 0 where
  pub sl : List ℕ
  pub fullsync_flags : ℕ
  pub uk : List ℕ

pub record Atg : Type 0 where
  pub year : List ℕ
  pub month : List ℕ
  pub day : List ℕ
  pub hour : List ℕ
  pub minutes : List ℕ
  pub seconds : List ℕ

pub record Ang : Type 0 where
  pub uk_data_0 : ℕ

pub record Adi : Type 0 where
  pub num_cards : ℕ
  pub num_params : ℕ
  pub uk_data_0 : ℕ
  pub params : Option (List FormatParam)

-- struct zdtm_adr_msg_param
pub record DataParam : Type 0 where
  pub param_len : ℕ
  pub param_data : Option (List ℕ)

pub record Adr : Type 0 where
  pub uk : List ℕ
  pub num_params : ℕ
  pub params : Option (List DataParam)

pub record Asy : Type 0 where
  pub new_list_id : ℕ
  pub num_new_sync_ids : ℕ
  pub new_sync_ids : Option (List ℕ)
  pub mod_list_id : ℕ
  pub num_mod_sync_ids : ℕ
  pub mod_sync_ids : Option (List ℕ)
  pub del_list_id : ℕ
  pub num_del_sync_ids : ℕ
  pub del_sync_ids : Option (List ℕ)

pub record Adw : Type 0 where
  pub uk : List ℕ
  pub num_sync_ids : ℕ
  pub sync_id : ℕ

-- Messages of the desktop.
pub record Rrl : Type 0 where
  pub pw_size : ℕ
  pub pw : Option (List ℕ)

pub record Rmg : Type 0 where
  pub uk : ℕ
  pub sync_type : ℕ

pub record Rms : Type 0 where
  pub log_size : ℕ
  pub log : List ℕ

pub record Rts : Type 0 where
  pub date : List ℕ

pub record Rdi : Type 0 where
  pub sync_type : ℕ
  pub uk : ℕ

pub record Rsy : Type 0 where
  pub sync_type : ℕ
  pub uk : ℕ

pub record Rss : Type 0 where
  pub uk_1 : ℕ
  pub sync_type : ℕ
  pub uk_2 : ℕ

pub record Rdr : Type 0 where
  pub sync_type : ℕ
  pub num_sync_ids : ℕ
  pub sync_id : ℕ

pub record Rdd : Type 0 where
  pub sync_type : ℕ
  pub num_sync_ids : ℕ
  pub sync_id : ℕ

pub record Rds : Type 0 where
  pub sync_type : ℕ
  pub status : ℕ
  pub null_bytes : List ℕ

pub record Rqt : Type 0 where
  pub null_bytes : List ℕ

pub record Rlr : Type 0 where
  pub sync_type : ℕ

pub record Rge : Type 0 where
  pub path_len : ℕ
  pub path : Option (List ℕ)

-- union zdtm_rdw_variations
pub data Variation : Type 0 where
  one : (padding : List ℕ) → Variation
  two : (attribute : ℕ) → Variation
  three : (attribute : ℕ) (created modified : List ℕ) (sync_id : ℕ) → Variation

pub record Rdw : Type 0 where
  pub sync_type : ℕ
  pub num_sync_ids : ℕ
  pub sync_id : ℕ
  pub variation : ℕ
  pub vars : Variation
  pub todo : TodoItem
