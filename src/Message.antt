-- ===== src/Message.antt =====
-- A message (struct zdtm_message and its union, src/zdtm_msgs.h), its type codes (the *_MSG_TYPE
-- constants and IS_* macros of src/zdtm_*_msg.[ch]) and the memory that it owns.
mod Union
pub use Union.*
use lib_zdtm_sync.Prelude.{
  ℕ, ◌+◌, ◌%◌, Bool, Option, none, some, List, [], ◌∷◌, same_bytes, replicate,
}
use lib_zdtm_sync.Run.{M, ok, pure, ◌>>=◌}
use lib_zdtm_sync.Env.{State, free}

pub record Msg : Type 0 where
  pub header : List ℕ
  pub mtype : List ℕ
  pub raw_content : Option (List ℕ)
  pub cont : Content
  pub body_size : ℕ
  pub check_sum : ℕ
  pub cont_size : ℕ

-- MSG_HDR_SIZE, MSG_TYPE_SIZE and COM_MSG_SIZE
abbrev pub msg_hdr_size : ℕ
msg_hdr_size = 13

abbrev pub msg_type_size : ℕ
msg_type_size = 3

abbrev pub com_msg_size : ℕ
com_msg_size = 7

-- `memset(&msg, 0, sizeof(zdtm_msg))`
abbrev pub zero_msg : Msg
zero_msg = record {
  header = replicate msg_hdr_size 0;
  mtype = 0 ∷ 0 ∷ 0 ∷ [];
  raw_content = none;
  cont = zeroed;
  body_size = 0;
  check_sum = 0;
  cont_size = 0;
}

-- A zeroed message that is given a type and a member of the union.
abbrev pub new_msg : List ℕ → Content → Msg
new_msg t c = record zero_msg { mtype = t; cont = c }

abbrev pub letters : ℕ → ℕ → ℕ → List ℕ
letters a b c = a ∷ b ∷ c ∷ []

-- The `memcmp` of a message's type with a constant.
abbrev pub is : List ℕ → Msg → Bool
is t msg = same_bytes msg.mtype t

abbrev pub aay_msg_type : List ℕ
aay_msg_type = letters b'A' b'A' b'Y'

abbrev pub aig_msg_type : List ℕ
aig_msg_type = letters b'A' b'I' b'G'

abbrev pub amg_msg_type : List ℕ
amg_msg_type = letters b'A' b'M' b'G'

abbrev pub atg_msg_type : List ℕ
atg_msg_type = letters b'A' b'T' b'G'

abbrev pub aex_msg_type : List ℕ
aex_msg_type = letters b'A' b'E' b'X'

abbrev pub ang_msg_type : List ℕ
ang_msg_type = letters b'A' b'N' b'G'

abbrev pub adi_msg_type : List ℕ
adi_msg_type = letters b'A' b'D' b'I'

abbrev pub asy_msg_type : List ℕ
asy_msg_type = letters b'A' b'S' b'Y'

abbrev pub adr_msg_type : List ℕ
adr_msg_type = letters b'A' b'D' b'R'

abbrev pub adw_msg_type : List ℕ
adw_msg_type = letters b'A' b'D' b'W'

abbrev pub ray_msg_type : List ℕ
ray_msg_type = letters b'R' b'A' b'Y'

abbrev pub rig_msg_type : List ℕ
rig_msg_type = letters b'R' b'I' b'G'

abbrev pub rrl_msg_type : List ℕ
rrl_msg_type = letters b'R' b'R' b'L'

abbrev pub rmg_msg_type : List ℕ
rmg_msg_type = letters b'R' b'M' b'G'

abbrev pub rms_msg_type : List ℕ
rms_msg_type = letters b'R' b'M' b'S'

abbrev pub rtg_msg_type : List ℕ
rtg_msg_type = letters b'R' b'T' b'G'

abbrev pub rts_msg_type : List ℕ
rts_msg_type = letters b'R' b'T' b'S'

abbrev pub rdi_msg_type : List ℕ
rdi_msg_type = letters b'R' b'D' b'I'

abbrev pub rsy_msg_type : List ℕ
rsy_msg_type = letters b'R' b'S' b'Y'

abbrev pub rss_msg_type : List ℕ
rss_msg_type = letters b'R' b'S' b'S'

abbrev pub rdr_msg_type : List ℕ
rdr_msg_type = letters b'R' b'D' b'R'

abbrev pub rdw_msg_type : List ℕ
rdw_msg_type = letters b'R' b'D' b'W'

abbrev pub rdd_msg_type : List ℕ
rdd_msg_type = letters b'R' b'D' b'D'

abbrev pub rds_msg_type : List ℕ
rds_msg_type = letters b'R' b'D' b'S'

abbrev pub rqt_msg_type : List ℕ
rqt_msg_type = letters b'R' b'Q' b'T'

abbrev pub rlr_msg_type : List ℕ
rlr_msg_type = letters b'R' b'L' b'R'

abbrev pub rge_msg_type : List ℕ
rge_msg_type = letters b'R' b'G' b'E'
