-- ===== src/Requests/Kinds.antt =====
-- An independent description of what the desktop says: the kinds of request, the message that the
-- code builds for each, and the content that goes over the wire, in little-endian order.
use lib_zdtm_sync.Prelude.{ℕ, ◌-◌, ◌≤◌, ◌<◌, ◌≡◌, some, List, [], ◌∷◌, ◌++◌, length, replicate}
use lib_zdtm_sync.Bytes.{Endian, little, big, mem16, mem32}
use lib_zdtm_sync.Message
use lib_zdtm_sync.Message.{Content, Msg, new_msg, zeroed}

pub data Request : Type 0 where
  ray rig rtg : Request
  rrl : (password : List ℕ) → Request
  rmg : (uk sync_type : ℕ) → Request
  rms : (log : List ℕ) → Request
  rts : (date : List ℕ) → Request
  rdi : (sync_type uk : ℕ) → Request
  rsy : (sync_type uk : ℕ) → Request
  rss : (uk_1 sync_type uk_2 : ℕ) → Request
  rdr : (sync_type num sync_id : ℕ) → Request
  rdd : (sync_type num sync_id : ℕ) → Request
  rds : (sync_type status : ℕ) (null_bytes : List ℕ) → Request
  rqt : (null_bytes : List ℕ) → Request
  rlr : (sync_type : ℕ) → Request
  rge : (path : List ℕ) → Request

-- The lengths that the arrays of the structs and the size fields allow.
abbrev pub IsSendable : Request → Type 0
IsSendable (rrl password) = length password < 256
IsSendable (rms log) = length log ≤ 38
IsSendable (rts date) = length date ≡ 14
IsSendable (rds sync_type status null_bytes) = length null_bytes ≡ 2
IsSendable (rqt null_bytes) = length null_bytes ≡ 3
IsSendable (rge path) = length path < 65531
IsSendable _ = Unit

-- The kinds that a host of a byte order writes in little-endian order. A big-endian host does not
-- convert a path length, and converts a sync id wrongly.
abbrev pub IsPortable : Endian → Request → Type 0
IsPortable little r = Unit
IsPortable big (rdr sync_type num sync_id) = ⊥
IsPortable big (rdd sync_type num sync_id) = ⊥
IsPortable big (rge path) = ⊥
IsPortable big r = Unit

-- The type and the content struct, and the message that holds them.
abbrev pub type_of : Request → List ℕ
type_of ray = Message.ray_msg_type
type_of rig = Message.rig_msg_type
type_of rtg = Message.rtg_msg_type
type_of (rrl password) = Message.rrl_msg_type
type_of (rmg uk sync_type) = Message.rmg_msg_type
type_of (rms log) = Message.rms_msg_type
type_of (rts date) = Message.rts_msg_type
type_of (rdi sync_type uk) = Message.rdi_msg_type
type_of (rsy sync_type uk) = Message.rsy_msg_type
type_of (rss uk_1 sync_type uk_2) = Message.rss_msg_type
type_of (rdr sync_type num sync_id) = Message.rdr_msg_type
type_of (rdd sync_type num sync_id) = Message.rdd_msg_type
type_of (rds sync_type status null_bytes) = Message.rds_msg_type
type_of (rqt null_bytes) = Message.rqt_msg_type
type_of (rlr sync_type) = Message.rlr_msg_type
type_of (rge path) = Message.rge_msg_type

abbrev pub content_of : Request → Content
content_of ray = zeroed
content_of rig = zeroed
content_of rtg = zeroed
content_of (rrl password) = (Message.rrl (record { pw_size = length password; pw = some password }))
content_of (rmg uk sync_type) = (Message.rmg (record { uk = uk; sync_type = sync_type }))
content_of (rms log) =
    (Message.rms (record { log_size = length log; log = log ++ replicate (38 - length log) 0 }))
content_of (rts date) = (Message.rts (record { date = date }))
content_of (rdi sync_type uk) = (Message.rdi (record { sync_type = sync_type; uk = uk }))
content_of (rsy sync_type uk) = (Message.rsy (record { sync_type = sync_type; uk = uk }))
content_of (rss uk_1 sync_type uk_2) =
    (Message.rss (record { uk_1 = uk_1; sync_type = sync_type; uk_2 = uk_2 }))
content_of (rdr sync_type num sync_id) =
    (Message.rdr (record { sync_type = sync_type; num_sync_ids = num; sync_id = sync_id }))
content_of (rdd sync_type num sync_id) =
    (Message.rdd (record { sync_type = sync_type; num_sync_ids = num; sync_id = sync_id }))
content_of (rds sync_type status null_bytes) =
    (Message.rds (record { sync_type = sync_type; status = status; null_bytes = null_bytes }))
content_of (rqt null_bytes) = (Message.rqt (record { null_bytes = null_bytes }))
content_of (rlr sync_type) = (Message.rlr (record { sync_type = sync_type }))
content_of (rge path) = (Message.rge (record { path_len = length path; path = some path }))

abbrev pub message_of : Request → Msg
message_of r = new_msg (type_of r) (content_of r)

-- The content of the message on the wire.
unfoldable pub encode : Request → List ℕ
encode (rrl password) = length password ∷ password
encode (rmg uk sync_type) = uk ∷ sync_type ∷ []
encode (rms log) = mem16 little (length log) ++ (log ++ replicate (38 - length log) 0)
encode (rts date) = date
encode (rdi sync_type uk) = sync_type ∷ uk ∷ []
encode (rsy sync_type uk) = sync_type ∷ uk ∷ []
encode (rss uk_1 sync_type uk_2) = uk_1 ∷ sync_type ∷ uk_2 ∷ []
encode (rdr sync_type num sync_id) = sync_type ∷ (mem16 little num ++ mem32 little sync_id)
encode (rdd sync_type num sync_id) = sync_type ∷ (mem16 little num ++ mem32 little sync_id)
encode (rds sync_type status null_bytes) = sync_type ∷ status ∷ null_bytes
encode (rqt null_bytes) = null_bytes
encode (rlr sync_type) = sync_type ∷ []
encode (rge path) = mem16 little (length path) ++ path
encode _ = []
