-- ===== src/Replies/Kinds.antt =====
-- An independent description of what the device says: the kinds of reply, the content that goes over
-- the wire, in little-endian order, and the struct that holds it.
use lib_zdtm_sync.Prelude.{
  ℕ, ◌+◌, ◌*◌, ◌<◌, ◌≤◌, ◌≡◌, refl, Option, none, some, List, [], ◌∷◌, ◌++◌, map, length,
  length-append, arith,
}
use lib_zdtm_sync.Bytes.{Endian, little, big, mem16, mem32}
use lib_zdtm_sync.Replies.Asy.Lists
use lib_zdtm_sync.Replies.Asy.Lists.{IdList, IsList}
use lib_zdtm_sync.Replies.Adi.{sizeof_format_param}
use lib_zdtm_sync.Replies.Adi.Texts
use lib_zdtm_sync.Replies.Adi.Texts.{Text, AreTexts}
use lib_zdtm_sync.Replies.Adr.{sizeof_data_param}
use lib_zdtm_sync.Replies.Adr.Params
use lib_zdtm_sync.Replies.Adr.Params.{FitsSizes}
use lib_zdtm_sync.Message
use lib_zdtm_sync.Message.{
  Content, zeroed, aay_msg_type, aig_msg_type, amg_msg_type, atg_msg_type, aex_msg_type,
  ang_msg_type, adi_msg_type, asy_msg_type, adr_msg_type, adw_msg_type,
}

pub data Reply : Type 0 where
  aay : (uk : List ℕ) → Reply
  aig : (model uk_0 language : List ℕ) (auth_state : ℕ) (uk_1 : List ℕ) → Reply
  amg : (sl : List ℕ) (flags : ℕ) (uk : List ℕ) → Reply
  atg : (year month day hour minutes seconds : List ℕ) → Reply
  aex : Reply
  ang : (uk : ℕ) → Reply
  adi : (num_cards uk : ℕ) (params : List Text) → Reply
  asy : (new modified deleted : IdList) → Reply
  adr : (uk : List ℕ) (params : List (List ℕ)) → Reply
  adw : (uk : List ℕ) (num_sync_ids sync_id : ℕ) → Reply

-- The content on the wire, in little-endian order.
abbrev pub encode : Reply → List ℕ
encode (aay uk) = uk
encode (aig model uk_0 language auth_state uk_1) =
    mem16 little (length model) ++ (model ++ (uk_0 ++ (language ++ (auth_state ∷ uk_1))))
encode (amg sl flags uk) = sl ++ (flags ∷ uk)
encode (atg year month day hour minutes seconds) =
    year ++ (month ++ (day ++ (hour ++ (minutes ++ seconds))))
encode aex = []
encode (ang uk) = uk ∷ []
encode (adi num_cards uk params) =
    mem32 little num_cards ++ (mem16 little (length params) ++ (uk ∷ Texts.encode params))
encode (asy new modified deleted) =
    Lists.encode new ++ (Lists.encode modified ++ Lists.encode deleted)
encode (adr uk params) = uk ++ (mem16 little (length params) ++ Params.encode params)
encode (adw uk num_sync_ids sync_id) = uk ++ (mem16 little num_sync_ids ++ mem32 little sync_id)

-- The lengths of the arrays and the ranges of the numbers. The content fits the body size.
abbrev pub IsReply : Reply → Type 0
IsReply (aay uk) = length uk ≡ 3
IsReply (aig model uk_0 language auth_state uk_1) =
    (length model ≤ 65516) × (length uk_0 ≡ 5) × (length language ≡ 2) × (length uk_1 ≡ 6)
IsReply (amg sl flags uk) = (length sl ≡ 2) × (length uk ≡ 46)
IsReply (atg year month day hour minutes seconds) =
    (length year ≡ 4)
    × (length month ≡ 2)
    × (length day ≡ 2)
    × (length hour ≡ 2)
    × (length minutes ≡ 2)
    × (length seconds ≡ 2)
IsReply aex = Unit
IsReply (ang uk) = Unit
IsReply (adi num_cards uk params) =
    (num_cards < 4294967296)
    × (length params < 65536)
    × AreTexts params
    × (length (Texts.encode params) ≤ 65525)
IsReply (asy new modified deleted) =
    IsList new
    × IsList modified
    × IsList deleted
    × (length (encode (asy new modified deleted)) ≤ 65532)
IsReply (adr uk params) =
    (length uk ≡ 2)
    × (length params < 65536)
    × FitsSizes params
    × (length (Params.encode params) ≤ 65528)
IsReply (adw uk num_sync_ids sync_id) =
    (length uk ≡ 4) × (num_sync_ids < 65536) × (sync_id < 4294967296)

-- A big-endian host reads neither the number of sync ids of an ADW message nor the number of
-- parameters of an ADR message.
abbrev pub IsReadable : Endian → Reply → Type 0
IsReadable little r = Unit
IsReadable big (adw uk num_sync_ids sync_id) = ⊥
IsReadable big (adr uk params) = ⊥
IsReadable big r = Unit

abbrev pub type_of : Reply → List ℕ
type_of (aay uk) = aay_msg_type
type_of (aig model uk_0 language auth_state uk_1) = aig_msg_type
type_of (amg sl flags uk) = amg_msg_type
type_of (atg year month day hour minutes seconds) = atg_msg_type
type_of aex = aex_msg_type
type_of (ang uk) = ang_msg_type
type_of (adi num_cards uk params) = adi_msg_type
type_of (asy new modified deleted) = asy_msg_type
type_of (adr uk params) = adr_msg_type
type_of (adw uk num_sync_ids sync_id) = adw_msg_type

-- The struct that holds it.
abbrev pub content_of : Reply → Content
content_of (aay uk) = Message.aay (record { uk_data_0 = uk })
content_of (aig model uk_0 language auth_state uk_1) = Message.aig (record {
  model_str_len = length model;
  model_str = some model;
  uk_data_0 = uk_0;
  language = language;
  auth_state = auth_state;
  uk_data_1 = uk_1;
})
content_of (amg sl flags uk) = Message.amg (record { sl = sl; fullsync_flags = flags; uk = uk })
content_of (atg year month day hour minutes seconds) = Message.atg (record {
  year = year;
  month = month;
  day = day;
  hour = hour;
  minutes = minutes;
  seconds = seconds;
})
content_of aex = zeroed
content_of (ang uk) = Message.ang (record { uk_data_0 = uk })
content_of (adi num_cards uk params) = Message.adi (record {
  num_cards = num_cards;
  num_params = length params;
  uk_data_0 = uk;
  params = some (map Texts.param params);
})
content_of (asy new modified deleted) = Message.asy (record {
  new_list_id = new.list_id;
  num_new_sync_ids = length new.sync_ids;
  new_sync_ids = some new.sync_ids;
  mod_list_id = modified.list_id;
  num_mod_sync_ids = length modified.sync_ids;
  mod_sync_ids = some modified.sync_ids;
  del_list_id = deleted.list_id;
  num_del_sync_ids = length deleted.sync_ids;
  del_sync_ids = some deleted.sync_ids;
})
content_of (adr uk params) =
    Message.adr
      (record { uk = uk; num_params = length params; params = some (map Params.param params) })
content_of (adw uk num_sync_ids sync_id) =
    Message.adw (record { uk = uk; num_sync_ids = num_sync_ids; sync_id = sync_id })

-- The sizes of the blocks that hold what it points at.
abbrev pub rooms : Reply → List ℕ
rooms (aig model uk_0 language auth_state uk_1) = length model ∷ []
rooms (adi num_cards uk params) = length params * sizeof_format_param ∷ Texts.rooms params
rooms (asy new modified deleted) =
    4 * length new.sync_ids ∷ 4 * length modified.sync_ids ∷ 4 * length deleted.sync_ids ∷ []
rooms (adr uk params) = length params * sizeof_data_param ∷ map length params
rooms _ = []

-- The raw content of the message, which is NULL where there is none.
abbrev pub raw_content : Reply → Option (List ℕ)
raw_content aex = none
raw_content r = some (encode r)

-- The number of blocks of a received reply.
abbrev pub held : Reply → ℕ
held aex = 0
held r = 1 + length (rooms r)

-- A type has three bytes, and a content fits the body size.
pub length-type_of : (r : Reply) → length (type_of r) ≡ 3
length-type_of (aay uk) = refl
length-type_of (aig model uk_0 language auth_state uk_1) = refl
length-type_of (amg sl flags uk) = refl
length-type_of (atg year month day hour minutes seconds) = refl
length-type_of aex = refl
length-type_of (ang uk) = refl
length-type_of (adi num_cards uk params) = refl
length-type_of (asy new modified deleted) = refl
length-type_of (adr uk params) = refl
length-type_of (adw uk num_sync_ids sync_id) = refl

pub length-encode : (r : Reply) → IsReply r → length (encode r) ≤ 65532
length-encode (aay uk) h = omega arith
length-encode (aig model uk_0 language auth_state uk_1) (hm, h0, hl, h1) =
    let a = length-append language (auth_state ∷ uk_1) in
    let b = length-append uk_0 (language ++ (auth_state ∷ uk_1)) in
    let c = length-append model (uk_0 ++ (language ++ (auth_state ∷ uk_1))) in omega arith
length-encode (amg sl flags uk) (h, k) = let size = length-append sl (flags ∷ uk) in omega arith
length-encode (atg year month day hour minutes seconds) (hy, hm, hd, hh, hn, hs) =
    let a = length-append minutes seconds in
    let b = length-append hour (minutes ++ seconds) in
    let c = length-append day (hour ++ (minutes ++ seconds)) in
    let d = length-append month (day ++ (hour ++ (minutes ++ seconds))) in
    let e = length-append year (month ++ (day ++ (hour ++ (minutes ++ seconds)))) in omega arith
length-encode aex h = omega arith
length-encode (ang uk) h = omega arith
length-encode (adi num_cards uk params) (hc, hn, ht, size) = omega arith
length-encode (asy new modified deleted) (hn, hm, hd, size) = size
length-encode (adr uk params) (h, hn, hp, size) =
    let whole = length-append uk (mem16 little (length params) ++ Params.encode params) in
    omega arith
length-encode (adw uk num_sync_ids sync_id) (h, k, i) =
    let size = length-append uk (mem16 little num_sync_ids ++ mem32 little sync_id) in omega arith

-- What holds of a reply with a content.
pub record HasContent (r : Reply) : Type 0 where
  pub raw : raw_content r ≡ some (encode r)
  pub blocks : held r ≡ 1 + length (rooms r)
  pub some_bytes : IsReply r → 0 < length (encode r)

-- Every reply but AEX has one.
pub content-cases {ℓ} :
    (P : Reply → Type ℓ) → P aex → ((r : Reply) → HasContent r → P r) → (r : Reply) → P r
content-cases P a f (aay uk) =
    f (aay uk) (record { raw = refl; blocks = refl; some_bytes = λ h. omega arith })
content-cases P a f (aig model uk_0 language auth_state uk_1) =
    f (aig model uk_0 language auth_state uk_1)
      (record { raw = refl; blocks = refl; some_bytes = λ h. omega arith })
content-cases P a f (amg sl flags uk) = f (amg sl flags uk) (record {
  raw = refl;
  blocks = refl;
  some_bytes = λ h. omega (arith, length-append sl (flags ∷ uk));
})
content-cases P a f (atg year month day hour minutes seconds) =
    f (atg year month day hour minutes seconds) (record {
      raw = refl;
      blocks = refl;
      some_bytes =
          λ h. omega (arith, length-append year (month ++ (day ++ (hour ++ (minutes ++ seconds)))));
    })
content-cases P a f (ang uk) =
    f (ang uk) (record { raw = refl; blocks = refl; some_bytes = λ h. omega arith })
content-cases P a f (adi num_cards uk params) =
    f (adi num_cards uk params)
      (record { raw = refl; blocks = refl; some_bytes = λ h. omega arith })
content-cases P a f (asy new modified deleted) =
    f (asy new modified deleted)
      (record { raw = refl; blocks = refl; some_bytes = λ h. omega arith })
content-cases P a f (adr uk params) = f (adr uk params) (record {
  raw = refl;
  blocks = refl;
  some_bytes =
      λ h. omega (arith, length-append uk (mem16 little (length params) ++ Params.encode params));
})
content-cases P a f (adw uk num_sync_ids sync_id) = f (adw uk num_sync_ids sync_id) (record {
  raw = refl;
  blocks = refl;
  some_bytes =
      λ h. omega (arith, length-append uk (mem16 little num_sync_ids ++ mem32 little sync_id));
})
content-cases P a f aex = a
