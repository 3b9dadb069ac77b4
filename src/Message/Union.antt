-- ===== src/Message/Union.antt =====
-- The union of the content structs (union zdtm_spec_type_content, src/zdtm_msgs.h). A constructor
-- is the member that was stored last; `zeroed` is a union that memset filled with zeros, which reads
-- as zeros through every member. Reading another member than the one stored is not modelled: it is
-- `none`.
use lib_zdtm_sync.Prelude.{Option, none, some, replicate}
use lib_zdtm_sync.Contents.{
  Aay, Aig, Amg, Atg, Ang, Adi, Adr, Asy, Adw, Rrl, Rmg, Rms, Rts, Rdi, Rsy, Rss, Rdr, Rdd, Rds,
  Rqt, Rlr, Rge, Rdw, one,
}

pub data Content : Type 0 where
  zeroed : Content
  aay : Aay → Content
  aig : Aig → Content
  amg : Amg → Content
  atg : Atg → Content
  ang : Ang → Content
  adi : Adi → Content
  adr : Adr → Content
  asy : Asy → Content
  adw : Adw → Content
  rrl : Rrl → Content
  rmg : Rmg → Content
  rms : Rms → Content
  rts : Rts → Content
  rdi : Rdi → Content
  rsy : Rsy → Content
  rss : Rss → Content
  rdr : Rdr → Content
  rdd : Rdd → Content
  rds : Rds → Content
  rqt : Rqt → Content
  rlr : Rlr → Content
  rge : Rge → Content
  rdw : Rdw → Content

abbrev pub as_aay : Content → Option Aay
as_aay zeroed = some (record { uk_data_0 = replicate 3 0 })
as_aay (aay c) = some c
as_aay _ = none

abbrev pub as_aig : Content → Option Aig
as_aig zeroed = some (record {
  model_str_len = 0;
  model_str = none;
  uk_data_0 = replicate 5 0;
  language = replicate 2 0;
  auth_state = 0;
  uk_data_1 = replicate 6 0;
})
as_aig (aig c) = some c
as_aig _ = none

abbrev pub as_amg : Content → Option Amg
as_amg zeroed = some (record { sl = replicate 2 0; fullsync_flags = 0; uk = replicate 46 0 })
as_amg (amg c) = some c
as_amg _ = none

abbrev pub as_atg : Content → Option Atg
as_atg zeroed = some (record {
  year = replicate 4 0;
  month = replicate 2 0;
  day = replicate 2 0;
  hour = replicate 2 0;
  minutes = replicate 2 0;
  seconds = replicate 2 0;
})
as_atg (atg c) = some c
as_atg _ = none

abbrev pub as_ang : Content → Option Ang
as_ang zeroed = some (record { uk_data_0 = 0 })
as_ang (ang c) = some c
as_ang _ = none

abbrev pub as_adi : Content → Option Adi
as_adi zeroed = some (record { num_cards = 0; num_params = 0; uk_data_0 = 0; params = none })
as_adi (adi c) = some c
as_adi _ = none

abbrev pub as_adr : Content → Option Adr
as_adr zeroed = some (record { uk = replicate 2 0; num_params = 0; params = none })
as_adr (adr c) = some c
as_adr _ = none

abbrev pub as_asy : Content → Option Asy
as_asy zeroed = some (record {
  new_list_id = 0;
  num_new_sync_ids = 0;
  new_sync_ids = none;
  mod_list_id = 0;
  num_mod_sync_ids = 0;
  mod_sync_ids = none;
  del_list_id = 0;
  num_del_sync_ids = 0;
  del_sync_ids = none;
})
as_asy (asy c) = some c
as_asy _ = none

abbrev pub as_adw : Content → Option Adw
as_adw zeroed = some (record { uk = replicate 4 0; num_sync_ids = 0; sync_id = 0 })
as_adw (adw c) = some c
as_adw _ = none

abbrev pub as_rrl : Content → Option Rrl
as_rrl zeroed = some (record { pw_size = 0; pw = none })
as_rrl (rrl c) = some c
as_rrl _ = none

abbrev pub as_rmg : Content → Option Rmg
as_rmg zeroed = some (record { uk = 0; sync_type = 0 })
as_rmg (rmg c) = some c
as_rmg _ = none

abbrev pub as_rms : Content → Option Rms
as_rms zeroed = some (record { log_size = 0; log = replicate 38 0 })
as_rms (rms c) = some c
as_rms _ = none

abbrev pub as_rts : Content → Option Rts
as_rts zeroed = some (record { date = replicate 14 0 })
as_rts (rts c) = some c
as_rts _ = none

abbrev pub as_rdi : Content → Option Rdi
as_rdi zeroed = some (record { sync_type = 0; uk = 0 })
as_rdi (rdi c) = some c
as_rdi _ = none

abbrev pub as_rsy : Content → Option Rsy
as_rsy zeroed = some (record { sync_type = 0; uk = 0 })
as_rsy (rsy c) = some c
as_rsy _ = none

abbrev pub as_rss : Content → Option Rss
as_rss zeroed = some (record { uk_1 = 0; sync_type = 0; uk_2 = 0 })
as_rss (rss c) = some c
as_rss _ = none

abbrev pub as_rdr : Content → Option Rdr
as_rdr zeroed = some (record { sync_type = 0; num_sync_ids = 0; sync_id = 0 })
as_rdr (rdr c) = some c
as_rdr _ = none

abbrev pub as_rdd : Content → Option Rdd
as_rdd zeroed = some (record { sync_type = 0; num_sync_ids = 0; sync_id = 0 })
as_rdd (rdd c) = some c
as_rdd _ = none

abbrev pub as_rds : Content → Option Rds
as_rds zeroed = some (record { sync_type = 0; status = 0; null_bytes = replicate 2 0 })
as_rds (rds c) = some c
as_rds _ = none

abbrev pub as_rqt : Content → Option Rqt
as_rqt zeroed = some (record { null_bytes = replicate 3 0 })
as_rqt (rqt c) = some c
as_rqt _ = none

abbrev pub as_rlr : Content → Option Rlr
as_rlr zeroed = some (record { sync_type = 0 })
as_rlr (rlr c) = some c
as_rlr _ = none

abbrev pub as_rge : Content → Option Rge
as_rge zeroed = some (record { path_len = 0; path = none })
as_rge (rge c) = some c
as_rge _ = none

abbrev pub as_rdw : Content → Option Rdw
as_rdw zeroed = some (record {
  sync_type = 0;
  num_sync_ids = 0;
  sync_id = 0;
  variation = 0;
  vars = one (replicate 16 0);
  todo = record {
    attribute = 0;
    creation_date = replicate 5 0;
    modification_date = replicate 5 0;
    sync_id = 0;
    category_len = 0;
    category = none;
    start_date = replicate 5 0;
    due_date = replicate 5 0;
    completed_date = replicate 5 0;
    progress = 0;
    priority = 0;
    description_len = 0;
    description = none;
    notes_len = 0;
    notes = none;
  };
})
as_rdw (rdw c) = some c
as_rdw _ = none
