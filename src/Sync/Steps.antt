-- ===== src/Sync/Steps.antt =====
-- The steps of the handshake (zdtm_initiate_sync of src/zdtm_sync.c) with a device that answers.
use lib_zdtm_sync.Prelude.{
  ℕ, ◌+◌, ◌≤◌, ◌≡◌, refl, ◌∙◌, arith, true, false, ◌==◌, ◌||◌, none, some, List, [], ◌∷◌, ◌++◌, map,
  length, length-append, replicate,
}
use lib_zdtm_sync.Prelude.Int.{ℤ, pos, equals, ◌+ℤ◌}
use lib_zdtm_sync.Run.{M, ok, ◌>>=◌, overlay_front}
use lib_zdtm_sync.Env.{Env, State}
use lib_zdtm_sync.Env.Valid.{IsEnv}
use lib_zdtm_sync.Platform.{Platform, Tm}
use lib_zdtm_sync.Contents.{Atg}
use lib_zdtm_sync.Requests.Length.{read_all}
use lib_zdtm_sync.Replies.Kinds.{Reply, aig, atg, aex, adi, IsReply}
use lib_zdtm_sync.Replies.Adi.Texts.{Text, param}
use lib_zdtm_sync.Proto.Session.{reset_sync_state}
use lib_zdtm_sync.Proto.Time.{broken_down, minus_one}
use lib_zdtm_sync.Proto.Talk.{Cover, IsCover, Connected, says}
use lib_zdtm_sync.Proto.Told.{
  with_format, with_info, obtain_param_format-adi, obtain_device_info-aig,
}
use lib_zdtm_sync.Proto.Answered.{set_last_time_synced-says}
use lib_zdtm_sync.Proto.Valid.{obtain_device_info-IsEnv}
use lib_zdtm_sync.Sync.Initiate.{
  slow_sync_flag, copy_descs, need_device_info, check_cur_auth_state, need_sync_state,
  requires_slow_sync, authenticate, if_slow, record_sync,
}

-- What the device says of itself.
pub record Info : Type 0 where
  pub model : List ℕ
  pub uk_0 : List ℕ
  pub language : List ℕ
  pub auth_state : ℕ
  pub uk_1 : List ℕ

abbrev pub info_reply : Info → Reply
info_reply i = aig i.model i.uk_0 i.language i.auth_state i.uk_1

abbrev pub knowing : Info → Env → Env
knowing i env = with_info i.model i.language i.auth_state env

abbrev pub date_reply : Atg → Reply
date_reply d = atg d.year d.month d.day d.hour d.minutes d.seconds

-- Descriptions that fit the buffer of 256 bytes with their NUL.
abbrev pub AreShort : List Text → Type 0
AreShort [] = Unit
AreShort (x ∷ xs) = (length x.desc ≤ 255) × AreShort xs

copy_descs-short :
    {W : Type 0} (xs : List Text) (s : State W)
    → AreShort xs
    → copy_descs (length xs) (map param xs) s ≡ ok tt s
unfolding copy_descs
copy_descs-short [] s h = refl
copy_descs-short (x ∷ xs) s (h, hs) =
    let size = length-append x.desc (0 ∷ []) in
    rw
      (
        read_all (length x.desc) x.desc refl,
        overlay_front (x.desc ++ (0 ∷ [])) (replicate 256 0) (omega arith),
        copy_descs-short xs s hs,
        copy_descs,
        ◌>>=◌,
      )
      refl

module _ {W : Type 0} (p : Platform W) where
  pub keeps-Connected :
      (pending : W → List ℕ) (env new : Env)
      → new.connfd ≡ env.connfd
      → Connected p pending env
      → Connected p pending new
  keeps-Connected pending env new c k = record {
    exact = k.exact;
    stream = rw c k.stream;
    undisturbed = k.undisturbed;
    takes_all = rw c k.takes_all;
    rounds = k.rounds;
    apart = rw c k.apart;
  }

  -- Where no slow sync is due, a step of one is left out.
  pub if_slow-skips :
      (step : M (State W) ℤ) (s : State W)
      → (s.env.retrieved_sync_state == 0) ≡ false
      → equals (slow_sync_flag s.env) 1 ≡ false
      → if_slow p step s ≡ ok (pos 0) s
  unfolding if_slow requires_slow_sync need_sync_state
  if_slow-skips step s known fast =
      rw (known, fast, if_slow, requires_slow_sync, need_sync_state, ◌>>=◌) refl

  -- A device that asks for no passcode, whose information is not there yet.
  pub authenticate-open :
      (pending : W → List ℕ) (i : Info) (c : Cover) (rest : List ℕ) (s : State W)
      → Connected p pending s.env
      → IsEnv s.env
      → (s.env.retreived_device_info == 0) ≡ true
      → length i.model ≤ 255
      → (i.auth_state == 0x0b || i.auth_state == 0x07) ≡ false
      → IsReply (info_reply i)
      → IsCover c
      → pending s.sys ≡ says c (info_reply i) rest
      → (w : W) × (authenticate p s
          ≡ ok (pos 0) (record s { env = knowing i s.env; sys = w; blocks = s.blocks + 1 }))
        × (pending w ≡ rest)
        × IsEnv (knowing i s.env)
  unfolding authenticate check_cur_auth_state need_device_info
  authenticate-open pending i c rest s k valid unset short open_device h ic e =
      let (w, run, left) =
        obtain_device_info-aig p pending i.model i.uk_0 i.language i.auth_state i.uk_1 c rest s k
          valid short h ic e in
      (
        w,
        rw (unset, run, open_device, authenticate, check_cur_auth_state, need_device_info, ◌>>=◌)
            refl,
        left,
        obtain_device_info-IsEnv p s
            (record s { env = knowing i s.env; sys = w; blocks = s.blocks + 1 }) (pos 0) run valid,
      )

  -- What the clock of the host makes of the date of the last synchronization, and the time of this
  -- one.
  pub record Clock (pending : W → List ℕ) (date : Atg) : Type 0 where
    pub last : ℤ
    pub now : ℤ
    pub tm : Tm
    pub size : ℕ
    pub digits : List ℕ
    pub nul : List ℕ
    pub known : (w : W) → (p.mktime (broken_down p date) w).0 ≡ last
    pub valid : minus_one p last ≡ false
    pub told : (w : W) → (p.time w).0 ≡ now
    pub local : (w : W) → (p.localtime_r now w).0 ≡ some tm
    pub written :
        p.format_time (record tm { year = tm.year +ℤ pos 1900; mon = tm.mon +ℤ pos 1 })
        ≡ some (size, digits ++ nul)
    pub fits : length digits ≡ 14
    pub mktime_apart : (w : W) → pending (p.mktime (broken_down p date) w).1 ≡ pending w
    pub time_apart : (w : W) → pending (p.time w).1 ≡ pending w
    pub local_apart : (w : W) → pending (p.localtime_r now w).1 ≡ pending w

  pub record_sync-answered :
      (pending : W → List ℕ) (date : Atg) (cards uk : ℕ) (params : List Text) (c d : Cover)
      (rest : List ℕ) (s : State W)
      → Connected p pending s.env
      → Clock pending date
      → (s.env.retrieved_sync_state == 0) ≡ false
      → equals (slow_sync_flag s.env) 1 ≡ false
      → s.env.params ≡ none
      → IsReply (adi cards uk params)
      → AreShort params
      → IsCover c
      → IsCover d
      → pending s.sys ≡ says c aex (says d (adi cards uk params) rest)
      → (w : W) × (record_sync p s
          ≡ ok (pos 0) (record s {
            env = with_format params s.env;
            sys = w;
            blocks = s.blocks + 1 + length params;
          }))
        × (pending w ≡ rest)
  unfolding record_sync
  record_sync-answered pending date cards uk params c d rest s k clock known fast unset h short ic
        id e =
      let u = (p.time s.sys).1 in
      let (v, set, left) =
        set_last_time_synced-says p pending clock.now clock.tm clock.size clock.digits clock.nul c
          (says d (adi cards uk params) rest) (record s { sys = u }) k ic clock.local
          clock.local_apart clock.written clock.fits (clock.time_apart s.sys ∙ e) in
      let t : State W = record s { sys = v } in
      let (w, formatted, left') =
        obtain_param_format-adi p pending cards uk params d rest t k unset h id left in
      let end : State W = record s {
        env = with_format params s.env;
        sys = w;
        blocks = s.blocks + 1 + length params;
      } in
      (
        w,
        rw
            (
              clock.told s.sys,
              set,
              if_slow-skips (reset_sync_state p) t known fast,
              formatted,
              copy_descs-short params end short,
              record_sync,
              ◌>>=◌,
            )
            refl,
        left',
      )
