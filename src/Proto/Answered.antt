-- ===== src/Proto/Answered.antt =====
-- What the operations of src/zdtm_proto.c make of the state, the date and the acknowledgement that
-- they ask for.
use lib_zdtm_sync.Prelude.{ℕ, ◌≡◌, ap, ◌∙◌, arith, false, some, List, ◌++◌, length}
use lib_zdtm_sync.Prelude.Int.{ℤ, pos, ◌+ℤ◌}
use lib_zdtm_sync.Run.{ok, ◌>>=◌, split_front}
use lib_zdtm_sync.Env.{State}
use lib_zdtm_sync.Platform.{Platform, Tm}
use lib_zdtm_sync.Contents.{Atg}
use lib_zdtm_sync.Requests.Kinds.{rss, rtg, rts, rmg}
use lib_zdtm_sync.Replies.Kinds.{aex, amg, atg, IsReply}
use lib_zdtm_sync.Msgs.{clean_message}
use lib_zdtm_sync.Proto.Session.{
  set_slow_sync, reset_slow_sync, obtain_sync_state, reset_sync_state,
}
use lib_zdtm_sync.Proto.Time.{
  broken_down, minus_one, use_time, obtain_last_time_synced, set_last_time_synced,
}
use lib_zdtm_sync.Proto.Talk.{Cover, IsCover, Connected, says, portable, readable, ask-says}

module _ {W : Type 0} (p : Platform W) where
  pub obtain_sync_state-says :
      (pending : W → List ℕ) (sl : List ℕ) (flags : ℕ) (uk : List ℕ) (c : Cover) (rest : List ℕ)
      (s : State W)
      → Connected p pending s.env
      → IsReply (amg sl flags uk)
      → IsCover c
      → pending s.sys ≡ says c (amg sl flags uk) rest
      → (w : W) × (obtain_sync_state p s
          ≡ ok (pos 0) (record s { env = set_slow_sync flags s.env; sys = w }))
        × (pending w ≡ rest)
  unfolding obtain_sync_state clean_message
  obtain_sync_state-says pending sl flags uk c rest s k h i e =
      let q = rmg 0x01 s.env.sync_type in
      let r = amg sl flags uk in
      let (w, got, left) =
        ask-says p pending 0 q r c rest s k tt (portable q tt p.order) h (readable r tt p.order) i
          e in
      (
        w,
        rw (got, obtain_sync_state, ◌>>=◌)
            (ap
              (λ n. ok (pos 0) (record s { env = set_slow_sync flags s.env; sys = w; blocks = n }))
              (omega arith)),
        left,
      )

  pub reset_sync_state-says :
      (pending : W → List ℕ) (c : Cover) (rest : List ℕ) (s : State W)
      → Connected p pending s.env
      → IsCover c
      → pending s.sys ≡ says c aex rest
      → (w : W) × (reset_sync_state p s
          ≡ ok (pos 0) (record s { env = reset_slow_sync s.env; sys = w }))
        × (pending w ≡ rest)
  unfolding reset_sync_state clean_message
  reset_sync_state-says pending c rest s k i e =
      let q = rss 0x01 s.env.sync_type 0x01 in
      let (w, got, left) =
        ask-says p pending 0 q aex c rest s k tt (portable q tt p.order) tt
          (readable aex tt p.order) i e in
      (
        w,
        rw (got, reset_sync_state, ◌>>=◌)
            (ap (λ n. ok (pos 0) (record s { env = reset_slow_sync s.env; sys = w; blocks = n }))
              (omega arith)),
        left,
      )

  -- The date is broken down, and mktime makes a time of it.
  pub obtain_last_time_synced-says :
      (pending : W → List ℕ) (date : Atg) (last : ℤ) (c : Cover) (rest : List ℕ) (p_time : ℤ)
      (s : State W)
      → Connected p pending s.env
      → IsReply (atg date.year date.month date.day date.hour date.minutes date.seconds)
      → IsCover c
      → ((w : W) → (p.mktime (broken_down p date) w).0 ≡ last)
      → minus_one p last ≡ false
      → ((w : W) → pending (p.mktime (broken_down p date) w).1 ≡ pending w)
      → pending s.sys
        ≡ says c (atg date.year date.month date.day date.hour date.minutes date.seconds) rest
      → (w : W) × (obtain_last_time_synced p p_time s ≡ ok (pos 0, last) (record s { sys = w }))
        × (pending w ≡ rest)
  unfolding obtain_last_time_synced use_time clean_message
  obtain_last_time_synced-says pending date last c rest p_time s k h i known valid apart e =
      let r = atg date.year date.month date.day date.hour date.minutes date.seconds in
      let (v, got, left) =
        ask-says p pending 0 rtg r c rest s k tt (portable rtg tt p.order) h (readable r tt p.order)
          i e in
      (
        (p.mktime (broken_down p date) v).1,
        rw (got, known v, valid, obtain_last_time_synced, use_time, ◌>>=◌)
            (ap
              (λ n.
                ok (pos 0, last)
                  (record s { sys = (p.mktime (broken_down p date) v).1; blocks = n }))
              (omega arith)),
        apart v ∙ left,
      )

  -- The time is broken down and written out in fourteen digits, which go to the device.
  pub set_last_time_synced-says :
      (pending : W → List ℕ) (time : ℤ) (tm : Tm) (size : ℕ) (date nul : List ℕ) (c : Cover)
      (rest : List ℕ) (s : State W)
      → Connected p pending s.env
      → IsCover c
      → ((w : W) → (p.localtime_r time w).0 ≡ some tm)
      → ((w : W) → pending (p.localtime_r time w).1 ≡ pending w)
      → p.format_time (record tm { year = tm.year +ℤ pos 1900; mon = tm.mon +ℤ pos 1 })
        ≡ some (size, date ++ nul)
      → length date ≡ 14
      → pending s.sys ≡ says c aex rest
      → (w : W) × (set_last_time_synced p time s ≡ ok (pos 0) (record s { sys = w }))
        × (pending w ≡ rest)
  unfolding set_last_time_synced clean_message
  set_last_time_synced-says pending time tm size date nul c rest s k i local apart written fits e =
      let q = rts date in
      let v = (p.localtime_r time s.sys).1 in
      let (w, got, left) =
        ask-says p pending 2 q aex c rest (record s { sys = v }) k fits (portable q tt p.order) tt
          (readable aex tt p.order) i (apart s.sys ∙ e) in
      (
        w,
        rw (local s.sys, written, split_front 14 date nul fits, got, set_last_time_synced, ◌>>=◌)
            (ap (λ n. ok (pos 0) (record s { sys = w; blocks = n })) (omega arith)),
        left,
      )
