-- ===== src/Proto/Time.antt =====
-- The time of the last synchronization (_zdtm_obtain_last_time_synced and
-- _zdtm_set_last_time_synced of src/zdtm_proto.c).
use lib_zdtm_sync.Prelude.{ℕ, none, some, Bool, false, ◌&&◌, List, not}
use lib_zdtm_sync.Prelude.Int.{ℤ, pos, negsuc, nonzero, ◌+ℤ◌, ◌-ℤ◌}
use lib_zdtm_sync.Run.{M, pure, defined, ◌>>=◌, ◌>>◌, return_if}
use lib_zdtm_sync.Env.{State, call}
use lib_zdtm_sync.Platform.{Platform, Tm}
use lib_zdtm_sync.Contents.{Atg}
use lib_zdtm_sync.Requests.{read, rts_date_len}
use lib_zdtm_sync.Message
use lib_zdtm_sync.Message.{
  Msg, new_msg, zeroed, as_atg, rtg_msg_type, atg_msg_type, rts_msg_type, aex_msg_type,
}
use lib_zdtm_sync.Msgs.{clean_message}
use lib_zdtm_sync.Proto.{reply, refused, ask}

-- `rmsg.body.cont.atg.year == 0`, where `year` is an array: it compares the array's address, which is
-- not NULL.
abbrev pub array_is_null : List ℕ → Bool
array_is_null bytes = false

abbrev pub looks_unset : Atg → Bool
looks_unset atg =
    array_is_null atg.year
    && (array_is_null atg.month
        && (array_is_null atg.day
            && (array_is_null atg.hour
                && (array_is_null atg.minutes && array_is_null atg.seconds))))

module _ {W : Type 0} (p : Platform W) where
  abbrev pub broken_down : Atg → Tm
  broken_down atg = record {
    year = p.atoi atg.year -ℤ pos 1900;
    mon = p.atoi atg.month -ℤ pos 1;
    mday = p.atoi atg.day;
    hour = p.atoi atg.hour;
    min = p.atoi atg.minutes;
    sec = p.atoi atg.seconds;
    isdst = negsuc 0;
  }

  -- `mktime` returned -1
  abbrev pub minus_one : ℤ → Bool
  minus_one t = not (nonzero (t +ℤ pos 1))

  -- With the reply at hand.
  unfoldable pub use_time : ℤ → Msg → Atg → M (State W) (ℤ × ℤ)
  use_time p_time rmsg atg = do
    return_if (looks_unset atg) (do _ ← clean_message rmsg; pure (pos 1, p_time))
    last ← call (p.mktime (broken_down atg))
    return_if (minus_one last) (do _ ← clean_message rmsg; pure (negsuc 3, p_time))
    _ ← clean_message rmsg
    pure (pos 0, last)

  -- With the time that `p_time` points at, before and after.
  unfoldable pub obtain_last_time_synced : ℤ → M (State W) (ℤ × ℤ)
  obtain_last_time_synced p_time = do
    answer ← ask p 0 (new_msg rtg_msg_type zeroed) atg_msg_type
    elim answer [
      | refused r ↦ pure (r, p_time)
      | reply rmsg ↦ do atg ← defined (as_atg rmsg.cont); use_time p_time rmsg atg
    ]

  unfoldable pub set_last_time_synced : ℤ → M (State W) ℤ
  set_last_time_synced time_synced = do
    brkdwn ← call (p.localtime_r time_synced)
    elim brkdwn [
      | none ↦ pure (negsuc 0)
      | some tm ↦
          elim (p.format_time (record tm { year = tm.year +ℤ pos 1900; mon = tm.mon +ℤ pos 1 })) [
            | none ↦ pure (negsuc 1)
            | some (_, msg_data) ↦ do
              date ← defined (read rts_date_len msg_data)
              answer ←
                  ask p 2 (new_msg rts_msg_type (Message.rts (record { date = date }))) aex_msg_type
              elim answer [
                | refused r ↦ pure r
                | reply rmsg ↦ do _ ← clean_message rmsg; pure (pos 0)
              ]
          ]
    ]
