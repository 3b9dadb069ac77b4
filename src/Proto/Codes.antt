-- ===== src/Proto/Codes.antt =====
-- What _zdtm_obtain_last_time_synced and _zdtm_obtain_item return.
use lib_zdtm_sync.Prelude.{ℕ, ◌+◌, ◌≡◌, ◌⊎◌, refl, ap, true, inl, inr, none, some}
use lib_zdtm_sync.Prelude.Int.{ℤ, pos, negsuc, negative}
use lib_zdtm_sync.Run.{Ends, Ends-bind, M, pure, defined, return_if, ◌>>=◌, ◌>>◌}
use lib_zdtm_sync.Env.{State, call}
use lib_zdtm_sync.Platform.{Platform}
use lib_zdtm_sync.Message.{Msg, new_msg, zeroed, as_atg, rtg_msg_type, atg_msg_type}
use lib_zdtm_sync.Contents.{Atg}
use lib_zdtm_sync.Msgs.{clean_message}
use lib_zdtm_sync.Proto.{Answer, reply, refused, ask}
use lib_zdtm_sync.Proto.Reply.{IsAnswer, ask-IsAnswer, guarded, cleaned}
use lib_zdtm_sync.Proto.Time.{
  obtain_last_time_synced, use_time, looks_unset, broken_down, minus_one,
}

-- A code of a failure, or 0.
abbrev pub IsCode : ℤ → Type 0
IsCode r = (negative r ≡ true) ⊎ (r ≡ pos 0)

abbrev pub HasCode : {S : Type 0} → ℤ × ℤ → S → Type 0
HasCode (r, last) s = IsCode r

refused-IsCode :
    (base : ℕ) (r : ℤ)
    → (r ≡ negsuc base) ⊎ ((r ≡ negsuc (base + 1)) ⊎ (r ≡ negsuc (base + 2)))
    → IsCode r
refused-IsCode base r (inl e) = inl (ap negative e)
refused-IsCode base r (inr (inl e)) = inl (ap negative e)
refused-IsCode base r (inr (inr e)) = inl (ap negative e)

module _ {W : Type 0} (p : Platform W) where
  timed :
      (rmsg : Msg) (p_time : ℤ) (atg : Atg) (s : State W)
      → Ends HasCode (
          (call (p.mktime (broken_down p atg)) >>= λ last.
          return_if (minus_one p last) (clean_message rmsg >>= λ _. pure (negsuc 3, p_time))
          >> (clean_message rmsg >>= λ _. pure (pos 0, last)))
            s)
  timed rmsg p_time atg s =
      let last = (p.mktime (broken_down p atg) s.sys).0 in
      let t : State W = record s { sys = (p.mktime (broken_down p atg) s.sys).1 } in
      guarded p HasCode (minus_one p last) (clean_message rmsg >>= λ _. pure (negsuc 3, p_time))
        (clean_message rmsg >>= λ _. pure (pos 0, last)) t
        (λ _. cleaned p HasCode rmsg (negsuc 3, p_time) t (λ _. inl refl))
        (λ _. cleaned p HasCode rmsg (pos 0, last) t (λ _. inr refl))

  answered :
      (a : Answer) (p_time : ℤ) (s : State W)
      → IsAnswer 0 atg_msg_type a
      → Ends HasCode (
          elim a as (λ _. M (State W) (ℤ × ℤ)) [
            | refused r ↦ pure (r, p_time)
            | reply rmsg ↦ defined (as_atg rmsg.cont) >>= λ atg.
                return_if (looks_unset atg) (clean_message rmsg >>= λ _. pure (pos 1, p_time))
                >> (call (p.mktime (broken_down p atg)) >>= λ last.
                    return_if
                      (minus_one p last)
                      (clean_message rmsg >>= λ _. pure (negsuc 3, p_time))
                    >> (clean_message rmsg >>= λ _. pure (pos 0, last)))
          ]
            s)
  answered (refused r) p_time s h = refused-IsCode 0 r h
  answered (reply rmsg) p_time s h =
      elim (as_atg rmsg.cont)
        as (λ c. Ends HasCode (
          (defined c >>= λ atg.
          return_if (looks_unset atg) (clean_message rmsg >>= λ _. pure (pos 1, p_time))
          >> (call (p.mktime (broken_down p atg)) >>= λ last.
              return_if (minus_one p last) (clean_message rmsg >>= λ _. pure (negsuc 3, p_time))
              >> (clean_message rmsg >>= λ _. pure (pos 0, last))))
            s)) [ none ↦ tt | some atg ↦ timed rmsg p_time atg s ]

  -- Whatever the device answers, when the time of the last synchronization is obtained the result is
  -- 0 or negative. The result 1 that the function documents for a device that was never synchronized
  -- does not occur.
  pub obtain_last_time_synced-IsCode :
      (p_time : ℤ) (s : State W) → Ends HasCode (obtain_last_time_synced p p_time s)
  unfolding obtain_last_time_synced use_time
  obtain_last_time_synced-IsCode p_time s =
      Ends-bind (λ a _. IsAnswer 0 atg_msg_type a) HasCode
        (ask p 0 (new_msg rtg_msg_type zeroed) atg_msg_type) _ s
        (ask-IsAnswer p 0 (new_msg rtg_msg_type zeroed) atg_msg_type s)
        (λ a t h. answered a p_time t h)
