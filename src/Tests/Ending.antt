-- ===== src/Tests/Ending.antt =====
-- The end of a synchronization on the simulated host.
use lib_zdtm_sync.Prelude.{◌≡◌, refl, [], ◌∷◌, ◌++◌}
use lib_zdtm_sync.Prelude.Int.{pos}
use lib_zdtm_sync.Run.{ok}
use lib_zdtm_sync.Msgs.{rqst_message}
use lib_zdtm_sync.Replies.Kinds.{aex}
use lib_zdtm_sync.Proto.Talk.{says}
use lib_zdtm_sync.Sync.Terminate.{terminate_sync}
use lib_zdtm_sync.Sync.Ending.{terminate_sync-completes}
use lib_zdtm_sync.Tests.Host.{World}
use lib_zdtm_sync.Tests.Told.{clock, begin, cover, cover-IsCover, fresh_env, clock-Connected}

-- One byte that the device says later stays.
terminate_sync-completes_example :
    (w : World) × (terminate_sync clock
        (begin fresh_env (says cover aex (rqst_message ++ (9 ∷ []))))
      ≡ ok (pos 0) (record { env = fresh_env; sys = w; blocks = 0 }))
    × (w.incoming ≡ 9 ∷ [])
terminate_sync-completes_example =
    terminate_sync-completes clock (λ w. w.incoming) cover (9 ∷ [])
      (begin fresh_env (says cover aex (rqst_message ++ (9 ∷ [])))) clock-Connected cover-IsCover
      (λ w. refl) (λ w. refl) refl
