-- ===== src/Tests/Environment.antt =====
-- The environment through calls of the public interface on the simulated host.
use lib_zdtm_sync.Prelude.{◌≡◌, ◌≢◌, true, refl, [], ◌∷◌, none, some, arith}
use lib_zdtm_sync.Prelude.Int.{pos}
use lib_zdtm_sync.Run.{Returns}
use lib_zdtm_sync.Bytes.{little}
use lib_zdtm_sync.Env.{Env, State}
use lib_zdtm_sync.Env.Valid.{IsFormat, IsEnv}
use lib_zdtm_sync.Platform.{Platform}
use lib_zdtm_sync.Log.{open_log}
use lib_zdtm_sync.Net.{listen_for_zaurus}
use lib_zdtm_sync.Sync.{initialize, set_sync_type, finalize}
use lib_zdtm_sync.Sync.Calls.{sync_type, initiate, perform, Reached, started, called}
use lib_zdtm_sync.Sync.Documented.{call, retvals, invoke, invoke-documented}
use lib_zdtm_sync.Sync.Finalize.{owned, Freed, finalize-Freed}
use lib_zdtm_sync.Sync.Session.{perform-IsEnv, Reached-IsEnv}
use lib_zdtm_sync.Tests.Host.{World, host, whole, start, start_env}

-- A host where the log can be opened.
abbrev logged : Platform World
logged = record (host little whole) {
  getenv_home = λ w. (some (b'/' ∷ []), w);
  fopen = λ path w. (some 5, w);
}

abbrev opened : Env
opened = record start_env { logfp = some 5 }

-- A state with an environment.
abbrev within : Env → State World
within env = record (start []) { env = env; blocks = 4 }

opened-IsEnv : IsEnv opened
unfolding IsEnv IsFormat
opened-IsEnv = ground arith

perform-IsEnv_example : IsEnv (record opened { sync_type = 7 })
unfolding perform set_sync_type
perform-IsEnv_example =
    perform-IsEnv logged (sync_type 2) (within opened) (within (record opened { sync_type = 7 }))
      (pos 0) refl opened-IsEnv

opened-Reached : Reached logged (within start_env) (within opened)
unfolding initialize open_log listen_for_zaurus
opened-Reached = started refl

typed-Reached : Reached logged (within start_env) (within (record opened { sync_type = 6 }))
unfolding perform set_sync_type
typed-Reached = called (sync_type 0) (pos 0) opened-Reached refl

Reached-IsEnv_example : IsEnv (record opened { sync_type = 6 })
Reached-IsEnv_example =
    Reached-IsEnv logged (within start_env) (within (record opened { sync_type = 6 })) typed-Reached
      refl refl

abbrev described : Env
described = record opened {
  num_params = 2;
  params = some (
      record {
        abrev = b'S' ∷ b'Y' ∷ b'I' ∷ b'D' ∷ [];
        type_id = 0x12;
        desc_len = 1;
        desc = some (b'x' ∷ []);
      }
      ∷ record { abrev = b'A' ∷ b'T' ∷ b'T' ∷ b'R' ∷ []; type_id = 6; desc_len = 0; desc = none }
      ∷ []);
  passcode = some (b'1' ∷ []);
}

described-IsEnv : IsEnv described
unfolding IsEnv IsFormat
described-IsEnv = ground arith

finalize-Freed_example : Returns (Freed (within described)) (finalize logged (within described))
unfolding owned
finalize-Freed_example = finalize-Freed logged (within described) described-IsEnv (omega arith)

not_initiate : call (sync_type 2) ≢ call initiate
not_initiate e = ground arith

invoke-documented_example : retvals (call (sync_type 2)) (pos 0) ≡ true
unfolding perform set_sync_type invoke
invoke-documented_example =
    invoke-documented logged (call (sync_type 2)) (within opened)
      (within (record opened { sync_type = 7 })) (pos 0) not_initiate opened-IsEnv refl
