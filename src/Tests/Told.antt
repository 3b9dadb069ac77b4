-- ===== src/Tests/Told.antt =====
-- What the device says gets to the caller and into the environment, on the simulated host.
use lib_zdtm_sync.Prelude.{ℕ, ◌≡◌, refl, some, List, [], ◌∷◌, replicate, arith}
use lib_zdtm_sync.Prelude.Int.{pos}
use lib_zdtm_sync.Bytes.{little}
use lib_zdtm_sync.Run.{ok, fault}
use lib_zdtm_sync.Env.{Env, State}
use lib_zdtm_sync.Env.Valid.{IsEnv, IsFormat}
use lib_zdtm_sync.Platform.{Platform, Tm}
use lib_zdtm_sync.Contents.{Atg}
use lib_zdtm_sync.Replies.Kinds.{aig, asy}
use lib_zdtm_sync.Replies.Asy.Lists.{IdList}
use lib_zdtm_sync.Replies.Adi.Texts.{Text}
use lib_zdtm_sync.Proto.Session.{obtain_device_info}
use lib_zdtm_sync.Proto.Talk.{Cover, IsCover, Connected, says}
use lib_zdtm_sync.Proto.Told.{with_info, obtain_device_info-aig, obtain_device_info-long}
use lib_zdtm_sync.Sync.Lists.{obtain_sync_id_lists}
use lib_zdtm_sync.Sync.Told.{given, obtain_sync_id_lists-asy}
use lib_zdtm_sync.Sync.Greeting.{Reachable}
use lib_zdtm_sync.Sync.Steps.{Info, Clock}
use lib_zdtm_sync.Sync.Handshake.{Answers, AreAnswers, IsFresh}
use lib_zdtm_sync.Tests.Host.{
  World, host, whole, start_env, first_seven, last_six, first_seven-uncommon, host-AllocatesExactly,
  host-NeverFull, host-LogsApart, host-ReadsStream,
}

-- A host with a clock.
abbrev new_year : Tm
new_year = record {
  year = pos 107;
  mon = pos 0;
  mday = pos 1;
  hour = pos 0;
  min = pos 0;
  sec = pos 0;
  isdst = pos 0;
}

abbrev pub clock : Platform World
clock = record (host little whole) {
  localtime_r = λ t w. (some new_year, w);
  format_time = λ tm. some (14, replicate 15 b'0');
}

abbrev pub begin : Env → List ℕ → State World
begin env b = record { env = env; sys = record { incoming = b; outgoing = [] }; blocks = 0 }

abbrev pub fresh_env : Env
fresh_env = record start_env { sync_type = 6; zaurus_ip = replicate 16 1 }

fresh_env-IsEnv : IsEnv fresh_env
unfolding IsEnv IsFormat
fresh_env-IsEnv = ground arith

abbrev pub cover : Cover
cover = record { start = first_seven; tail = last_six; check_sum = 500 }

pub cover-IsCover : IsCover cover
cover-IsCover = record {
  start_size = refl;
  tail_size = refl;
  check_sum_size = omega arith;
  uncommon = first_seven-uncommon;
}

pub clock-Connected : Connected clock (λ w. w.incoming) fresh_env
clock-Connected = record {
  exact = record { size = (host-AllocatesExactly little whole).size };
  stream = record {
    piece = (host-ReadsStream little whole (pos 4)).piece;
    ended = (host-ReadsStream little whole (pos 4)).ended;
  };
  undisturbed = record {
    full = record { allocated = (host-NeverFull little whole).allocated };
    kept = λ n w. refl;
    logs = record {
      prints = record {
        within = (host-LogsApart little whole).prints.within;
        stored = (host-LogsApart little whole).prints.stored;
      };
      written = λ fp b w. refl;
      flushed = λ fp w. refl;
    };
  };
  takes_all = record { accepted = λ b w. refl };
  rounds = omega arith;
  apart = λ b w. refl;
}

-- Three lists of two ids, one id and none.
abbrev new : IdList
new = record { list_id = 0; sync_ids = 7 ∷ 70000 ∷ [] }

abbrev modified : IdList
modified = record { list_id = 1; sync_ids = 9 ∷ [] }

abbrev deleted : IdList
deleted = record { list_id = 2; sync_ids = [] }

obtain_sync_id_lists-asy_example :
    (w : World) × (obtain_sync_id_lists clock
        (begin fresh_env (says cover (asy new modified deleted) []))
      ≡ ok
          (pos 0, some (given new modified deleted))
          (record (begin fresh_env []) { sys = w; blocks = 6 }))
    × (w.incoming ≡ [])
obtain_sync_id_lists-asy_example =
    obtain_sync_id_lists-asy clock (λ w. w.incoming) new modified deleted cover []
      (begin fresh_env (says cover (asy new modified deleted) [])) clock-Connected
      (
        (omega arith, (omega arith, (omega arith, tt))),
        (omega arith, (omega arith, tt)),
        (omega arith, tt),
        omega arith,
      )
      cover-IsCover refl

abbrev texts : List Text
texts =
    record { abrev = b'S' ∷ b'Y' ∷ b'I' ∷ b'D' ∷ []; type_id = 0x12; desc = b'I' ∷ b'D' ∷ [] } ∷ []

abbrev model : List ℕ
model = b'S' ∷ b'L' ∷ []

abbrev info : Info
info = record {
  model = model;
  uk_0 = replicate 5 0;
  language = b'e' ∷ b'n' ∷ [];
  auth_state = 0;
  uk_1 = replicate 6 0;
}

obtain_device_info-aig_example :
    (w : World) × (obtain_device_info clock (
        begin fresh_env
          (says cover (aig model (replicate 5 0) (b'e' ∷ b'n' ∷ []) 0 (replicate 6 0)) []))
      ≡ ok
          (pos 0)
          (record { env = with_info model (b'e' ∷ b'n' ∷ []) 0 fresh_env; sys = w; blocks = 1 }))
    × (w.incoming ≡ [])
obtain_device_info-aig_example =
    obtain_device_info-aig clock (λ w. w.incoming) model (replicate 5 0) (b'e' ∷ b'n' ∷ []) 0
      (replicate 6 0) cover []
      (begin fresh_env
        (says cover (aig model (replicate 5 0) (b'e' ∷ b'n' ∷ []) 0 (replicate 6 0)) []))
      clock-Connected fresh_env-IsEnv (omega arith) (omega arith, refl, refl, refl) cover-IsCover
      refl

obtain_device_info-long_example :
    obtain_device_info clock (
      begin fresh_env (
        says cover (aig (replicate 256 1) (replicate 5 0) (b'e' ∷ b'n' ∷ []) 0 (replicate 6 0)) []))
    ≡ fault
obtain_device_info-long_example =
    obtain_device_info-long clock (λ w. w.incoming) (replicate 256 1) (replicate 5 0)
      (b'e' ∷ b'n' ∷ []) 0 (replicate 6 0) cover []
      (begin fresh_env (
        says cover (aig (replicate 256 1) (replicate 5 0) (b'e' ∷ b'n' ∷ []) 0 (replicate 6 0)) []))
      clock-Connected fresh_env-IsEnv (omega arith) (omega arith, refl, refl, refl) cover-IsCover
      refl

-- A device that has a state for each kind of item.
abbrev pub date : Atg
date = record {
  year = replicate 4 b'2';
  month = replicate 2 b'1';
  day = replicate 2 b'1';
  hour = replicate 2 b'1';
  minutes = replicate 2 b'1';
  seconds = replicate 2 b'1';
}

abbrev pub answers : Answers
answers = record {
  greeting = replicate 3 0;
  first = info;
  second = info;
  sl = 1 ∷ 6 ∷ [];
  flags = 7;
  state_uk = replicate 46 0;
  date = date;
  cards = 5;
  format_uk = 0;
  params = texts;
  cover = λ n. cover;
}

pub answers-AreAnswers : AreAnswers answers
answers-AreAnswers = record {
  greeting_fits = refl;
  first_fits = (omega arith, refl, refl, refl);
  first_short = omega arith;
  no_passcode = refl;
  second_fits = (omega arith, refl, refl, refl);
  second_short = omega arith;
  state_fits = (refl, refl);
  date_fits = (refl, refl, refl, refl, refl, refl);
  format_fits = (omega arith, omega arith, (refl, omega arith, tt), omega arith);
  params_short = (omega arith, tt);
  covered = λ n. cover-IsCover;
}

pub fresh_env-IsFresh : IsFresh fresh_env
fresh_env-IsFresh = record {
  valid = fresh_env-IsEnv;
  has_type = refl;
  has_address = refl;
  no_info = refl;
  no_format = refl;
}

pub clock-Reachable : Reachable clock (λ w. w.incoming) fresh_env (pos 3) (pos 4)
clock-Reachable = record {
  address = replicate 4 0;
  opened = λ w. refl;
  is_socket = refl;
  resolved = λ w. refl;
  reached = λ w. refl;
  accepted = λ w. refl;
  is_connection = refl;
  takes_all = record { accepted = λ b w. refl };
  socket_apart = λ w. refl;
  address_apart = λ w. refl;
  connect_apart = λ w. refl;
  send_apart = λ b w. refl;
  accept_apart = λ w. refl;
}

pub clock-Clock : Clock clock (λ w. w.incoming) date
clock-Clock = record {
  last = pos 0;
  now = pos 0;
  tm = new_year;
  size = 14;
  digits = replicate 14 b'0';
  nul = b'0' ∷ [];
  known = λ w. refl;
  valid = refl;
  told = λ w. refl;
  local = λ w. refl;
  written = refl;
  fits = refl;
  mktime_apart = λ w. refl;
  time_apart = λ w. refl;
  local_apart = λ w. refl;
}
