-- ===== src/Tests/Host.antt =====
-- A simulated host: one connection with the bytes that are to come and those that were sent, one byte
-- in each call of recv, and a bound on what one call of send takes.
use lib_zdtm_sync.Replies.Kinds
use lib_zdtm_sync.Replies.Kinds.{amg}
use lib_zdtm_sync.Net.Recv.Start.{Common, ack, rqst, abrt, bytes_of}
use lib_zdtm_sync.Prelude.{
  ◌≢◌, drop, ◌==◌, ℕ, ◌<◌, ◌≡◌, refl, sym, ap, ◌∙◌, Bool, true, false, Option, none, some, List, [],
  ◌∷◌, ◌++◌, if◌then◌else◌, length, take, replicate, length-replicate, ltb, arith,
}
use mathlib.Core.Option.{some-injective}
use mathlib.Core.Bool.{true≢false}
use lib_zdtm_sync.Prelude.Int.{ℤ, pos}
use lib_zdtm_sync.Bytes.{Endian}
use lib_zdtm_sync.Env.{Env, State}
use lib_zdtm_sync.Platform.{Platform, AllocatesExactly, NeverFull}
use lib_zdtm_sync.Net.Recv.Stream.{ReadsStream}
use lib_zdtm_sync.Log.Apart.{LogsApart}
use lib_zdtm_sync.Net.Recv.Whole.{Undisturbed}
use lib_zdtm_sync.Net.Send.Wire.{Sends, TakesAll}

pub record World : Type 0 where
  pub incoming : List ℕ
  pub outgoing : List ℕ

abbrev pub receive : World → Option (List ℕ) × World
receive w = elim w.incoming [
  | [] ↦ (some [], w)
  | x ∷ xs ↦ (some (x ∷ []), record w { incoming = xs })
]

-- `bound n` of n bytes are taken by one send.
abbrev pub host : Endian → (ℕ → ℕ) → Platform World
host order bound = record {
  order = order;
  send_rounds = 3;
  malloc = λ n w. (some (replicate n 0), w);
  recv = λ fd n w. receive w;
  send = λ fd b w.
      (some (bound (length b)), record w { outgoing = w.outgoing ++ take (bound (length b)) b });
  socket = λ w. (pos 3, w);
  setsockopt = λ fd w. (pos 0, w);
  bind = λ fd port w. (pos 0, w);
  listen = λ fd n w. (pos 0, w);
  accept = λ fd w. (pos 4, w);
  close = λ fd w. (pos 0, w);
  inet_pton = λ ip w. ((pos 1, replicate 4 0), w);
  connect = λ fd addr port w. (pos 0, w);
  snprintf = λ line n. some (0, []);
  fwrite = λ fp b w. (length b, w);
  fflush = λ fp w. (pos 0, w);
  fclose = λ fp w. (pos 0, w);
  getenv_home = λ w. (none, w);
  fopen = λ path w. (none, w);
  time = λ w. (pos 0, w);
  localtime_r = λ t w. (none, w);
  mktime = λ tm w. (pos 0, w);
  atoi = λ b. pos 0;
  format_time = λ tm. none;
}

abbrev pub whole : ℕ → ℕ
whole n = n

abbrev pub at_most_five : ℕ → ℕ
at_most_five n = if ltb n 5 then n else 5

abbrev pub start_env : Env
start_env = record {
  listenfd = pos 3;
  connfd = pos 4;
  reqfd = pos 3;
  logfp = some 5;
  retreived_device_info = 0;
  model = replicate 256 0;
  language = replicate 2 0;
  cur_auth_state = 0;
  zaurus_ip = replicate 16 0;
  sync_type = 0;
  retrieved_sync_state = 0;
  todo_slow_sync_required = 0;
  calendar_slow_sync_required = 0;
  address_book_slow_sync_required = 0;
  num_params = 0;
  params = none;
  passcode = none;
}

abbrev pub start : List ℕ → State World
start b = record { env = start_env; sys = record { incoming = b; outgoing = [] }; blocks = 0 }

or_empty : Option (List ℕ) → List ℕ
or_empty none = []
or_empty (some b) = b

pub host-AllocatesExactly : (e : Endian) (f : ℕ → ℕ) → AllocatesExactly (host e f)
unfolding or_empty
host-AllocatesExactly e f = record {
  size = λ n w b h. sym (ap (λ o. length (or_empty o)) h) ∙ length-replicate n 0;
}

is_some : Option (List ℕ) → Bool
is_some none = false
is_some (some b) = true

pub host-NeverFull : (e : Endian) (f : ℕ → ℕ) → NeverFull (host e f)
unfolding is_some
host-NeverFull e f = record { allocated = λ n w h. true≢false (ap is_some h) }

-- An empty text for every line.
pub host-LogsApart : (e : Endian) (f : ℕ → ℕ) → LogsApart (host e f) (λ w. w.incoming)
host-LogsApart e f = record {
  prints = record {
    within = λ l size n b h. omega (arith, ap (λ o. o.0) (some-injective _ _ h));
    stored = λ l size n b h room.
        ap (λ o. length o.1) (sym (some-injective _ _ h)) ∙ ap (λ o. o.0) (some-injective _ _ h);
  };
  written = λ fp b w. refl;
  flushed = λ fp w. refl;
}

pub host-Undisturbed : (e : Endian) (f : ℕ → ℕ) → Undisturbed (host e f) (λ w. w.incoming)
host-Undisturbed e f = record {
  full = host-NeverFull e f;
  kept = λ n w. refl;
  logs = host-LogsApart e f;
}

received :
    (w : World) (y : ℕ) (ys : List ℕ)
    → w.incoming ≡ y ∷ ys
    → ((receive w).0 ≡ some (y ∷ [])) × ((receive w).1.incoming ≡ ys)
received w y ys e = rw (e) (refl, refl)

ended : (w : World) → w.incoming ≡ [] → ((receive w).0 ≡ some []) × ((receive w).1.incoming ≡ [])
ended w e = rw (e) (refl, refl)

pub host-ReadsStream :
    (e : Endian) (f : ℕ → ℕ) (fd : ℤ) → ReadsStream (host e f) fd (λ w. w.incoming)
host-ReadsStream e f fd = record {
  piece = λ n w y ys h k. let (a, b) = received w y ys k in (y, [], ys, a, h, k, b);
  ended = λ n w k. ended w k;
}

pub host-Sends :
    (e : Endian) (f : ℕ → ℕ) (fd : ℤ)
    → ((n : ℕ) → 0 < n → 0 < f n)
    → Sends (host e f) fd (λ w. w.outgoing)
host-Sends e f fd h = record {
  some_taken = λ b w k l eq. rw⁻¹ (some-injective (f (length b)) k eq) (h (length b) l);
  written = λ b w k eq. ap (λ n. w.outgoing ++ take n b) (some-injective (f (length b)) k eq);
}

pub host-TakesAll : (e : Endian) (fd : ℤ) → TakesAll (host e whole) fd
host-TakesAll e fd = record { accepted = λ b w. refl }

pub at_most_five-positive : (n : ℕ) → 0 < n → 0 < at_most_five n
at_most_five-positive n h = ground arith

-- The header of a message of the Zaurus, in two parts.
abbrev pub first_seven : List ℕ
first_seven = 0 ∷ 0 ∷ 0 ∷ 0 ∷ 0 ∷ 0x96 ∷ 0x01 ∷ []

abbrev pub last_six : List ℕ
last_six = 0x01 ∷ 0x0c ∷ 0xff ∷ 0xff ∷ 0 ∷ 0 ∷ []

abbrev pub state_reply : Kinds.Reply
state_reply = amg (1 ∷ 6 ∷ []) 3 (replicate 46 0)

-- The seventh byte of a list is 1.
one_is_seventh : List ℕ → Bool
one_is_seventh b = elim (drop 6 b) [ [] ↦ false | x ∷ xs ↦ x == 1 ]

pub first_seven-uncommon : (c : Common) → first_seven ≢ bytes_of c
unfolding one_is_seventh
first_seven-uncommon ack e = true≢false (ap one_is_seventh e)
first_seven-uncommon rqst e = true≢false (ap one_is_seventh e)
first_seven-uncommon abrt e = true≢false (ap one_is_seventh e)
