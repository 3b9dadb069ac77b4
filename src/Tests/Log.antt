-- ===== src/Tests/Log.antt =====
-- The dump of a message on a host whose snprintf fills each line to its width.
use lib_zdtm_sync.Prelude.{
  ℕ, ◌≡◌, refl, sym, ap, ◌∙◌, Option, some, List, [], replicate, take, length, length-replicate,
  arith,
}
use mathlib.Core.Option.{some-injective}
use lib_zdtm_sync.Prelude.Int.{ℤ, negsuc}
use lib_zdtm_sync.Bytes.{little}
use lib_zdtm_sync.Run.{ok, fault}
use lib_zdtm_sync.Env.{State}
use lib_zdtm_sync.Platform.{Platform, Line}
use lib_zdtm_sync.Message.{Msg, zero_msg}
use lib_zdtm_sync.Log.{log_error}
use lib_zdtm_sync.Log.Dump.{dump_msg_log}
use lib_zdtm_sync.Log.Bounds.{width, Prints}
use lib_zdtm_sync.Log.Returns.{dump_msg_log-returns, log_error-returns, log_error-long}
use lib_zdtm_sync.Tests.Host.{World, host, whole, start, start_env}

abbrev filler : Line → Option (ℕ × List ℕ)
filler line = some (width line, replicate (width line) b'x')

abbrev printing : Platform World
printing = record (host little whole) { snprintf = λ line size. filler line }

printing-Prints : Prints printing
printing-Prints = record {
  within = λ l size n b e. omega (arith, ap (λ o. o.0) (some-injective _ _ e));
  stored = λ l size n b e room.
      ap (λ o. length o.1) (sym (some-injective _ _ e))
      ∙ length-replicate (width l) b'x'
      ∙ ap (λ o. o.0) (some-injective _ _ e);
}

abbrev logging : State World
logging = record (start []) { env = record start_env { logfp = some 5 } }

-- two rows of content
abbrev of_twenty : Msg
of_twenty = record zero_msg { raw_content = some (replicate 20 7); cont_size = 20; body_size = 23 }

dump_msg_log-returns_example :
    (r : ℤ) × (t : State World) × (dump_msg_log printing of_twenty logging ≡ ok r t)
    × (t.env ≡ logging.env)
dump_msg_log-returns_example =
    dump_msg_log-returns printing of_twenty logging printing-Prints refl refl

log_error-returns_example :
    (r : ℤ) × (t : State World) × (log_error printing (replicate 30 b'f') (negsuc 6) logging
      ≡ ok r t)
    × (t.env ≡ logging.env)
log_error-returns_example =
    log_error-returns printing (replicate 30 b'f') (negsuc 6) logging printing-Prints (omega arith)

-- A host that cuts a line at the end of the buffer.
abbrev cutting : Platform World
cutting = record (host little whole) {
  snprintf = λ line size. some (width line, take size (replicate (width line) b'x'));
}

log_error-long_example : log_error cutting (replicate 240 b'f') (negsuc 6) logging ≡ fault
log_error-long_example =
    log_error-long cutting (replicate 240 b'f') (negsuc 6) logging 261 5
      (take 256 (replicate 261 b'x')) refl (omega arith) (omega arith) refl
