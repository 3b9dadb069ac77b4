-- ===== src/Sync/Handshake.antt =====
-- A whole handshake (zdtm_initiate_sync of src/zdtm_sync.c) with a device that answers.
use lib_zdtm_sync.Prelude.{
  ℕ, ◌≤◌, ◌≡◌, true, false, ◌==◌, ◌||◌, none, List, ◌++◌, length, replicate, same_bytes,
}
use lib_zdtm_sync.Prelude.Int.{ℤ}
use lib_zdtm_sync.Env.{Env}
use lib_zdtm_sync.Env.Valid.{IsEnv}
use lib_zdtm_sync.Platform.{Platform}
use lib_zdtm_sync.Contents.{Atg}
use lib_zdtm_sync.Replies.Kinds.{Reply, aay, amg, aex, adi, IsReply}
use lib_zdtm_sync.Replies.Adi.Texts.{Text}
use lib_zdtm_sync.Msgs.{ack_message}
use lib_zdtm_sync.Net.Recv.Frame.{bytes}
use lib_zdtm_sync.Net.Recv.Reply.{framed}
use lib_zdtm_sync.Proto.Session.{set_slow_sync}
use lib_zdtm_sync.Proto.Talk.{Cover, IsCover, says}
use lib_zdtm_sync.Proto.Told.{with_format}
use lib_zdtm_sync.Sync.Greeting.{joined}
use lib_zdtm_sync.Sync.Steps.{Info, info_reply, knowing, date_reply, AreShort}

-- What the device says in a handshake, reply by reply, and what covers each reply.
pub record Answers : Type 0 where
  pub greeting : List ℕ
  pub first : Info
  pub second : Info
  pub sl : List ℕ
  pub flags : ℕ
  pub state_uk : List ℕ
  pub date : Atg
  pub cards : ℕ
  pub format_uk : ℕ
  pub params : List Text
  pub cover : ℕ → Cover

abbrev state_reply : Answers → Reply
state_reply a = amg a.sl a.flags a.state_uk

abbrev format_reply : Answers → Reply
format_reply a = adi a.cards a.format_uk a.params

-- The replies have the sizes of their fields, the texts fit the arrays that they are copied to, and
-- the device asks for no passcode.
pub record AreAnswers (a : Answers) : Type 0 where
  pub greeting_fits : IsReply (aay a.greeting)
  pub first_fits : IsReply (info_reply a.first)
  pub first_short : length a.first.model ≤ 255
  pub no_passcode : (a.first.auth_state == 0x0b || a.first.auth_state == 0x07) ≡ false
  pub second_fits : IsReply (info_reply a.second)
  pub second_short : length a.second.model ≤ 255
  pub state_fits : IsReply (state_reply a)
  pub date_fits : IsReply (date_reply a.date)
  pub format_fits : IsReply (format_reply a)
  pub params_short : AreShort a.params
  pub covered : (n : ℕ) → IsCover (a.cover n)

-- The bytes of the device from the device information on, of the second one on, and of all.
abbrev second_part : Answers → List ℕ → List ℕ
second_part a rest = says (a.cover 2) (info_reply a.second) (
    says (a.cover 3) (state_reply a) (
      says (a.cover 4) (date_reply a.date)
        (says (a.cover 5) aex (says (a.cover 6) (format_reply a) rest))))

abbrev pub script : Answers → List ℕ → List ℕ
script a rest =
    let c = a.cover 0 in
    ack_message
    ++ (bytes (framed (aay a.greeting) c.start c.tail c.check_sum)
        ++ says (a.cover 1) (info_reply a.first) (second_part a rest))

-- An environment that a handshake can start from: a type and an address are set, and nothing of the
-- device is known yet.
pub record IsFresh (env : Env) : Type 0 where
  pub valid : IsEnv env
  pub has_type : (env.sync_type == 0) ≡ false
  pub has_address : same_bytes env.zaurus_ip (replicate 16 0) ≡ false
  pub no_info : (env.retreived_device_info == 0) ≡ true
  pub no_format : env.params ≡ none

-- The environment behind the handshake.
abbrev pub synchronized : Answers → (reqfd connfd : ℤ) → Env → Env
synchronized a reqfd connfd env =
    with_format a.params
      (set_slow_sync a.flags (knowing a.second (knowing a.first (joined reqfd connfd env))))
