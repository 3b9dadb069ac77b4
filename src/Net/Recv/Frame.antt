-- ===== src/Net/Recv/Frame.antt =====
-- The bytes of a general message and what the arithmetic of _zdtm_recv_message makes of them.
use lib_zdtm_sync.Prelude.{
  ℕ, ◌+◌, ◌-◌, ◌%◌, ◌≤◌, ◌<◌, ◌≡◌, ◌≢◌, sym, ap, ◌∙◌, false, some, List, [], ◌++◌, length, take,
  drop, arith, length-append, take-append, drop-append, Bool-cases, inl, inr, same_bytes→eq,
}
use lib_zdtm_sync.Bytes.{Endian, little, mem16, load16}
use lib_zdtm_sync.Bytes.Order.{load16-mem16}
use lib_zdtm_sync.Message.{Msg, zero_msg}
use lib_zdtm_sync.Msgs.{
  ack_message, rqst_message, abrt_message, is_ack_message, is_rqst_message, is_abrt_message,
}
use mathlib.Core.List.{append_assoc}
use lib_zdtm_sync.Net.Recv.Start.{Common, ack, rqst, abrt, bytes_of}

-- A message of the wire: what the header holds before its first seven bytes' end and behind, the
-- type, the content, and the checksum.
pub record Frame : Type 0 where
  pub start : List ℕ
  pub tail : List ℕ
  pub mtype : List ℕ
  pub content : List ℕ
  pub check_sum : ℕ

abbrev pub empty_frame : (start tail mtype : List ℕ) → ℕ → Frame
empty_frame start tail mtype sum = record {
  start = start;
  tail = tail;
  mtype = mtype;
  content = [];
  check_sum = sum;
}

abbrev pub bytes : Frame → List ℕ
bytes f =
    f.start
    ++ ((f.tail ++ mem16 little (3 + length f.content))
        ++ ((f.mtype ++ f.content) ++ mem16 little f.check_sum))

-- The lengths of the parts; no header begins like a common message.
pub record IsFrame (f : Frame) : Type 0 where
  pub start_size : length f.start ≡ 7
  pub tail_size : length f.tail ≡ 6
  pub type_size : length f.mtype ≡ 3
  pub content_size : length f.content ≤ 65532
  pub check_sum_size : f.check_sum < 65536
  pub uncommon : (c : Common) → f.start ≢ bytes_of c

-- The message that the parse function is given.
abbrev pub unparsed : Frame → Msg
unparsed f = record zero_msg {
  header = f.start ++ f.tail;
  mtype = f.mtype;
  raw_content = some f.content;
  body_size = 3 + length f.content;
  check_sum = f.check_sum;
  cont_size = length f.content;
}

pub is-false :
    (f : Frame)
    → IsFrame f
    → (is_ack_message f.start ≡ false)
      × (is_rqst_message f.start ≡ false)
      × (is_abrt_message f.start ≡ false)
unfolding is_ack_message is_rqst_message is_abrt_message
is-false f i = (
  elim (Bool-cases (is_ack_message f.start)) [
    | inl e ↦ absurd (i.uncommon ack (same_bytes→eq f.start ack_message e))
    | inr e ↦ e
  ],
  elim (Bool-cases (is_rqst_message f.start)) [
    | inl e ↦ absurd (i.uncommon rqst (same_bytes→eq f.start rqst_message e))
    | inr e ↦ e
  ],
  elim (Bool-cases (is_abrt_message f.start)) [
    | inl e ↦ absurd (i.uncommon abrt (same_bytes→eq f.start abrt_message e))
    | inr e ↦ e
  ],
)

pub take-front : (n : ℕ) (xs ys : List ℕ) → length xs ≡ n → take n (xs ++ ys) ≡ xs
take-front n xs ys h = rw⁻¹ h (take-append xs ys)

pub drop-front : (n : ℕ) (xs ys : List ℕ) → length xs ≡ n → drop n (xs ++ ys) ≡ ys
drop-front n xs ys h = rw⁻¹ h (drop-append xs ys)

-- The content size that the code takes from a body size.
abbrev pub cont_of : ℕ → ℕ
cont_of body = (body + 65536 - 3) % 65536

-- The body size that the code reads behind the header.
abbrev pub body_of : Endian → List ℕ → ℕ
body_of e header = load16 e (drop 13 header)

abbrev pub header_of : Frame → List ℕ
header_of f = f.start ++ (f.tail ++ mem16 little (3 + length f.content))

abbrev pub buff_of : Frame → List ℕ
buff_of f = (f.mtype ++ f.content) ++ mem16 little f.check_sum

pub thirteen : (f : Frame) → IsFrame f → length (f.start ++ f.tail) ≡ 13
thirteen f i = omega (arith, i.start_size, i.tail_size, length-append f.start f.tail)

pub body_of-header :
    (e : Endian) (f : Frame) → IsFrame f → body_of e (header_of f) ≡ 3 + length f.content
body_of-header e f i =
    ap (λ b. load16 e (drop 13 b)) (sym (append_assoc f.start f.tail _))
    ∙ ap (load16 e) (drop-front 13 (f.start ++ f.tail) _ (thirteen f i))
    ∙ load16-mem16 e (3 + length f.content) (omega (arith, i.content_size))

pub length-type : (f : Frame) → IsFrame f → length (f.mtype ++ f.content) ≡ 3 + length f.content
length-type f i = length-append f.mtype f.content ∙ ap (λ n. n + length f.content) i.type_size

pub length-buff : (f : Frame) → IsFrame f → length (buff_of f) ≡ 3 + length f.content + 2
length-buff f i =
    length-append (f.mtype ++ f.content) (mem16 little f.check_sum)
    ∙ ap (λ n. n + 2) (length-type f i)

pub check_sum-buff :
    (e : Endian) (f : Frame)
    → IsFrame f
    → load16 e (drop (3 + length f.content) (buff_of f)) ≡ f.check_sum
check_sum-buff e f i =
    ap (load16 e) (drop-front (3 + length f.content) (f.mtype ++ f.content) _ (length-type f i))
    ∙ load16-mem16 e f.check_sum i.check_sum_size

pub front-header : (f : Frame) → IsFrame f → take 13 (header_of f) ≡ f.start ++ f.tail
front-header f i =
    ap (take 13) (sym (append_assoc f.start f.tail _))
    ∙ take-front 13 (f.start ++ f.tail) _ (thirteen f i)

pub cont_of-content : (f : Frame) → IsFrame f → cont_of (3 + length f.content) ≡ length f.content
cont_of-content f i = omega (arith, i.content_size)
