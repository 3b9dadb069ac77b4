-- ===== src/Net/Send/Frame.antt =====
-- A request as _zdtm_send_message_to puts it on a connection.
use lib_zdtm_sync.Prelude.{
  ℕ, ◌+◌, ◌-◌, ◌≤◌, ◌≡◌, refl, sym, ap, ◌∙◌, none, List, ◌++◌, length, arith, take_all, sum, ◌%◌,
  length-append,
}
use lib_zdtm_sync.Prelude.Int.{ℤ, pos}
use lib_zdtm_sync.Bytes.{Endian, little, big, mem16}
use lib_zdtm_sync.Run.{ok, ◌>>=◌, split_all, overlay_full}
use lib_zdtm_sync.Env.{State}
use lib_zdtm_sync.Platform.{Platform, AllocatesExactly, NeverFull}
use lib_zdtm_sync.Requests.Kinds.{
  Request, ray, rig, rtg, rrl, rmg, rms, rts, rdi, rsy, rss, rdr, rdd, rds, rqt, rlr, rge,
  IsSendable, IsPortable, message_of, encode, type_of, content_of,
}
use lib_zdtm_sync.Message
use lib_zdtm_sync.Message.{Msg, Content}
use lib_zdtm_sync.Msgs.{clean_message}
use lib_zdtm_sync.Msgs.Prepare.{header_with}
use lib_zdtm_sync.Platform.Blocks.{after_malloc, allocate-some}
use lib_zdtm_sync.Msgs.Prepare.Frame.{prepared, prepare_message-prepared}
use lib_zdtm_sync.Net.Send.{wire_bytes, send_message_to}
use lib_zdtm_sync.Net.Send.Wire.{Sends, TakesAll, send_loop-all}

-- The bytes of a request on the wire of a host.
abbrev pub framed : Endian → Request → List ℕ
framed e r =
    header_with (mem16 little (length (encode r)))
    ++ (mem16 e (3 + length (encode r))
        ++ (type_of r ++ (encode r ++ mem16 e ((sum (type_of r) + sum (encode r)) % 65536))))

-- What cleaning leaves of a prepared request: no raw content, and no password.
abbrev pub cleaned_content : Request → Content
cleaned_content (rrl password) = Message.rrl (record { pw_size = length password; pw = none })
cleaned_content r = content_of r

abbrev pub cleaned : Request → Msg
cleaned r = record (prepared r) { raw_content = none; cont = cleaned_content r }

-- The blocks of the message that its caller allocated and that cleaning frees.
abbrev pub owned : Request → ℕ
owned (rrl password) = 1
owned _ = 0

length-mem16 : (e : Endian) (v : ℕ) → length (mem16 e v) ≡ 2
length-mem16 little v = refl
length-mem16 big v = refl

length-type_of : (r : Request) → length (type_of r) ≡ 3
length-type_of ray = refl
length-type_of rig = refl
length-type_of rtg = refl
length-type_of (rrl password) = refl
length-type_of (rmg uk sync_type) = refl
length-type_of (rms log) = refl
length-type_of (rts date) = refl
length-type_of (rdi sync_type uk) = refl
length-type_of (rsy sync_type uk) = refl
length-type_of (rss uk_1 sync_type uk_2) = refl
length-type_of (rdr sync_type num sync_id) = refl
length-type_of (rdd sync_type num sync_id) = refl
length-type_of (rds sync_type status null_bytes) = refl
length-type_of (rqt null_bytes) = refl
length-type_of (rlr sync_type) = refl
length-type_of (rge path) = refl

-- A frame fills its block.
length-framed :
    (e : Endian) (r : Request) → length (framed e r) ≡ 13 + 2 + (3 + length (encode r)) + 2
length-framed e r =
    let sum_bytes = mem16 e ((sum (type_of r) + sum (encode r)) % 65536) in
    let size_bytes = mem16 e (3 + length (encode r)) in
    omega (
      arith,
      length-append (header_with (mem16 little (length (encode r))))
          (size_bytes ++ (type_of r ++ (encode r ++ sum_bytes))),
      length-append size_bytes (type_of r ++ (encode r ++ sum_bytes)),
      length-append (type_of r) (encode r ++ sum_bytes),
      length-append (encode r) sum_bytes,
      length-type_of r,
      length-mem16 e,
    )

module _ {W : Type 0} (p : Platform W) where
  pub clean_message-prepared :
      (r : Request) (s : State W)
      → clean_message (prepared r) s ≡ ok (cleaned r) (record s { blocks = s.blocks - 1 - owned r })
  unfolding clean_message
  clean_message-prepared (rrl password) s = refl
  clean_message-prepared r s = ap (λ b. ok (cleaned r) (record s { blocks = b })) (omega arith)

  wire_bytes-prepared :
      (r : Request) (block : List ℕ) (s : State W)
      → length (framed p.order r) ≡ length block
      → wire_bytes p (prepared r) block s ≡ ok (framed p.order r) s
  unfolding wire_bytes
  wire_bytes-prepared r block s fits =
      rw
        (
          split_all (length (encode r)) (encode r) refl,
          overlay_full (framed p.order r) block fits,
          wire_bytes,
          ◌>>=◌,
        )
        refl

  -- The world behind the two blocks of a request and the send of its bytes.
  abbrev pub sent_world : Request → ℤ → State W → W
  sent_world r fd s =
      let n = length (encode r) in
      (p.send fd (framed p.order r)
        (after_malloc p (13 + 2 + (3 + n) + 2) (after_malloc p n s)).sys).1

  pub send_message_to-run :
      (r : Request) (fd : ℤ) (s : State W)
      → IsSendable r
      → IsPortable p.order r
      → AllocatesExactly p
      → NeverFull p
      → TakesAll p fd
      → 2 ≤ p.send_rounds
      → send_message_to p (message_of r) fd s
        ≡ ok (pos 0, cleaned r) (record s { sys = sent_world r fd s; blocks = s.blocks - owned r })
  unfolding send_message_to
  send_message_to-run r fd s h c exact full all rounds =
      let n = length (encode r) in
      let size = 13 + 2 + (3 + n) + 2 in
      let t = after_malloc p n s in
      let u = after_malloc p size t in
      let wire = framed p.order r in
      let prepare = prepare_message-prepared p r s h c exact full in
      let (block, alloc, room) = allocate-some p size t exact full in
      let whole = length-framed p.order r in
      let bytes = wire_bytes-prepared r block u (whole ∙ sym room) in
      let loop =
        send_loop-all p fd p.send_rounds wire size u all (sym whole) (omega arith) rounds in
      let w = (p.send fd wire u.sys).1 in
      let clean = clean_message-prepared r (record u { sys = w }) in
      rw (prepare, alloc, bytes, loop, clean, send_message_to, ◌>>=◌)
        (ap (λ b. ok (pos 0, cleaned r) (record s { sys = w; blocks = b })) (omega arith))

  -- On a host of either byte order, with a connection that takes all that is sent, malloc that
  -- gives what is asked for and does not touch the connection, and two rounds of the loop
  -- followed, a request of a kind other than RDW that fits its struct and that the host writes
  -- portably is sent with success: what was on the connection before is followed by the bytes of
  -- the request's frame, once, and by nothing else; no copy leaves the block that is sent. The
  -- message comes back cleaned, and every block that the call allocated is freed, with the
  -- password of an RRL message.
  pub send_message_to-framed :
      (out : W → List ℕ) (r : Request) (fd : ℤ) (s : State W)
      → IsSendable r
      → IsPortable p.order r
      → AllocatesExactly p
      → NeverFull p
      → Sends p fd out
      → TakesAll p fd
      → ((n : ℕ) (w : W) → out (p.malloc n w).1 ≡ out w)
      → 2 ≤ p.send_rounds
      → (w : W) × (send_message_to p (message_of r) fd s
          ≡ ok (pos 0, cleaned r) (record s { sys = w; blocks = s.blocks - owned r }))
        × (out w ≡ out s.sys ++ framed p.order r)
  send_message_to-framed out r fd s h c exact full sends all quiet rounds =
      let n = length (encode r) in
      let t = after_malloc p n s in
      let size = 13 + 2 + (3 + n) + 2 in
      let u = after_malloc p size t in
      let wire = framed p.order r in
      (
        sent_world r fd s,
        send_message_to-run r fd s h c exact full all rounds,
        sends.written wire u.sys (length wire) (all.accepted wire u.sys)
            ∙ ap (λ b. out u.sys ++ b) (take_all (length wire) wire (omega arith))
            ∙ ap (λ b. b ++ wire) (quiet size t.sys ∙ quiet n s.sys),
      )
