-- ===== src/Msgs/Prepare/Frame.antt =====
-- What _zdtm_prepare_message makes of each request.
use lib_zdtm_sync.Prelude.{
  ℕ, ◌+◌, ◌-◌, ◌%◌, ◌≤◌, ◌<◌, ◌≡◌, refl, ap, ◌∙◌, some, List, [], ◌∷◌, length, sum, arith,
}
use lib_zdtm_sync.Prelude.Int.{pos}
use lib_zdtm_sync.Bytes.{little, mem16, store16}
use lib_zdtm_sync.Bytes.Order.{store16-little}
use lib_zdtm_sync.Run.{◌>>=◌, ok, split_all, overlay_full}
use lib_zdtm_sync.Env.{State}
use lib_zdtm_sync.Platform.{Platform, AllocatesExactly, NeverFull}
use lib_zdtm_sync.Platform.Blocks.{after_malloc, allocate-some}
use lib_zdtm_sync.Requests.{wrote}
use lib_zdtm_sync.Requests.Kinds.{
  Request, IsSendable, IsPortable, message_of, encode, type_of, content_of,
}
use lib_zdtm_sync.Requests.Length.{length-encode}
use lib_zdtm_sync.Message.{Msg, Content, new_msg}
use mathlib.Core.Path.{ap₂}
use lib_zdtm_sync.Msgs.{sum_bytes, checksum}
use lib_zdtm_sync.Msgs.Prepare.Content.{cont_length-encode, cont_write-encode}
use lib_zdtm_sync.Msgs.Prepare.{
  sized, cont_length, cont_write, header_with, fill_message, build_message, prepare_message,
}

sum_bytes-sum : (acc : ℕ) (xs : List ℕ) → acc < 65536 → sum_bytes acc xs ≡ (acc + sum xs) % 65536
unfolding sum_bytes
sum_bytes-sum acc [] h = omega arith
sum_bytes-sum acc (x ∷ xs) h = sum_bytes-sum ((acc + x) % 65536) xs (omega arith) ∙ omega arith

-- A prepared request: sizes, header, content and checksum.
abbrev pub prepared : Request → Msg
prepared r = record (message_of r) {
  header = header_with (mem16 little (length (encode r)));
  raw_content = some (encode r);
  body_size = 3 + length (encode r);
  check_sum = (sum (message_of r).mtype + sum (encode r)) % 65536;
  cont_size = length (encode r);
}

wrap : (n : ℕ) → n ≤ 65532 → (3 + n) % 65536 ≡ 3 + n
wrap n h = omega arith

unwrap : (n : ℕ) → n ≤ 65532 → (3 + n + 65536 - 3) % 65536 ≡ n
unwrap n h = omega arith

module _ {W : Type 0} (p : Platform W) where
  pub checksum-sum :
      (m : Msg) (b : List ℕ) (s : State W)
      → m.raw_content ≡ some b
      → length b ≡ m.cont_size
      → checksum m s ≡ ok ((sum m.mtype + sum b) % 65536) s
  unfolding checksum
  checksum-sum m b s e h =
      rw (e, split_all m.cont_size b h, checksum)
        (ap (λ n. ok n s)
          (rw (sum_bytes-sum 0 m.mtype (omega arith))
            (sum_bytes-sum _ b (omega arith) ∙ omega arith)))

  fill_message-wrote :
      (m : Msg) (b block : List ℕ) (s : State W)
      → cont_write p.order m ≡ wrote b
      → length b ≡ m.cont_size
      → length block ≡ m.cont_size
      → fill_message p m block s
        ≡ ok (pos 0, record m { raw_content = some b; check_sum = (sum m.mtype + sum b) % 65536 }) s
  unfolding fill_message
  fill_message-wrote m b block s w h k =
      rw (w, overlay_full b block (omega arith), fill_message)
        (rw (checksum-sum (record m { raw_content = some b }) b s refl h, ◌>>=◌))

  build_message-wrote :
      (t : List ℕ) (c : Content) (b : List ℕ) (s : State W)
      → cont_write p.order (new_msg t c) ≡ wrote b
      → AllocatesExactly p
      → NeverFull p
      → build_message p (new_msg t c) (3 + length b) (length b) s
        ≡ ok
            (
              pos 0,
              record (new_msg t c) {
                header = header_with (mem16 little (length b));
                raw_content = some b;
                body_size = 3 + length b;
                check_sum = (sum t + sum b) % 65536;
                cont_size = length b;
              },
            )
            (after_malloc p (length b) s)
  unfolding build_message
  build_message-wrote t c b s w exact full =
      let n = length b in
      let (block, alloc, size) = allocate-some p n s exact full in
      let sized_msg : Msg = record (new_msg t c) {
        header = header_with (store16 p.order n);
        body_size = 3 + n;
        cont_size = n;
      } in
      let fill =
        fill_message-wrote sized_msg b block (after_malloc p n s) (unfold cont_write in w) refl
          size in
      rw (alloc, build_message, ◌>>=◌)
        (fill
          ∙ ap
              (λ h.
                ok
                  (
                    pos 0,
                    record (new_msg t c) {
                      header = header_with h;
                      raw_content = some b;
                      body_size = 3 + n;
                      check_sum = (sum t + sum b) % 65536;
                      cont_size = n;
                    },
                  )
                  (after_malloc p n s))
              (store16-little p.order n))

  prepare_message-sized :
      (m : Msg) (n : ℕ) (s : State W)
      → cont_length m ≡ sized (pos n)
      → n ≤ 65532
      → prepare_message p m s ≡ build_message p m (3 + n) n s
  unfolding prepare_message
  prepare_message-sized m n s e h =
      rw (e, prepare_message)
        (ap₂ (λ body cont. build_message p m body cont s) (wrap n h)
          (ap (λ k. (k + 65536 - 3) % 65536) (wrap n h) ∙ unwrap n h))

  pub prepare_message-prepared :
      (r : Request) (s : State W)
      → IsSendable r
      → IsPortable p.order r
      → AllocatesExactly p
      → NeverFull p
      → prepare_message p (message_of r) s
        ≡ ok (pos 0, prepared r) (after_malloc p (length (encode r)) s)
  prepare_message-prepared r s h c exact full =
      prepare_message-sized (message_of r) (length (encode r)) s (cont_length-encode r h)
        (length-encode r h)
      ∙ build_message-wrote (type_of r) (content_of r) (encode r) s
          (cont_write-encode p.order r h c) exact full
