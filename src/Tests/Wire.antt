-- ===== src/Tests/Wire.antt =====
-- The messages on the simulated host.
use lib_zdtm_sync.Prelude.{
  ℕ, ◌≡◌, ◌⊎◌, refl, none, some, List, [], ◌∷◌, ◌++◌, take, replicate, arith,
}
use lib_zdtm_sync.Prelude.Int.{pos, negsuc}
use lib_zdtm_sync.Bytes.{
  little, big, load16, store16, load32, store32, liltobigs, liltobigl, bigtolils, bigtolill,
}
use lib_zdtm_sync.Bytes.Order.{load-store}
use lib_zdtm_sync.Run.{ok, fault, Returns}
use lib_zdtm_sync.Message.{zero_msg}
use lib_zdtm_sync.Msgs.{ack_message}
use lib_zdtm_sync.Msgs.Parse.{parse_raw_msg}
use lib_zdtm_sync.Replies.Kinds
use lib_zdtm_sync.Replies.Kinds.{adr, content_of}
use lib_zdtm_sync.Msgs.Parse.Decode.{unparsed, parse_raw_msg-encode}
use lib_zdtm_sync.Platform.Blocks.{after_mallocs}
use lib_zdtm_sync.Requests.Kinds.{rrl, message_of}
use lib_zdtm_sync.Net.Send.{send_loop, send_message_to}
use lib_zdtm_sync.Net.Send.Wire.{send_loop-Returns, send_loop-resends}
use lib_zdtm_sync.Net.Send.Frame.{framed, cleaned, send_message_to-framed}
use lib_zdtm_sync.Net.Recv.{filled, broken, recv_loop, recv_message}
use lib_zdtm_sync.Net.Recv.Stream.{recv_loop-filled, recv_loop-broken}
use lib_zdtm_sync.Net.Recv.Start.{rqst, bytes_of, recv_message-common}
use lib_zdtm_sync.Net.Recv.Frame.{bytes}
use lib_zdtm_sync.Net.Recv.Reply
use lib_zdtm_sync.Net.Recv.Reply.{received, recv_message-reply}
use lib_zdtm_sync.Net.Recv.Short.{recv_message-short_body}
use lib_zdtm_sync.Tests.Host.{
  first_seven, last_six, state_reply, first_seven-uncommon, World, host, whole, at_most_five, start,
  host-AllocatesExactly, host-NeverFull, host-Undisturbed, host-ReadsStream, host-Sends,
  host-TakesAll, at_most_five-positive,
}

load-store_example :
    (liltobigs big 258 ≡ 513)
    × (liltobigl big 16909060 ≡ 67305985)
    × (bigtolils big (liltobigs big 258) ≡ 258)
    × (bigtolill big (liltobigl big 16909060) ≡ 16909060)
    × (store16 big 258 ≡ 2 ∷ 1 ∷ [])
    × (store32 big 16909060 ≡ 4 ∷ 3 ∷ 2 ∷ 1 ∷ [])
    × (load16 big (store16 big 258) ≡ 258)
    × (load32 big (store32 big 16909060) ≡ 16909060)
load-store_example = load-store big 258 16909060 (omega arith) (omega arith)

abbrev password : List ℕ
password = 49 ∷ 50 ∷ []

send_message_to-framed_example :
    (w : World) × (send_message_to
        (host little whole)
        (message_of (rrl password))
        (pos 4)
        (start [])
      ≡ ok (pos 0, cleaned (rrl password)) (record (start []) { sys = w; blocks = 0 }))
    × (w.outgoing ≡ framed little (rrl password))
send_message_to-framed_example =
    send_message_to-framed (host little whole) (λ w. w.outgoing) (rrl password) (pos 4) (start [])
      (omega arith) tt (host-AllocatesExactly little whole) (host-NeverFull little whole)
      (host-Sends little whole (pos 4) (λ n h. h)) (host-TakesAll little (pos 4)) (λ n w. refl)
      (omega arith)

send_loop-Returns_example :
    Returns
      (λ r t. (r ≡ none) ⊎ (r ≡ some tt))
      (send_loop (host little at_most_five) 8 (pos 4) ack_message 7 0 (start []))
send_loop-Returns_example =
    send_loop-Returns (host little at_most_five) (pos 4) (λ w. w.outgoing)
      (host-Sends little at_most_five (pos 4) at_most_five-positive) 8 ack_message 7 0 (start [])
      (omega arith) (omega arith)

send_loop-resends_example :
    (w : World) × (send_loop (host little at_most_five) 3 (pos 4) ack_message 7 0 (start [])
      ≡ ok (some tt) (record (start []) { sys = w }))
    × (w.outgoing ≡ take 5 ack_message ++ take 2 ack_message)
send_loop-resends_example =
    send_loop-resends (host little at_most_five) (pos 4) (λ w. w.outgoing) 3 ack_message 5
      (start []) (host-Sends little at_most_five (pos 4) at_most_five-positive) (omega arith)
      (omega arith) (omega arith) refl refl

recv_loop-filled_example :
    (w : World) × (recv_loop (host little whole) 4 (pos 4) 3 [] (start (7 ∷ 8 ∷ 9 ∷ 10 ∷ []))
      ≡ ok (filled (7 ∷ 8 ∷ 9 ∷ [])) (record (start []) { sys = w }))
    × (w.incoming ≡ 10 ∷ [])
recv_loop-filled_example =
    recv_loop-filled (host little whole) (pos 4) (λ w. w.incoming)
      (host-ReadsStream little whole (pos 4)) 4 3 [] (start (7 ∷ 8 ∷ 9 ∷ 10 ∷ [])) (omega arith)
      (omega arith) (omega arith)

recv_loop-broken_example :
    (w : World) × (recv_loop (host little whole) 4 (pos 4) 3 [] (start (7 ∷ []))
      ≡ ok (broken (negsuc 1)) (record (start []) { sys = w }))
    × (w.incoming ≡ [])
recv_loop-broken_example =
    recv_loop-broken (host little whole) (pos 4) (λ w. w.incoming)
      (host-ReadsStream little whole (pos 4)) 4 3 [] (start (7 ∷ [])) (omega arith) (omega arith)
      (omega arith)

recv_message-common_example :
    (w : World) × (recv_message (host little whole) zero_msg (start (bytes_of rqst ++ (9 ∷ [])))
      ≡ ok (pos 2, zero_msg) (record (start []) { sys = w }))
    × (w.incoming ≡ 9 ∷ [])
recv_message-common_example =
    recv_message-common (host little whole) (λ w. w.incoming) zero_msg rqst (9 ∷ [])
      (start (bytes_of rqst ++ (9 ∷ []))) (host-ReadsStream little whole (pos 4)) refl

recv_message-reply_example :
    (w : World) × (recv_message
        (host little whole)
        zero_msg
        (start (bytes (Reply.framed state_reply first_seven last_six 500)))
      ≡ ok
          (pos 0, received state_reply first_seven last_six 500)
          (record (start []) { sys = w; blocks = 1 }))
    × (w.incoming ≡ [])
recv_message-reply_example =
    recv_message-reply (host little whole) (λ w. w.incoming) state_reply first_seven last_six 500 []
      (start (bytes (Reply.framed state_reply first_seven last_six 500))) (refl, refl) tt refl refl
      (omega arith) first_seven-uncommon (host-ReadsStream little whole (pos 4))
      (host-Undisturbed little whole) refl

-- An item of two parameters, the second of them empty.
abbrev item_reply : Kinds.Reply
item_reply = adr (0 ∷ 0 ∷ []) ((1 ∷ 2 ∷ []) ∷ [] ∷ [])

parse_raw_msg-encode_example :
    parse_raw_msg
      (host little whole)
      (unparsed (host little whole) item_reply (replicate 13 0) 17 0 14)
      (start [])
    ≡ ok
        (
          pos 0,
          record (unparsed (host little whole) item_reply (replicate 13 0) 17 0 14) {
            cont = content_of item_reply;
          },
        )
        (after_mallocs (host little whole) (32 ∷ 2 ∷ 0 ∷ []) (start []))
parse_raw_msg-encode_example =
    parse_raw_msg-encode (host little whole) item_reply (replicate 13 0) 17 0 14 (start [])
      (host-NeverFull little whole)
      (refl, omega arith, (omega arith, (omega arith, tt)), omega arith) tt

recv_message-short_body_example :
    recv_message
      (host little whole)
      zero_msg
      (start (first_seven ++ ((last_six ++ (2 ∷ 0 ∷ [])) ++ (replicate 4 65 ++ (9 ∷ [])))))
    ≡ fault
recv_message-short_body_example =
    recv_message-short_body (host little whole) (λ w. w.incoming) first_seven last_six
      (replicate 4 65) (9 ∷ []) 2
      (start (first_seven ++ ((last_six ++ (2 ∷ 0 ∷ [])) ++ (replicate 4 65 ++ (9 ∷ []))))) refl
      refl first_seven-uncommon (omega arith) refl (host-ReadsStream little whole (pos 4))
      (host-Undisturbed little whole) refl
