-- ===== src/Msgs/Parse/Decode.antt =====
-- What _zdtm_parse_raw_msg of src/zdtm_msgs.c makes of each of the replies.
use lib_zdtm_sync.Prelude.{
  ℕ, ◌*◌, ◌<◌, ◌≡◌, refl, sym, ap, ◌∙◌, some, List, [], ◌∷◌, ◌++◌, map, length, arith,
}
use lib_zdtm_sync.Prelude.Int.{pos}
use lib_zdtm_sync.Bytes.{Endian, little, big, mem16, mem32}
use lib_zdtm_sync.Bytes.Order.{load16-mem16, load32-mem32}
use lib_zdtm_sync.Run.{ok, ◌>>=◌, split_front, split_all}
use lib_zdtm_sync.Env.{State}
use lib_zdtm_sync.Platform.{Platform, NeverFull}
use lib_zdtm_sync.Platform.Blocks.{after_malloc, after_mallocs, malloc-some}
use lib_zdtm_sync.Replies.{
  parse_raw_aay_msg, parse_raw_aig_msg, parse_raw_amg_msg, parse_raw_atg_msg, parse_raw_ang_msg,
  parse_raw_adw_msg, load16_by_long,
}
use lib_zdtm_sync.Replies.Adi.{parse_raw_adi_msg}
use lib_zdtm_sync.Replies.Adi.Texts.{read_format-encode}
use lib_zdtm_sync.Replies.Adr.{sizeof_data_param, parse_raw_adr_msg, read_params}
use lib_zdtm_sync.Replies.Adr.Params
use lib_zdtm_sync.Replies.Adr.Params.{read_params-encode}
use lib_zdtm_sync.Replies.Asy.{parse_raw_asy_msg}
use lib_zdtm_sync.Replies.Asy.Lists
use lib_zdtm_sync.Replies.Asy.Lists.{read_list-encode, read_list-last}
use lib_zdtm_sync.Replies.Kinds.{
  Reply, aay, aig, amg, atg, aex, ang, adi, asy, adr, adw, IsReply, IsReadable, type_of, content_of,
  rooms, raw_content,
}
use lib_zdtm_sync.Message.{Msg, zeroed}
use lib_zdtm_sync.Msgs.Parse.{parse_raw_msg}
use mathlib.Core.List.{append-nil}

-- On a host that can read it, the number of entries of an ADW or of an ADR message is read back.
load16_by_long-adw :
    (e : Endian) (uk : List ℕ) (v i : ℕ)
    → v < 65536
    → IsReadable e (adw uk v i)
    → load16_by_long e (mem16 little v) ≡ v
unfolding load16_by_long
load16_by_long-adw little uk v i h _ = omega arith
load16_by_long-adw big uk v i h readable = absurd readable

load16_by_long-adr :
    (e : Endian) (uk : List ℕ) (params : List (List ℕ)) (v : ℕ)
    → v < 65536
    → IsReadable e (adr uk params)
    → load16_by_long e (mem16 little v) ≡ v
unfolding load16_by_long
load16_by_long-adr little uk params v h _ = omega arith
load16_by_long-adr big uk params v h readable = absurd readable

module _ {W : Type 0} (p : Platform W) where
  -- A received message before it is parsed: the type and the content of a reply, and the other fields
  -- as they came.
  abbrev pub unparsed : Reply → List ℕ → ℕ → ℕ → ℕ → Msg
  unparsed r header body_size check_sum cont_size = record {
    header = header;
    mtype = type_of r;
    raw_content = raw_content r;
    cont = zeroed;
    body_size = body_size;
    check_sum = check_sum;
    cont_size = cont_size;
  }

  -- Where memory does not run out, each of the replies is parsed with success into the struct that
  -- holds what it says: the numbers, the texts, the lists and the parameters, each in its order. Of
  -- the state only the blocks change that hold what the struct points at, one for each text, list
  -- and array, each of its size. On a big-endian host the ADW and ADR replies are excluded.
  pub parse_raw_msg-encode :
      (r : Reply) (header : List ℕ) (b c n : ℕ) (s : State W)
      → NeverFull p
      → IsReply r
      → IsReadable p.order r
      → parse_raw_msg p (unparsed r header b c n) s
        ≡ ok
            (pos 0, record (unparsed r header b c n) { cont = content_of r })
            (after_mallocs p (rooms r) s)
  unfolding parse_raw_msg parse_raw_aay_msg parse_raw_aig_msg parse_raw_amg_msg parse_raw_atg_msg
      parse_raw_ang_msg parse_raw_adi_msg parse_raw_asy_msg parse_raw_adr_msg parse_raw_adw_msg
  parse_raw_msg-encode (aay uk) header b c n s full h _ = rw (split_all 3 uk h) refl
  parse_raw_msg-encode (aig model uk_0 language auth_state uk_1) header b c n s full
        (hm, h0, hl, h1) _ =
      let k = length model in
      let (block, alloc) = malloc-some p full k s.sys in
      rw
        (
          load16-mem16 p.order k (omega arith),
          alloc,
          load16-mem16 p.order k (omega arith),
          split_front k model (uk_0 ++ (language ++ (auth_state ∷ uk_1))) refl,
          split_front 5 uk_0 (language ++ (auth_state ∷ uk_1)) h0,
          split_front 2 language (auth_state ∷ uk_1) hl,
          split_all 6 uk_1 h1,
          ◌>>=◌,
        )
        (rw (load16-mem16 p.order k (omega arith)) refl)
  parse_raw_msg-encode (amg sl flags uk) header b c n s full (h, k) _ =
      rw (split_front 2 sl (flags ∷ uk) h, split_all 46 uk k, ◌>>=◌) refl
  parse_raw_msg-encode (atg year month day hour minutes seconds) header b c n s full
        (hy, hm, hd, hh, hn, hs) _ =
      rw
        (
          split_front 4 year (month ++ (day ++ (hour ++ (minutes ++ seconds)))) hy,
          split_front 2 month (day ++ (hour ++ (minutes ++ seconds))) hm,
          split_front 2 day (hour ++ (minutes ++ seconds)) hd,
          split_front 2 hour (minutes ++ seconds) hh,
          split_front 2 minutes seconds hn,
          split_all 2 seconds hs,
          ◌>>=◌,
        )
        refl
  parse_raw_msg-encode aex header b c n s full h _ = refl
  parse_raw_msg-encode (ang uk) header b c n s full h _ = refl
  parse_raw_msg-encode (adi num_cards uk params) header b c n s full (hc, hn, ht, size) _ =
      rw
        (
          load32-mem32 p.order num_cards hc,
          load16-mem16 p.order (length params) hn,
          read_format-encode p num_cards uk params s full ht,
          ◌>>=◌,
        )
        refl
  parse_raw_msg-encode (asy new modified deleted) header b c n s full (hn, hm, hd, size) _ =
      let s1 = after_malloc p (4 * length new.sync_ids) s in
      let s2 = after_malloc p (4 * length modified.sync_ids) s1 in
      rw
        (
          read_list-encode p new (Lists.encode modified ++ Lists.encode deleted) s full hn,
          read_list-encode p modified (Lists.encode deleted) s1 full hm,
          read_list-last p deleted s2 full hd,
          ◌>>=◌,
        )
        refl
  parse_raw_msg-encode (adr uk params) header b c n s full (h, hn, hp, size) readable =
      let k = length params in
      let (block, alloc) = malloc-some p full (k * sizeof_data_param) s.sys in
      let t = after_malloc p (k * sizeof_data_param) s in
      let last : read_params p [] k (Params.encode params) t
          ≡ ok (some (map Params.param params, [])) (after_mallocs p (map length params) t) =
        ap (λ b. read_params p [] k b t) (sym (append-nil (Params.encode params)))
        ∙ read_params-encode p [] params [] t full hp in
      rw
        (
          split_front 2 uk (mem16 little k ++ Params.encode params) h,
          load16_by_long-adr p.order uk params k hn readable,
          alloc,
          load16_by_long-adr p.order uk params k hn readable,
          last,
          ◌>>=◌,
        )
        (rw (load16_by_long-adr p.order uk params k hn readable) refl)
  parse_raw_msg-encode (adw uk num sync_id) header b c n s full (h, k, i) readable =
      rw
        (
          split_front 4 uk (mem16 little num ++ mem32 little sync_id) h,
          load16_by_long-adw p.order uk num sync_id k readable,
          load32-mem32 p.order sync_id i,
          ◌>>=◌,
        )
        refl
