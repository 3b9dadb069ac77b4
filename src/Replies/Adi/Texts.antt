-- ===== src/Replies/Adi/Texts.antt =====
-- The three loops of zdtm_parse_raw_adi_msg over an independent description of their bytes.
use lib_zdtm_sync.Prelude.{
  ℕ, suc, ◌*◌, ◌<◌, ◌≡◌, refl, sym, ap, ◌∙◌, none, some, List, [], ◌∷◌, ◌++◌, map, length,
}
use lib_zdtm_sync.Prelude.Int.{pos}
use lib_zdtm_sync.Bytes.{little, mem16}
use lib_zdtm_sync.Bytes.Order.{load16-mem16}
use lib_zdtm_sync.Run.{ok, split_front, ◌>>=◌}
use lib_zdtm_sync.Env.{State, FormatParam}
use lib_zdtm_sync.Platform.{Platform, NeverFull}
use lib_zdtm_sync.Platform.Blocks.{after_malloc, after_mallocs, malloc-some}
use lib_zdtm_sync.Replies.Adi.{
  sizeof_format_param, read_abrevs, read_type_ids, read_descs, read_format,
}
use mathlib.Core.List.{append-nil, append_assoc}

-- A parameter of an item as the device describes it.
pub record Text : Type 0 where
  pub abrev : List ℕ
  pub type_id : ℕ
  pub desc : List ℕ

-- The bytes of a list of them: all abbreviations, then all type ids, then each description behind
-- its length.
abbrev pub abrevs : List Text → List ℕ
abrevs [] = []
abrevs (x ∷ xs) = x.abrev ++ abrevs xs

abbrev pub type_ids : List Text → List ℕ
type_ids [] = []
type_ids (x ∷ xs) = x.type_id ∷ type_ids xs

abbrev pub descs : List Text → List ℕ
descs [] = []
descs (x ∷ xs) = mem16 little (length x.desc) ++ (x.desc ++ descs xs)

abbrev pub encode : List Text → List ℕ
encode xs = abrevs xs ++ (type_ids xs ++ descs xs)

-- Abbreviations of four bytes and descriptions whose lengths fit the size field.
abbrev pub AreTexts : List Text → Type 0
AreTexts [] = Unit
AreTexts (x ∷ xs) = (length x.abrev ≡ 4) × (length x.desc < 65536) × AreTexts xs

abbrev blank : Text → FormatParam
blank x = record { abrev = x.abrev; type_id = 0; desc_len = 0; desc = none }

abbrev typed : Text → FormatParam
typed x = record { abrev = x.abrev; type_id = x.type_id; desc_len = 0; desc = none }

abbrev pub param : Text → FormatParam
param x = record {
  abrev = x.abrev;
  type_id = x.type_id;
  desc_len = length x.desc;
  desc = some x.desc;
}

-- The room that the parse asks for: the array, and each description.
abbrev pub rooms : List Text → List ℕ
rooms [] = []
rooms (x ∷ xs) = length x.desc ∷ rooms xs

module _ {W : Type 0} where
  read_abrevs-encode :
      (xs : List Text) (rest : List ℕ) (s : State W)
      → AreTexts xs
      → read_abrevs (length xs) (abrevs xs ++ rest) s ≡ ok (map blank xs, rest) s
  unfolding read_abrevs
  read_abrevs-encode [] rest s h = refl
  read_abrevs-encode (x ∷ xs) rest s (four, fits, hs) =
      ap (λ b. read_abrevs (suc (length xs)) b s) (append_assoc x.abrev (abrevs xs) rest)
      ∙ rw
          (
            split_front 4 x.abrev (abrevs xs ++ rest) four,
            read_abrevs-encode xs rest s hs,
            read_abrevs,
            ◌>>=◌,
          )
          refl

  read_type_ids-encode :
      (xs : List Text) (rest : List ℕ) (s : State W)
      → read_type_ids (map blank xs) (type_ids xs ++ rest) s ≡ ok (map typed xs, rest) s
  unfolding read_type_ids
  read_type_ids-encode [] rest s = refl
  read_type_ids-encode (x ∷ xs) rest s =
      rw (read_type_ids-encode xs rest s, read_type_ids, ◌>>=◌) refl

module _ {W : Type 0} (p : Platform W) where
  read_descs-round :
      (done : List FormatParam) (x : Text) (xs : List FormatParam) (rest : List ℕ) (s : State W)
      → NeverFull p
      → length x.desc < 65536
      → read_descs p done (typed x ∷ xs) (mem16 little (length x.desc) ++ (x.desc ++ rest)) s
        ≡ read_descs p (done ++ (param x ∷ [])) xs rest (after_malloc p (length x.desc) s)
  unfolding read_descs
  read_descs-round done x xs rest s full h =
      let n = length x.desc in
      let (block, alloc) = malloc-some p full n s.sys in
      rw
        (
          load16-mem16 p.order n h,
          alloc,
          load16-mem16 p.order n h,
          split_front n x.desc rest refl,
          read_descs,
          ◌>>=◌,
        )
        (rw (load16-mem16 p.order n h) refl)

  read_descs-encode :
      (done : List FormatParam) (xs : List Text) (rest : List ℕ) (s : State W)
      → NeverFull p
      → AreTexts xs
      → read_descs p done (map typed xs) (descs xs ++ rest) s
        ≡ ok (some (done ++ map param xs, rest)) (after_mallocs p (rooms xs) s)
  unfolding read_descs
  read_descs-encode done [] rest s full h =
      ap (λ xs. ok (some (xs, rest)) s) (sym (append-nil done))
  read_descs-encode done (x ∷ xs) rest s full (four, fits, hs) =
      ap (λ b. read_descs p done (map typed (x ∷ xs)) (mem16 little (length x.desc) ++ b) s)
        (append_assoc x.desc (descs xs) rest)
      ∙ read_descs-round done x (map typed xs) (descs xs ++ rest) s full fits
      ∙ read_descs-encode (done ++ (param x ∷ [])) xs rest (after_malloc p (length x.desc) s) full
          hs
      ∙ ap (λ ys. ok (some (ys, rest)) (after_mallocs p (rooms (x ∷ xs)) s))
          (append_assoc done (param x ∷ []) (map param xs))

  -- The loops read back every list of descriptions, and allocate the array and a block for each of
  -- them.
  pub read_format-encode :
      (cards uk : ℕ) (xs : List Text) (s : State W)
      → NeverFull p
      → AreTexts xs
      → read_format p cards (length xs) uk (encode xs) s
        ≡ ok
            (
              pos 0,
              record {
                num_cards = cards;
                num_params = length xs;
                uk_data_0 = uk;
                params = some (map param xs);
              },
            )
            (after_mallocs p (length xs * sizeof_format_param ∷ rooms xs) s)
  unfolding read_format
  read_format-encode cards uk xs s full h =
      let n = length xs * sizeof_format_param in
      let (block, alloc) = malloc-some p full n s.sys in
      let t = after_malloc p n s in
      let last : read_descs p [] (map typed xs) (descs xs) t
          ≡ ok (some (map param xs, [])) (after_mallocs p (rooms xs) t) =
        ap (λ b. read_descs p [] (map typed xs) b t) (sym (append-nil (descs xs)))
        ∙ read_descs-encode [] xs [] t full h in
      rw
        (
          alloc,
          read_abrevs-encode xs (type_ids xs ++ descs xs) t h,
          read_type_ids-encode xs (descs xs) t,
          last,
          read_format,
          ◌>>=◌,
        )
        refl
