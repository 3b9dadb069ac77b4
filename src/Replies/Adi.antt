-- ===== src/Replies/Adi.antt =====
-- The message that describes the parameters of an item (src/zdtm_adi_msg.c).
pub mod Texts
use lib_zdtm_sync.Prelude.{ℕ, zero, suc, ◌*◌, Option, none, some, List, [], ◌∷◌, ◌++◌}
use lib_zdtm_sync.Prelude.Int.{ℤ, pos, negsuc}
use lib_zdtm_sync.Bytes.{load16, load32}
use lib_zdtm_sync.Run.{M, pure, ◌>>=◌}
use lib_zdtm_sync.Env.{State, FormatParam, free}
use lib_zdtm_sync.Platform.{Platform, allocate}
use lib_zdtm_sync.Contents.{Adi}
use lib_zdtm_sync.Replies.Reading.{take_bytes, take_byte}

-- sizeof(struct zdtm_adi_msg_param) on a 64-bit host.
abbrev pub sizeof_format_param : ℕ
sizeof_format_param = 16

module _ {W : Type 0} where
  -- First loop: the abbreviations. The rest of each new entry is not set yet.
  unfoldable pub read_abrevs : ℕ → List ℕ → M (State W) (List FormatParam × List ℕ)
  read_abrevs zero buf = pure ([], buf)
  read_abrevs (suc n) buf = do
    (abrev, buf) ← take_bytes 4 buf
    (rest, buf) ← read_abrevs n buf
    pure (record { abrev = abrev; type_id = 0; desc_len = 0; desc = none } ∷ rest, buf)

  -- Second loop: the type ids.
  unfoldable pub read_type_ids : List FormatParam → List ℕ → M (State W) (List FormatParam × List ℕ)
  read_type_ids [] buf = pure ([], buf)
  read_type_ids (x ∷ xs) buf = do
    (id, buf) ← take_byte buf
    (rest, buf) ← read_type_ids xs buf
    pure (record x { type_id = id } ∷ rest, buf)

  unfoldable pub free_descs : List FormatParam → M (State W) (Unit {0})
  free_descs [] = pure tt
  free_descs (x ∷ xs) = do _ ← free x.desc; free_descs xs

module _ {W : Type 0} (p : Platform W) where
  -- Third loop: the descriptions. `none` means that malloc failed; the descriptions before are freed.
  unfoldable pub read_descs :
      List FormatParam
      → List FormatParam
      → List ℕ
      → M (State W) (Option (List FormatParam × List ℕ))
  unfolding free_descs
  read_descs done [] buf = pure (some (done, buf))
  read_descs done (x ∷ xs) buf = do
    (size, buf) ← take_bytes 2 buf
    let len = load16 p.order size
    block ← allocate p len
    elim block [
      | none ↦ do _ ← free_descs done; pure none
      | some _ ↦ do
        (text, buf) ← take_bytes len buf
        read_descs (done ++ (record x { desc_len = len; desc = some text } ∷ [])) xs buf
    ]

  -- The array of n parameters: its block, and the three loops.
  unfoldable pub read_format : (cards n uk : ℕ) → List ℕ → M (State W) (ℤ × Adi)
  read_format cards n uk buf = do
    block ← allocate p (n * sizeof_format_param)
    elim block [
      | none ↦
          pure
            (negsuc 0, record { num_cards = cards; num_params = n; uk_data_0 = uk; params = none })
      | some m ↦ do
        (params, buf) ← read_abrevs n buf
        (params, buf) ← read_type_ids params buf
        described ← read_descs [] params buf
        elim described [
          | none ↦ do
            _ ← free (some m)
            pure (
              negsuc 1,
              record { num_cards = cards; num_params = n; uk_data_0 = uk; params = some params },
            )
          | some (params, buf) ↦ pure (
            pos 0,
            record { num_cards = cards; num_params = n; uk_data_0 = uk; params = some params },
          )
        ]
    ]

  unfoldable pub parse_raw_adi_msg : List ℕ → Adi → M (State W) (ℤ × Adi)
  parse_raw_adi_msg buf adi = do
    (cards, buf) ← take_bytes 4 buf
    (num, buf) ← take_bytes 2 buf
    (uk, buf) ← take_byte buf
    read_format (load32 p.order cards) (load16 p.order num) uk buf
