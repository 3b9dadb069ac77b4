-- ===== src/Replies/Adr.antt =====
-- The message that carries the parameters of one item (src/zdtm_adr_msg.c).
pub mod Params
use lib_zdtm_sync.Prelude.{ℕ, zero, suc, ◌*◌, Option, none, some, List, [], ◌∷◌, ◌++◌}
use lib_zdtm_sync.Prelude.Int.{ℤ, pos, negsuc}
use lib_zdtm_sync.Bytes.{load32}
use lib_zdtm_sync.Run.{M, ok, fault, spin, pure, ◌>>=◌}
use lib_zdtm_sync.Env.{State, free}
use lib_zdtm_sync.Platform.{Platform, allocate}
use lib_zdtm_sync.Contents.{Adr, DataParam}
use lib_zdtm_sync.Replies.Reading.{take_bytes, load16_by_long}

-- sizeof(struct zdtm_adr_msg_param) on a 64-bit host.
abbrev pub sizeof_data_param : ℕ
sizeof_data_param = 16

unfoldable pub free_data : {W : Type 0} → List DataParam → M (State W) (Unit {0})
free_data [] = pure tt
free_data (x ∷ xs) = do _ ← free x.param_data; free_data xs

module _ {W : Type 0} (p : Platform W) where
  -- The loop over the parameters. `none` means that malloc failed; the data before is freed.
  unfoldable pub read_params :
      List DataParam → ℕ → List ℕ → M (State W) (Option (List DataParam × List ℕ))
  unfolding free_data
  read_params done zero buf = pure (some (done, buf))
  read_params done (suc n) buf = do
    (size, buf) ← take_bytes 4 buf
    let len = load32 p.order size
    block ← allocate p len
    elim block [
      | none ↦ do _ ← free_data done; pure none
      | some _ ↦ do
        (bytes, buf) ← take_bytes len buf
        read_params (done ++ (record { param_len = len; param_data = some bytes } ∷ [])) n buf
    ]

  unfoldable pub parse_raw_adr_msg : List ℕ → Adr → M (State W) (ℤ × Adr)
  unfolding read_params load16_by_long
  parse_raw_adr_msg buf adr = do
    (uk, buf) ← take_bytes 2 buf
    (num, buf) ← take_bytes 2 buf
    let n = load16_by_long p.order num
    block ← allocate p (n * sizeof_data_param)
    elim block [
      | none ↦ pure (negsuc 0, record { uk = uk; num_params = n; params = none })
      | some m ↦ do
        filled ← read_params [] n buf
        elim filled [
          | none ↦ do
            _ ← free (some m)
            pure (negsuc 1, record { uk = uk; num_params = n; params = some [] })
          | some (params, buf) ↦
              pure (pos 0, record { uk = uk; num_params = n; params = some params })
        ]
    ]
