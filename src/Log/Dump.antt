-- ===== src/Log/Dump.antt =====
-- The dump of a message to the log (_zdtm_dump_msg_log of src/zdtm_log.c).
use lib_zdtm_sync.Log.{write_log}
use lib_zdtm_sync.Requests.{pointee}
use lib_zdtm_sync.Prelude.{
  true, false, ℕ, zero, suc, ◌+◌, ◌-◌, none, some, List, [], ◌∷◌, ◌++◌, if◌then◌else◌, ltb, leb,
  ◌==◌,
}
use lib_zdtm_sync.Prelude.Int.{ℤ, pos, negsuc, nonzero}
use lib_zdtm_sync.Run.{M, spin, pure, undefined, defined, ◌>>=◌, ◌>>◌, return_if, split}
use lib_zdtm_sync.Env.{State}
use lib_zdtm_sync.Platform.{
  Platform, Line, dump_start, header_label, byte_hex, newline, type_line, content_label, offset,
  content_size_line, checksum_line, body_size_line,
}
use lib_zdtm_sync.Message.{Msg}

-- The text in the buffer of 256 bytes and `buff_bytes`, or the code that the function returns.
pub data Text : Type 0 where
  text : List ℕ → ℕ → Text
  stop : ℤ → Text

abbrev pub empty : Text
empty = text [] 0

-- A pointer behind the end of the buffer is no pointer into it.
pub data Cat : Type 0 where
  joined : Text → Cat
  outside : Cat

module _ {W : Type 0} (p : Platform W) where
  -- One snprintf at `buff + buff_bytes` and the two tests behind it.
  abbrev pub cat : Line → Cat → Cat
  cat line outside = outside
  cat line (joined (stop r)) = joined (stop r)
  cat line (joined (text buff used)) =
      if ltb 256 used then outside else elim (p.snprintf line (256 - used)) [
        | none ↦ joined (stop (negsuc 0))
        | some (n, new) ↦
            if n == 256 then joined (stop (negsuc 1)) else joined (text (buff ++ new) (used + n))
      ]

  abbrev pub cat_bytes : List ℕ → Cat → Cat
  cat_bytes [] buff = buff
  cat_bytes (x ∷ xs) buff = cat_bytes xs (cat (byte_hex x) buff)

  -- The text to the file; the code of the function, 0 where it goes on.
  unfoldable pub emit : Cat → M (State W) ℤ
  emit outside = undefined
  emit (joined (stop r)) = pure r
  emit (joined (text buff used)) = do
    r ← write_log p buff used
    pure (if nonzero r then negsuc 2 else pos 0)

  -- The while loop over the content, fifteen bytes a line, from index i on.
  unfoldable pub dump_rows : (fuel : ℕ) (i cont_size : ℕ) (content : List ℕ) → M (State W) ℤ
  dump_rows zero i cont_size content = λ _. spin
  dump_rows (suc fuel) i cont_size content = elim (ltb i cont_size) [
    | false ↦ pure (pos 0)
    | true ↦ do
      let n = if leb 15 (cont_size - i) then 15 else cont_size - i
      (row, rest) ← defined (split n content)
      r ← emit (cat newline (cat_bytes row (cat (offset i) (joined empty))))
      return_if (nonzero r) (pure r)
      dump_rows fuel (i + n) cont_size rest
  ]

  unfoldable pub dump_msg_log : Msg → M (State W) ℤ
  dump_msg_log msg = do
    r ← emit (cat dump_start (joined empty))
    return_if (nonzero r) (pure r)
    r ← emit (cat newline (cat_bytes msg.header (cat header_label (joined empty))))
    return_if (nonzero r) (pure r)
    r ← emit (cat (type_line msg.mtype) (joined empty))
    return_if (nonzero r) (pure r)
    r ← emit (cat content_label (joined empty))
    return_if (nonzero r) (pure r)
    r ← dump_rows (msg.cont_size + 1) 0 msg.cont_size (pointee msg.raw_content)
    return_if (nonzero r) (pure r)
    emit (
        cat (body_size_line msg.body_size) (
          cat (checksum_line msg.check_sum) (cat (content_size_line msg.cont_size) (joined empty))))
