-- ===== src/Replies.antt =====
-- The messages that the Zaurus sends: the parse function of each kind (src/zdtm_aay_msg.c,
-- zdtm_aig_msg.c, zdtm_amg_msg.c, zdtm_atg_msg.c, zdtm_ang_msg.c, zdtm_adw_msg.c; the children have
-- zdtm_adi_msg.c, zdtm_adr_msg.c and zdtm_asy_msg.c). Each takes the raw content and the struct to
-- fill, and returns its code and the struct.
mod Reading
pub mod Adi
pub mod Adr
pub mod Asy
pub mod KeepsEnv
pub mod Format
pub mod Kinds
unfoldable pub use Reading.*
use lib_zdtm_sync.Prelude.{ℕ, ◌%◌, Option, none, some, List, [], ◌∷◌}
use lib_zdtm_sync.Prelude.Int.{ℤ, pos, negsuc}
use lib_zdtm_sync.Bytes.{Endian, little, big, load16, load32, val16, val32, liltobigl}
use lib_zdtm_sync.Run.{M, ok, fault, spin, pure, ◌>>=◌}
use lib_zdtm_sync.Env.{State}
use lib_zdtm_sync.Platform.{Platform, allocate}
use lib_zdtm_sync.Contents.{Aay, Aig, Amg, Atg, Ang, Adw}

module _ {W : Type 0} (p : Platform W) where
  unfoldable pub parse_raw_aay_msg : List ℕ → Aay → M (State W) (ℤ × Aay)
  parse_raw_aay_msg buf aay = do
    (uk, buf) ← take_bytes 3 buf
    pure (pos 0, record aay { uk_data_0 = uk })

  unfoldable pub parse_raw_aig_msg : List ℕ → Aig → M (State W) (ℤ × Aig)
  parse_raw_aig_msg buf aig = do
    (size, buf) ← take_bytes 2 buf
    let len = load16 p.order size
    block ← allocate p len
    elim block [
      | none ↦ pure (negsuc 0, record aig { model_str_len = len; model_str = none })
      | some _ ↦ do
        (model, buf) ← take_bytes len buf
        (uk0, buf) ← take_bytes 5 buf
        (lang, buf) ← take_bytes 2 buf
        (auth, buf) ← take_byte buf
        (uk1, buf) ← take_bytes 6 buf
        pure (
          pos 0,
          record {
            model_str_len = len;
            model_str = some model;
            uk_data_0 = uk0;
            language = lang;
            auth_state = auth;
            uk_data_1 = uk1;
          },
        )
    ]

  unfoldable pub parse_raw_amg_msg : List ℕ → Amg → M (State W) (ℤ × Amg)
  parse_raw_amg_msg buf amg = do
    (sl, buf) ← take_bytes 2 buf
    (flags, buf) ← take_byte buf
    (uk, buf) ← take_bytes 46 buf
    pure (pos 0, record { sl = sl; fullsync_flags = flags; uk = uk })

  unfoldable pub parse_raw_atg_msg : List ℕ → Atg → M (State W) (ℤ × Atg)
  parse_raw_atg_msg buf atg = do
    (year, buf) ← take_bytes 4 buf
    (month, buf) ← take_bytes 2 buf
    (day, buf) ← take_bytes 2 buf
    (hour, buf) ← take_bytes 2 buf
    (minutes, buf) ← take_bytes 2 buf
    (seconds, buf) ← take_bytes 2 buf
    pure (
      pos 0,
      record {
        year = year;
        month = month;
        day = day;
        hour = hour;
        minutes = minutes;
        seconds = seconds;
      },
    )

  unfoldable pub parse_raw_ang_msg : List ℕ → Ang → M (State W) (ℤ × Ang)
  parse_raw_ang_msg buf ang = do
    (uk, buf) ← take_byte buf
    pure (pos 0, record ang { uk_data_0 = uk })

  -- A big-endian build passes the uint16_t through the conversion of a uint32_t, and keeps the low
  -- half of the result.
  unfoldable pub parse_raw_adw_msg : List ℕ → Adw → M (State W) (ℤ × Adw)
  parse_raw_adw_msg buf adw = do
    (uk, buf) ← take_bytes 4 buf
    (num, buf) ← take_bytes 2 buf
    (id, buf) ← take_bytes 4 buf
    pure (
      pos 0,
      record { uk = uk; num_sync_ids = load16_by_long p.order num; sync_id = load32 p.order id },
    )
