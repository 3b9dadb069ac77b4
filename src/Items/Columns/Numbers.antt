-- ===== src/Items/Columns/Numbers.antt =====
-- Numbers of an item, which the code copies as they are: a little-endian host reads them.
use lib_zdtm_sync.Prelude.{ℕ, ◌<◌, ◌≡◌, ap, arith}
use lib_zdtm_sync.Bytes.{Endian, little, mem16, mem32}
use lib_zdtm_sync.Run.{ok}
use lib_zdtm_sync.Env.{State}
use lib_zdtm_sync.Replies.Adr.Params
use lib_zdtm_sync.Items.Copy.{copy_u16, copy_u32}

pub copy_u16-little :
    {W : Type 0} (e : Endian) (value field : ℕ) (s : State W)
    → e ≡ little
    → value < 65536
    → copy_u16 e (Params.param (mem16 little value)) field s ≡ ok value s
copy_u16-little e value field s is_little h = rw is_little (ap (λ n. ok n s) (omega arith))

pub copy_u32-little :
    {W : Type 0} (e : Endian) (value field : ℕ) (s : State W)
    → e ≡ little
    → value < 4294967296
    → copy_u32 e (Params.param (mem32 little value)) field s ≡ ok value s
copy_u32-little e value field s is_little h = rw is_little (ap (λ n. ok n s) (omega arith))
