-- ===== src/Bytes/Order.antt =====
-- The wire format is little-endian on every host: what src/zdtm_common.c converts, stores and loads.
use lib_zdtm_sync.Prelude.{ℕ, ◌+◌, ◌*◌, ◌/◌, ◌%◌, ◌<◌, ◌≡◌, [], ◌∷◌, refl, sym, ap, ◌∙◌, arith}
use lib_zdtm_sync.Bytes.{
  Endian, little, big, mem16, mem32, liltobigs, liltobigl, bigtolils, bigtolill, store16, store32,
  load16, load32,
}

-- On either host the conversion to big-endian undoes the conversion to little-endian and back,
-- for every 16-bit and every 32-bit value.
pub swap_involutive :
    (e : Endian) (v w : ℕ)
    → v < 65536
    → w < 4294967296
    → (bigtolils e (liltobigs e v) ≡ v) × (bigtolill e (liltobigl e w) ≡ w)
unfolding bigtolils bigtolill liltobigs liltobigl
swap_involutive little v w hv hw = (omega arith, omega arith)
swap_involutive big v w hv hw = (omega arith, omega arith)

liltobigs-reverses : (e : Endian) (v : ℕ) → v < 65536 → liltobigs e v ≡ v / 256 + 256 * (v % 256)
unfolding liltobigs
liltobigs-reverses little v h = omega arith
liltobigs-reverses big v h = omega arith

liltobigl-reverses :
    (e : Endian) (w : ℕ)
    → w < 4294967296
    → liltobigl e w
      ≡ w / 16777216 + 256 * (w / 65536 % 256) + 65536 * (w / 256 % 256) + 16777216 * (w % 256)
unfolding liltobigl
liltobigl-reverses little w h = omega arith
liltobigl-reverses big w h = omega arith

-- What a store writes is the little-endian representation, on either host.
pub store16-little : (e : Endian) (v : ℕ) → store16 e v ≡ mem16 little v
unfolding store16
store16-little little v = refl
store16-little big v = ground arith

pub store32-little : (e : Endian) (v : ℕ) → store32 e v ≡ mem32 little v
unfolding store32
store32-little little v = refl
store32-little big v = ground arith

-- On either host, a 16-bit number that is stored for the wire is loaded back as it was.
pub load16-store16 : (e : Endian) (v : ℕ) → v < 65536 → load16 e (store16 e v) ≡ v
unfolding store16 load16
load16-store16 little v h = omega arith
load16-store16 big v h = omega arith

-- On either host, a 32-bit number that is stored for the wire is loaded back as it was.
pub load32-store32 : (e : Endian) (v : ℕ) → v < 4294967296 → load32 e (store32 e v) ≡ v
unfolding store32 load32
load32-store32 little v h = omega arith
load32-store32 big v h = omega arith

-- A load undoes the little-endian representation, on either host.
pub load16-mem16 : (e : Endian) (v : ℕ) → v < 65536 → load16 e (mem16 little v) ≡ v
load16-mem16 e v h = ap (load16 e) (sym (store16-little e v)) ∙ load16-store16 e v h

pub load32-mem32 : (e : Endian) (v : ℕ) → v < 4294967296 → load32 e (mem32 little v) ≡ v
load32-mem32 e v h = ap (load32 e) (sym (store32-little e v)) ∙ load32-store32 e v h

-- On either host, the conversions reverse the bytes of a 16-bit and of a 32-bit number, and those to
-- big-endian undo those to little-endian; what is stored for the wire is the number with its lowest
-- byte first, and it is loaded back as it was.
pub load-store :
    (e : Endian) (v w : ℕ)
    → v < 65536
    → w < 4294967296
    → (liltobigs e v ≡ v / 256 + 256 * (v % 256))
      × (liltobigl e w
          ≡ w / 16777216 + 256 * (w / 65536 % 256) + 65536 * (w / 256 % 256) + 16777216 * (w % 256))
      × (bigtolils e (liltobigs e v) ≡ v)
      × (bigtolill e (liltobigl e w) ≡ w)
      × (store16 e v ≡ v % 256 ∷ v / 256 % 256 ∷ [])
      × (store32 e w ≡ w % 256 ∷ w / 256 % 256 ∷ w / 65536 % 256 ∷ w / 16777216 % 256 ∷ [])
      × (load16 e (store16 e v) ≡ v)
      × (load32 e (store32 e w) ≡ w)
load-store e v w hv hw =
    let (short, long) = swap_involutive e v w hv hw in
    (
      liltobigs-reverses e v hv,
      liltobigl-reverses e w hw,
      short,
      long,
      store16-little e v,
      store32-little e w,
      load16-store16 e v hv,
      load32-store32 e w hw,
    )
