-- ===== src/Log/Bounds.antt =====
-- That no line of the dump of a message outgrows the buffer that it is made in
-- (_zdtm_dump_msg_log of src/zdtm_log.c).
use lib_zdtm_sync.Prelude.{
  ℕ, ◌+◌, ◌*◌, ◌-◌, ◌≤◌, ◌≡◌, refl, some, List, [], ◌∷◌, ◌++◌, length, Option-cases, inl, inr,
  length-append, arith,
}
use lib_zdtm_sync.Platform.{
  Platform, Line, error_line, dump_start, header_label, byte_hex, newline, type_line, content_label,
  offset, content_size_line, checksum_line, body_size_line,
}
use lib_zdtm_sync.Message.{Msg}
use lib_zdtm_sync.Log.Dump.{Cat, joined, outside, text, stop, empty, cat, cat_bytes}

-- The longest text that the format of a line makes, with %d, %u and %x of 32 bits.
abbrev pub width : Line → ℕ
width (error_line func_name err) = length func_name + 21
width dump_start = 25
width header_label = 8
width newline = 1
width content_label = 15
width (byte_hex x) = 5
width (offset i) = 13
width (type_line mtype) = 62
width (content_size_line n) = 55
width (checksum_line n) = 51
width (body_size_line n) = 53

module _ {W : Type 0} (p : Platform W) where
  -- What snprintf documents: it returns the length of the text, and stores all of it where there is
  -- room for it and the NUL.
  pub record Prints : Type 0 where
    pub within :
        (l : Line) (size n : ℕ) (b : List ℕ) → p.snprintf l size ≡ some (n, b) → n ≤ width l
    pub stored :
        (l : Line) (size n : ℕ) (b : List ℕ)
        → p.snprintf l size ≡ some (n, b)
        → n + 1 ≤ size
        → length b ≡ n

  -- a text of n bytes at most, all of them in the buffer
  unfoldable pub Fits : ℕ → Cat → Type 0
  Fits n outside = ⊥
  Fits n (joined (stop r)) = Unit {0}
  Fits n (joined (text b used)) = (used ≤ n) × (length b ≡ used)

  empty-Fits : Fits 0 (joined empty)
  unfolding Fits
  empty-Fits = (omega arith, refl)

  Fits-≤ : (n m : ℕ) (c : Cat) → n ≤ m → Fits n c → Fits m c
  unfolding Fits
  Fits-≤ n m outside h f = elim f [ ]
  Fits-≤ n m (joined (stop r)) h f = tt
  Fits-≤ n m (joined (text b used)) h f = (omega (arith, f.0), f.1)

  cat-Fits :
      (l : Line) (n : ℕ) (c : Cat)
      → Prints
      → n + width l ≤ 255
      → Fits n c
      → Fits (n + width l) (cat p l c)
  unfolding Fits
  cat-Fits l n outside h room f = elim f [ ]
  cat-Fits l n (joined (stop r)) h room f = tt
  cat-Fits l n (joined (text b used)) h room f = elim (Option-cases (p.snprintf l (256 - used))) [
    | inl e ↦ ground arith
    | inr ((k, new), e) ↦
        let most : k ≤ width l = h.within l (256 - used) k new e in
        let size : length new ≡ k = h.stored l (256 - used) k new e (omega (arith, f.0)) in
        let total : length (b ++ new) ≡ used + k = omega (arith, length-append b new, f.1) in
        ground arith
  ]

  cat_bytes-Fits :
      (xs : List ℕ) (n : ℕ) (c : Cat)
      → Prints
      → n + 5 * length xs ≤ 255
      → Fits n c
      → Fits (n + 5 * length xs) (cat_bytes p xs c)
  cat_bytes-Fits [] n c h room f = Fits-≤ _ _ _ (omega arith) f
  cat_bytes-Fits (x ∷ xs) n c h room f = Fits-≤ _ _ _ (omega arith) (
      cat_bytes-Fits xs (n + 5) (cat p (byte_hex x) c) h (omega arith)
        (cat-Fits (byte_hex x) n c h (omega arith) f))

  pub row-Fits :
      (i : ℕ) (row : List ℕ)
      → Prints
      → length row ≤ 15
      → Fits 89 (cat p newline (cat_bytes p row (cat p (offset i) (joined empty))))
  row-Fits i row h size = Fits-≤ (0 + 13 + 5 * length row + 1) 89 _ (omega arith) (
      cat-Fits newline (0 + 13 + 5 * length row) _ h (omega arith) (
        cat_bytes-Fits row (0 + 13) _ h (omega arith)
          (cat-Fits (offset i) 0 _ h (omega arith) empty-Fits)))

  pub line-Fits : (l : Line) → Prints → width l ≤ 255 → Fits (width l) (cat p l (joined empty))
  line-Fits l h room =
      Fits-≤ (0 + width l) (width l) _ (omega arith) (cat-Fits l 0 _ h (omega arith) empty-Fits)

  pub header-Fits :
      (header : List ℕ)
      → Prints
      → length header ≡ 13
      → Fits 74 (cat p newline (cat_bytes p header (cat p header_label (joined empty))))
  header-Fits header h size = Fits-≤ (8 + 5 * length header + 1) 74 _ (omega arith) (
      cat-Fits newline (8 + 5 * length header) _ h (omega arith)
        (cat_bytes-Fits header 8 _ h (omega arith) (line-Fits header_label h (omega arith))))

  pub sizes-Fits :
      (m : Msg)
      → Prints
      → Fits 159 (
          cat p (body_size_line m.body_size) (
            cat p
              (checksum_line m.check_sum)
              (cat p (content_size_line m.cont_size) (joined empty))))
  sizes-Fits m h = cat-Fits (body_size_line m.body_size) 106 _ h (omega arith) (
      cat-Fits (checksum_line m.check_sum) 55 _ h (omega arith)
        (line-Fits (content_size_line m.cont_size) h (omega arith)))
