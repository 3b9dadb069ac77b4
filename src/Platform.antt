-- ===== src/Platform.antt =====
-- What the library calls and does not implement: the allocator, the sockets, the log file and the
-- clock of the C library and of the operating system, as functions on the state W of the world.
pub mod Blocks
use lib_zdtm_sync.Prelude.{ℕ, ◌+◌, ◌≡◌, ◌≢◌, Option, none, some, List, length}
use lib_zdtm_sync.Prelude.Int.{ℤ}
use lib_zdtm_sync.Bytes.{Endian}
use lib_zdtm_sync.Run.{M, ok}
use lib_zdtm_sync.Env.{State}

-- struct tm, the fields that the library reads or sets.
pub record Tm : Type 0 where
  pub year : ℤ
  pub mon : ℤ
  pub mday : ℤ
  pub hour : ℤ
  pub min : ℤ
  pub sec : ℤ
  pub isdst : ℤ

-- The calls of snprintf that make a line of the log, each with the arguments of its format.
pub data Line : Type 0 where
  error_line : List ℕ → ℤ → Line
  dump_start header_label newline content_label : Line
  byte_hex offset : ℕ → Line
  type_line : List ℕ → Line
  content_size_line checksum_line body_size_line : ℕ → Line

pub record Platform (W : Type 0) : Type 0 where
  pub order : Endian
  -- How many rounds of a send loop the model follows.
  pub send_rounds : ℕ
  -- A new block with its first contents, or NULL.
  pub malloc : ℕ → W → Option (List ℕ) × W
  -- The bytes that arrived, none of them at the end of the stream; `none` is SOCKET_ERROR.
  pub recv : ℤ → ℕ → W → Option (List ℕ) × W
  -- How many of the bytes were taken; `none` is a negative result.
  pub send : ℤ → List ℕ → W → Option ℕ × W
  pub socket : W → ℤ × W
  pub setsockopt : ℤ → W → ℤ × W
  pub bind : ℤ → ℕ → W → ℤ × W
  pub listen : ℤ → ℕ → W → ℤ × W
  pub accept : ℤ → W → ℤ × W
  pub close : ℤ → W → ℤ × W
  -- inet_pton, with the address that it stores.
  pub inet_pton : List ℕ → W → (ℤ × List ℕ) × W
  pub connect : ℤ → List ℕ → ℕ → W → ℤ × W
  -- What snprintf returns (`none` is a negative result) and the bytes that it stores in the space
  -- given, with the closing NUL where the text is cut.
  pub snprintf : Line → ℕ → Option (ℕ × List ℕ)
  pub fwrite : ℕ → List ℕ → W → ℕ × W
  pub fflush : ℕ → W → ℤ × W
  pub fclose : ℕ → W → ℤ × W
  pub getenv_home : W → Option (List ℕ) × W
  pub fopen : List ℕ → W → Option ℕ × W
  pub time : W → ℤ × W
  pub localtime_r : ℤ → W → Option Tm × W
  pub mktime : Tm → W → ℤ × W
  pub atoi : List ℕ → ℤ
  -- snprintf of "%.4d%.2d%.2d%.2d%.2d%.2d" into 15 bytes: what it returns and the 15 bytes after it.
  pub format_time : Tm → Option (ℕ × List ℕ)

module _ {W : Type 0} (p : Platform W) where
  -- `malloc(n)`, with the block counted.
  abbrev pub allocate : ℕ → M (State W) (Option (List ℕ))
  allocate n s =
      let (b, w) = p.malloc n s.sys in
      elim b [
        | none ↦ ok none (record s { sys = w })
        | some m ↦ ok (some m) (record s { sys = w; blocks = s.blocks + 1 })
      ]

  -- What malloc documents: a block has the size asked for.
  pub record AllocatesExactly : Type 0 where
    pub size : (n : ℕ) (w : W) (b : List ℕ) → (p.malloc n w).0 ≡ some b → length b ≡ n

  -- Memory does not run out.
  pub record NeverFull : Type 0 where
    pub allocated : (n : ℕ) (w : W) → (p.malloc n w).0 ≢ none
