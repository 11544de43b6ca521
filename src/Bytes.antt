-- ===== src/Bytes.antt =====
-- Little-endian fields of packed structures, and reads of them at an offset.
use diag.Base.{ℕ, ◌+◌, ◌*◌, ◌/◌, ◌%◌, ◌^◌, List, [], ◌∷◌, get_or, replicate}

abbrev pub u8 : ℕ → ℕ
u8 n = n % 2 ^ 8

abbrev pub u16 : ℕ → ℕ
u16 n = n % 2 ^ 16

abbrev pub u32 : ℕ → ℕ
u32 n = n % 2 ^ 32

abbrev pub Bytes : Type 0
Bytes = List ℕ

-- The bytes of a `uint16_t` and of a `uint32_t` in memory.
unfoldable pub le16 : ℕ → Bytes
le16 n = (n % 256) ∷ (n / 256 % 256) ∷ []

unfoldable pub le32 : ℕ → Bytes
le32 n = (n % 256) ∷ (n / 256 % 256) ∷ (n / 65536 % 256) ∷ (n / 16777216 % 256) ∷ []

-- A byte of a buffer; the callers state where a buffer ends.
abbrev pub byte_at : Bytes → ℕ → ℕ
byte_at buf i = get_or buf i 0

unfoldable pub get16 : Bytes → ℕ → ℕ
get16 buf i = byte_at buf i + byte_at buf (i + 1) * 256

unfoldable pub get32 : Bytes → ℕ → ℕ
get32 buf i =
    byte_at buf i
    + byte_at buf (i + 1) * 256
    + byte_at buf (i + 2) * 65536
    + byte_at buf (i + 3) * 16777216

-- `BITS_TO_BYTES`
unfoldable pub bits_to_bytes : ℕ → ℕ
bits_to_bytes n = (n + 7) / 8

unfoldable pub zeros : ℕ → Bytes
zeros n = replicate n 0
