-- ===== src/Hdlc/Encode.antt =====
-- What `hdlc_encode` puts on the wire.
use diag.Base.{
  ℕ, ◌+◌, ◌-◌, ◌*◌, ◌/◌, ◌%◌, ◌≤◌, ◌<◌, ◌≡◌, ap, ◌≢◌, inl, inr, List, [], ◌∷◌, ◌++◌, append_assoc,
  arith, ◌==◌, ==_iff, Bool-cases, length, length-append, All, All-append,
}
use diag.Hdlc.{hdlc_crc_byte, hdlc_escape_byte, hdlc_encode_from, hdlc_encode}
use diag.Hdlc.Crc.{crc_from, check_bytes, IsByte}

-- The bytes between the flags, escaped.
unfoldable pub escaped : List ℕ → List ℕ
escaped [] = []
escaped (s ∷ src) = hdlc_escape_byte s ++ escaped src

-- A frame is its bytes and their check sequence, escaped, and one flag.
pub hdlc_encode_from-escaped :
    (crc : ℕ) (src : List ℕ)
    → hdlc_encode_from crc src ≡ escaped (src ++ check_bytes (crc_from crc src)) ++ (0x7e ∷ [])
unfolding hdlc_encode_from escaped crc_from
hdlc_encode_from-escaped crc [] = simp append_assoc
hdlc_encode_from-escaped crc (s ∷ src) =
    simp (hdlc_encode_from-escaped (hdlc_crc_byte crc s) src, append_assoc)

length-escape_byte : (s : ℕ) → length (hdlc_escape_byte s) ≤ 2
unfolding hdlc_escape_byte
length-escape_byte s = ground arith

escape_byte-nonempty : (s : ℕ) → 1 ≤ length (hdlc_escape_byte s)
unfolding hdlc_escape_byte
escape_byte-nonempty s = ground arith

pub length-escaped : (src : List ℕ) → length src ≤ length (escaped src)
unfolding escaped
length-escaped [] = omega arith
length-escaped (s ∷ src) = omega (
  arith,
  length-append {0} (hdlc_escape_byte s) (escaped src),
  escape_byte-nonempty s,
  length-escaped src,
)

length-hdlc_encode_from :
    (crc : ℕ) (src : List ℕ) → length (hdlc_encode_from crc src) ≤ (length src + 2) * 2 + 1
unfolding hdlc_encode_from
length-hdlc_encode_from crc [] = omega (
  arith,
  length-append {0} (hdlc_escape_byte (255 - crc % 256))
      (hdlc_escape_byte (255 - crc / 256 % 256) ++ (0x7e ∷ [])),
  length-append {0} (hdlc_escape_byte (255 - crc / 256 % 256)) (0x7e ∷ []),
  length-escape_byte (255 - crc % 256),
  length-escape_byte (255 - crc / 256 % 256),
)
length-hdlc_encode_from crc (s ∷ src) = omega (
  arith,
  length-append {0} (hdlc_escape_byte s) (hdlc_encode_from (hdlc_crc_byte crc s) src),
  length-escape_byte s,
  length-hdlc_encode_from (hdlc_crc_byte crc s) src,
)

-- The frame fits the `(slen + 2) * 2 + 1` bytes that `hdlc_encode` allocates.
pub length-hdlc_encode : (src : List ℕ) → length (hdlc_encode src) ≤ (length src + 2) * 2 + 1
unfolding hdlc_encode
length-hdlc_encode src = length-hdlc_encode_from 0xffff src

pub length-hdlc_encode_pos : (src : List ℕ) → 1 ≤ length (hdlc_encode src)
unfolding hdlc_encode
length-hdlc_encode_pos src = omega (
  arith,
  ap (length {0}) (hdlc_encode_from-escaped 0xffff src),
  length-append {0} (escaped (src ++ check_bytes (crc_from 0xffff src))) (0x7e ∷ []),
)

-- A byte that may stand inside a frame.
abbrev pub IsPlain : ℕ → Type 0
IsPlain b = (b < 256) × (b ≢ 0x7e)

hdlc_escape_byte-IsPlain : (s : ℕ) → IsByte s → All IsPlain (hdlc_escape_byte s)
unfolding hdlc_escape_byte
hdlc_escape_byte-IsPlain s h = elim (Bool-cases (s == 0x7d)) [
  | inl e ↦ rw ((==_iff s 0x7d).0 e) (omega arith)
  | inr ne ↦ elim (Bool-cases (s == 0x7e)) [
    | inl e ↦ rw ((==_iff s 0x7e).0 e) (omega arith)
    | inr ne' ↦ rw (ne, ne') (ground arith)
  ]
]

escaped-IsPlain : (src : List ℕ) → All IsByte src → All IsPlain (escaped src)
unfolding escaped
escaped-IsPlain [] h = tt
escaped-IsPlain (s ∷ src) h =
    All-append IsPlain (hdlc_escape_byte s) (escaped src) (hdlc_escape_byte-IsPlain s h.0)
      (escaped-IsPlain src h.1)

check_bytes-IsByte : (crc : ℕ) → All IsByte (check_bytes crc)
check_bytes-IsByte crc = omega arith

-- Over bytes, the frame is bytes other than the flag, and then one flag.
pub hdlc_encode_delimits :
    (src : List ℕ)
    → All IsByte src
    → (body : List ℕ) × (hdlc_encode src ≡ body ++ (0x7e ∷ [])) × All IsPlain body
unfolding hdlc_encode
hdlc_encode_delimits src h = (
  escaped (src ++ check_bytes (crc_from 0xffff src)),
  hdlc_encode_from-escaped 0xffff src,
  escaped-IsPlain _ (
      All-append IsByte src (check_bytes (crc_from 0xffff src)) h
        (check_bytes-IsByte (crc_from 0xffff src))),
)
