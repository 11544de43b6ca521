-- ===== src/Hdlc/Tests.antt =====
-- The theorems on frames at small messages.
use diag.Base.{ℕ, ◌<◌, bit_xor, ◌≡◌, refl, List, [], ◌∷◌, ◌++◌, arith, length, length-append, All}
use diag.CircBuf.Tests.{filled, filled-IsValid, unread-filled}
use diag.CircBuf.Inv.{unread}
use diag.Hdlc.{
  hdlc_crc_byte, hdlc_encode_from, hdlc_escape_byte, hdlc_encode, hdlc_decoder_zero, message,
  hdlc_decode_one,
}
use diag.Hdlc.Table.{crc_table}
use diag.Hdlc.Crc.{crc_shifts, hdlc_crc_byte-crc_shifts, crc_from, check_bytes, IsByte}
use diag.Hdlc.Encode.{escaped, length-hdlc_encode}
use diag.Hdlc.Refine.{decode_list, Agrees, hdlc_decode_one-Agrees}
use diag.Hdlc.RoundTrip.{Delivers, hdlc_decode_one-hdlc_encode}

hdlc_crc_byte-crc_shifts_example : hdlc_crc_byte 0xffff 0x7e ≡ crc_shifts 8 (bit_xor 0xffff 0x7e)
hdlc_crc_byte-crc_shifts_example = hdlc_crc_byte-crc_shifts 0xffff 0x7e (omega arith) (omega arith)

-- A message with both bytes that are escaped.
abbrev version : List ℕ
version = 0x7e ∷ 0x7d ∷ 0x1c ∷ []

version_bytes : All IsByte version
version_bytes = (omega arith, (omega arith, (omega arith, tt)))

hdlc_encode-version :
    hdlc_encode version ≡ 0x7d ∷ 0x5e ∷ 0x7d ∷ 0x5d ∷ 0x1c ∷ 0x5e ∷ 0xcc ∷ 0x7e ∷ []
unfolding hdlc_encode hdlc_encode_from hdlc_escape_byte hdlc_crc_byte crc_table
hdlc_encode-version = refl

-- One more byte behind the frame.
abbrev stream : List ℕ
stream = hdlc_encode version ++ (0x41 ∷ [])

stream-lt : length stream < 16384
stream-lt =
    omega (arith, length-hdlc_encode version, length-append {0} (hdlc_encode version) (0x41 ∷ []))

hdlc_decode_one-Agrees_example :
    Agrees
      (hdlc_decode_one hdlc_decoder_zero (filled stream))
      (decode_list hdlc_decoder_zero (unread (filled stream)))
hdlc_decode_one-Agrees_example =
    hdlc_decode_one-Agrees hdlc_decoder_zero (filled stream) (filled-IsValid stream stream-lt)

hdlc_decode_one-hdlc_encode_example :
    Delivers
      (hdlc_decode_one hdlc_decoder_zero (filled stream))
      (message (version ++ check_bytes (crc_from 0xffff version)) 3)
      (0x41 ∷ [])
hdlc_decode_one-hdlc_encode_example =
    hdlc_decode_one-hdlc_encode (filled stream) version (0x41 ∷ [])
      (filled-IsValid stream stream-lt) (unread-filled stream stream-lt)

-- A body whose last two bytes are no check sequence of the others.
abbrev body : List ℕ
body = 0x7d ∷ 2 ∷ 0 ∷ 0 ∷ []

abbrev framed : List ℕ → List ℕ
framed xs = escaped xs ++ (0x7e ∷ [])

body-lt : length (framed body) < 16384
unfolding escaped hdlc_escape_byte
body-lt = omega arith

runt-lt : length (framed (5 ∷ [])) < 16384
unfolding escaped hdlc_escape_byte
runt-lt = omega arith
