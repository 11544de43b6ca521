-- ===== src/Hdlc.antt =====
-- router/hdlc.c and router/hdlc.h: the framing with its CRC-CCITT-16 check sequence.
-- `& 0xff` is written `% 256`. The allocation of the encoder's output is left to the caller's
-- process, which exits when it fails.
pub mod Table
use Table.{crc_table}
pub mod Crc
pub mod Encode
pub mod Refine
pub mod RoundTrip
mod Tests
use diag.Base.{
  ℕ, zero, suc, ◌+◌, ◌-◌, ◌/◌, ◌%◌, ◌^◌, bit_xor, Bool, true, false, ◌||◌, List, [], ◌∷◌, ◌++◌,
  ◌==◌, ltb, if◌then◌else◌, length, get_or,
}
use diag.CircBuf.{CircBuf, hdlc_buf_size, take_byte}

-- `uint16_t` in, `uint16_t` out.
unfoldable pub hdlc_crc_byte : ℕ → ℕ → ℕ
hdlc_crc_byte crc ch = bit_xor (crc / 256) (get_or crc_table (bit_xor crc ch % 256) 0)

-- One byte on the wire: the flag and the escape are sent behind an escape, with bit 5 turned.
unfoldable pub hdlc_escape_byte : ℕ → List ℕ
hdlc_escape_byte ch = if ch == 0x7d || ch == 0x7e then 0x7d ∷ bit_xor ch 0x20 ∷ [] else ch ∷ []

-- The first loop of `hdlc_encode`, with what follows it handed over the check sequence.
unfoldable pub hdlc_encode_from : ℕ → List ℕ → List ℕ
hdlc_encode_from crc [] =
    hdlc_escape_byte (255 - crc % 256) ++ (hdlc_escape_byte (255 - crc / 256 % 256) ++ (0x7e ∷ []))
hdlc_encode_from crc (s ∷ src) = hdlc_escape_byte s ++ hdlc_encode_from (hdlc_crc_byte crc s) src

unfoldable pub hdlc_encode : List ℕ → List ℕ
unfolding hdlc_encode_from
hdlc_encode src = hdlc_encode_from 0xffff src

-- `raw` holds the bytes from `raw_buf` up to the write pointer.
pub record HdlcDecoder : Type 0 where
  pub raw : List ℕ
  pub escape : ℕ

-- `struct hdlc_decoder recv_decoder = {0}`.
abbrev pub hdlc_decoder_zero : HdlcDecoder
hdlc_decoder_zero = record { raw = []; escape = 0 }

-- How `hdlc_decode_one` returns. `starved` and `blank` are the NULL of an empty ring and of an
-- empty frame; `message raw msglen` is `raw_buf` with the reported length; `overrun` is a store
-- past the end of `raw_buf`.
pub data Decoded : Type 0 where
  starved blank overrun out_of_fuel : Decoded
  message : List ℕ → ℕ → Decoded

-- `*hdlc->raw++ = ch ^ hdlc->escape` and the escape's reset, or the escape's start.
unfoldable pub hdlc_put : HdlcDecoder → ℕ → HdlcDecoder
hdlc_put d ch =
    if ch == 0x7d
    then record d { escape = 0x20 }
    else record { raw = d.raw ++ (bit_xor ch d.escape ∷ []); escape = 0 }

-- What follows the loop, at the flag. The two decrements leave `raw - raw_buf` as a `size_t`.
unfoldable pub hdlc_finish : HdlcDecoder → Decoded × HdlcDecoder
hdlc_finish d =
    if length d.raw == 0
    then (blank, d)
    else (message d.raw ((length d.raw + 2 ^ 64 - 2) % 2 ^ 64), hdlc_decoder_zero)

-- Room for one more byte in `raw_buf`.
abbrev pub not_full : HdlcDecoder → Bool
not_full d = ltb (length d.raw) hdlc_buf_size

unfoldable pub hdlc_decode_loop : ℕ → HdlcDecoder → CircBuf → Decoded × HdlcDecoder × CircBuf
hdlc_decode_loop zero d b = (out_of_fuel, d, b)
hdlc_decode_loop (suc fuel) d b = elim (b.tail == b.head) [
  | true ↦ (starved, d, b)
  | false ↦
      let (ch, b') = take_byte b in
      elim (ch == 0x7e) [
        | true ↦ let (r, d') = hdlc_finish d in (r, d', b')
        | false ↦ elim (ch == 0x7d || not_full d) [
          | true ↦ hdlc_decode_loop fuel (hdlc_put d ch) b'
          | false ↦ (overrun, d, b')
        ]
      ]
]

-- A ring holds fewer bytes than its size, and each round takes one.
unfoldable pub hdlc_decode_one : HdlcDecoder → CircBuf → Decoded × HdlcDecoder × CircBuf
unfolding hdlc_decode_loop
hdlc_decode_one d b = hdlc_decode_loop hdlc_buf_size d b
