-- ===== src/Hdlc/Refine.antt =====
-- `hdlc_decode_one` over the ring is a decoder over the list of the unread bytes.
use diag.Base.{
  ℕ, zero, suc, ◌<◌, ◌≡◌, refl, ◌≢◌, inl, inr, true, false, ◌||◌, List, [], ◌∷◌, arith, ◌==◌,
  ==_iff, Bool-cases,
}
use diag.CircBuf.{CircBuf, hdlc_buf_size, take_byte}
use diag.CircBuf.Inv.{IsValid, unread, count, take_byte-unread, count-take_byte, count_of_same}
use diag.Hdlc.{
  HdlcDecoder, Decoded, starved, overrun, hdlc_put, hdlc_finish, not_full, hdlc_decode_loop,
  hdlc_decode_one,
}

-- The decoder over a list of bytes, with what it leaves of the list.
unfoldable pub decode_list : HdlcDecoder → List ℕ → Decoded × HdlcDecoder × List ℕ
decode_list d [] = (starved, d, [])
decode_list d (ch ∷ rest) = elim (ch == 0x7e) [
  | true ↦ let (r, d') = hdlc_finish d in (r, d', rest)
  | false ↦ elim (ch == 0x7d || not_full d) [
    | true ↦ decode_list (hdlc_put d ch) rest
    | false ↦ (overrun, d, rest)
  ]
]

-- The two runs agree, and the ring stays valid.
pub record Agrees (run : Decoded × HdlcDecoder × CircBuf) (out : Decoded × HdlcDecoder × List ℕ)
    : Type 0 where
  pub valid : IsValid run.2
  pub result : run.0 ≡ out.0
  pub decoder : run.1 ≡ out.1
  pub rest : unread run.2 ≡ out.2

loop-Agrees :
    (fuel : ℕ) (d : HdlcDecoder) (b : CircBuf)
    → IsValid b
    → count b < fuel
    → Agrees (hdlc_decode_loop fuel d b) (decode_list d (unread b))
unfolding hdlc_decode_loop decode_list
loop-Agrees zero d b v h = absurd (omega arith)
loop-Agrees (suc fuel) d b v h = elim (Bool-cases (b.tail == b.head)) [
  | inl same ↦
      rw (count_of_same v ((==_iff _ _).0 same), same, hdlc_decode_loop, decode_list)
        (record {
          valid = v;
          result = refl;
          decoder = refl;
          rest = count_of_same v ((==_iff _ _).0 same);
        })
  | inr more ↦
      let ne : b.tail ≢ b.head = ground arith in
      let taken = take_byte-unread v ne in
      rw (taken.1, more, hdlc_decode_loop)
        (elim (Bool-cases ((take_byte b).0 == 0x7e)) [
          | inl flag ↦
              rw (flag, hdlc_decode_loop, decode_list)
                (record { valid = taken.0; result = refl; decoder = refl; rest = refl })
          | inr inside ↦ elim (Bool-cases ((take_byte b).0 == 0x7d || not_full d)) [
            | inl room ↦
                rw (inside, room, hdlc_decode_loop, decode_list)
                  (loop-Agrees fuel (hdlc_put d (take_byte b).0) (take_byte b).1 taken.0
                    (omega (arith, count-take_byte v ne)))
            | inr full ↦
                rw (inside, full, hdlc_decode_loop, decode_list)
                  (record { valid = taken.0; result = refl; decoder = refl; rest = refl })
          ]
        ])
]

-- On a valid ring `hdlc_decode_one` ends within its fuel with the result, the decoder and the
-- unread bytes of the decoder over lists, and leaves the ring valid.
pub hdlc_decode_one-Agrees :
    (d : HdlcDecoder) (b : CircBuf)
    → IsValid b
    → Agrees (hdlc_decode_one d b) (decode_list d (unread b))
unfolding hdlc_decode_one
hdlc_decode_one-Agrees d b v = loop-Agrees hdlc_buf_size d b v (omega arith)
