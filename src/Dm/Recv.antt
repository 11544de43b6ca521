-- ===== src/Dm/Recv.antt =====
-- `dm_recv_hdlc` hands over the messages of the frames in the ring, in order.
use diag.Base.{
  ℕ, zero, suc, ◌+◌, ◌≤◌, ◌<◌, bit_xor, ◌≡◌, refl, ap, ◌∙◌, ◌≢◌, inl, inr, Option, some, List, [],
  ◌∷◌, ◌++◌, append_assoc, arith, Option-cases, length, length-append, All,
}
use diag.Bytes.{Bytes}
use diag.CircBuf.{CircBuf, hdlc_buf_size}
use diag.CircBuf.Inv.{IsValid, unread, length-unread}
use diag.Queue.{◌>>=◌}
use diag.Hdlc.{hdlc_encode, HdlcDecoder, hdlc_decoder_zero, starved, hdlc_put, hdlc_decode_one}
use diag.Hdlc.Crc.{crc_from, check_bytes}
use diag.Hdlc.Encode.{length-hdlc_encode_pos}
use diag.Hdlc.Refine.{decode_list, hdlc_decode_one-Agrees}
use diag.Hdlc.RoundTrip.{hdlc_decode_one-hdlc_encode}
use diag.Dm.{dm_recv_hdlc_loop, dm_recv_hdlc}

-- The frames of some messages, one behind the other.
unfoldable pub frames : List Bytes → Bytes
frames [] = []
frames (m ∷ ms) = hdlc_encode m ++ frames ms

-- The start of a frame: bytes with no flag.
abbrev pub HasNoFlag : Bytes → Type 0
HasNoFlag = All (λ x. x ≢ 0x7e)

length-frames : (ms : List Bytes) → length ms ≤ length (frames ms)
unfolding frames
length-frames [] = omega arith
length-frames (m ∷ ms) = omega (
  arith,
  length-append {0} (hdlc_encode m) (frames ms),
  length-hdlc_encode_pos m,
  length-frames ms,
)

length-hdlc_put : (d : HdlcDecoder) (x : ℕ) → length (hdlc_put d x).raw ≤ length d.raw + 1
unfolding hdlc_put
length-hdlc_put d x = ground (arith, length-append d.raw (bit_xor x d.escape ∷ []))

-- A part of a frame starves the decoder, which has then taken all of it.
pub decode_list_part :
    (xs : Bytes) (d : HdlcDecoder)
    → HasNoFlag xs
    → length d.raw + length xs ≤ hdlc_buf_size
    → (d' : HdlcDecoder) × (decode_list d xs ≡ (starved, d', []))
unfolding decode_list
decode_list_part [] d h k = (d, refl)
decode_list_part (x ∷ xs) d h k =
    let rest = decode_list_part xs (hdlc_put d x) h.1 (omega (arith, length-hdlc_put d x)) in
    (rest.0, ground (arith, rest.1, h.0))

module _ {ℓ} {S : Type ℓ} (handle : Bytes → ℕ → S → Option S) where
  -- Each message with its check sequence behind it, and its length.
  unfoldable pub handle_all : List Bytes → S → Option S
  handle_all [] s = some s
  handle_all (m ∷ ms) s =
      handle (m ++ check_bytes (crc_from 0xffff m)) (length m) s >>= handle_all ms

  loop-frames :
      (fuel : ℕ) (ms : List Bytes) (part : Bytes) (b : CircBuf) (s : S)
      → IsValid b
      → length ms < fuel
      → HasNoFlag part
      → unread b ≡ frames ms ++ part
      → (b' : CircBuf) × IsValid b'
        × (unread b' ≡ [])
        × (dm_recv_hdlc_loop handle fuel hdlc_decoder_zero b s
            ≡ (handle_all ms s >>= λ t. some (b', t)))
  unfolding dm_recv_hdlc_loop handle_all frames
  loop-frames zero ms part b s v f np e = absurd (omega arith)
  loop-frames (suc fuel) [] part b s v f np e =
      let starving =
        decode_list_part part hdlc_decoder_zero np
          (omega (arith, length-unread b, ap (length {0}) e)) in
      let run = hdlc_decode_one-Agrees hdlc_decoder_zero b v in
      let list_run = ap (decode_list hdlc_decoder_zero) e ∙ starving.1 in
      (
        (hdlc_decode_one hdlc_decoder_zero b).2,
        run.valid,
        run.rest ∙ ap (λ t. t.2) list_run,
        rw (run.result ∙ ap (λ t. t.0) list_run, dm_recv_hdlc_loop),
      )
  loop-frames (suc fuel) (m ∷ ms) part b s v f np e =
      let here =
        hdlc_decode_one-hdlc_encode b m (frames ms ++ part) v
          (e ∙ append_assoc (hdlc_encode m) (frames ms) part) in
      let b1 = (hdlc_decode_one hdlc_decoder_zero b).2 in
      elim (Option-cases (handle (m ++ check_bytes (crc_from 0xffff m)) (length m) s)) [
        | inl fails ↦
            let later = loop-frames fuel ms part b1 s here.valid (omega arith) np here.leaves in
            (later.0, later.1, later.2, rw (here.reports, fails, dm_recv_hdlc_loop, handle_all))
        | inr (t, fine) ↦
            let later = loop-frames fuel ms part b1 t here.valid (omega arith) np here.leaves in
            (
              later.0,
              later.1,
              later.2,
              rw (here.reports, fine, here.cleared, dm_recv_hdlc_loop, handle_all) later.3,
            )
      ]

  -- On a valid ring that holds the frames of some messages and then a part of a frame,
  -- `dm_recv_hdlc` hands over exactly these messages in order, as long as the handling goes on, and
  -- empties the ring: the part of a frame is taken too, and its decoder is gone with the call.
  pub dm_recv_hdlc-frames :
      (ms : List Bytes) (part : Bytes) (b : CircBuf) (s : S)
      → IsValid b
      → HasNoFlag part
      → unread b ≡ frames ms ++ part
      → (b' : CircBuf) × IsValid b'
        × (unread b' ≡ [])
        × (dm_recv_hdlc handle b s ≡ (handle_all ms s >>= λ t. some (b', t)))
  unfolding dm_recv_hdlc
  dm_recv_hdlc-frames ms part b s v np e =
      loop-frames hdlc_buf_size ms part b s v
        (omega (
          arith,
          length-unread b,
          ap (length {0}) e,
          length-append {0} (frames ms) part,
          length-frames ms,
        ))
        np e
