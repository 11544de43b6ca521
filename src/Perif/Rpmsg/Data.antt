-- ===== src/Perif/Rpmsg/Data.antt =====
-- The loops over a peripheral's data in router/peripheral-rpmsg.c. A loop ends only where a read
-- fails; `handle` is the broadcast of a message. The results are the error of the read and what was
-- changed; `none` is a fault, or that the fuel ran out.
use diag.Base.{ℕ, zero, suc, Option, none, some, length}
use diag.Bytes.{Bytes}
use diag.CircBuf.{
  CircBuf, hdlc_buf_size, Kernel, ReadResult, got, failed, drained, error, ReadStatus, circ_read,
}
use diag.Hdlc.{HdlcDecoder, Decoded, message, starved, blank, overrun, hdlc_decode_one}

module _ {ℓ} {S : Type ℓ} (handle : Bytes → ℕ → S → Option S) where
  -- The inner loop: messages are taken off the ring until there is none, or an empty frame.
  unfoldable pub drain_ring : ℕ → HdlcDecoder → CircBuf → S → Option (HdlcDecoder × CircBuf × S)
  drain_ring zero d b s = none
  drain_ring (suc fuel) d b s =
      let (r, d', b') = hdlc_decode_one d b in
      elim r [
        | starved ↦ some (d', b', s)
        | blank ↦ some (d', b', s)
        | overrun ↦ none
        | Decoded.out_of_fuel ↦ none
        | message raw msglen ↦ elim (handle raw msglen s) [
          | none ↦ none
          | some s' ↦ drain_ring fuel d' b' s'
        ]
      ]

  -- A round is a read into the ring and the inner loop. `reads i` is the kernel in round `i`.
  unfoldable pub diag_data_recv_hdlc :
      ℕ → (ℕ → Kernel) → ℕ → HdlcDecoder → CircBuf → S → Option (ℕ × HdlcDecoder × CircBuf × S)
  unfolding drain_ring
  diag_data_recv_hdlc zero reads i d b s = none
  diag_data_recv_hdlc (suc fuel) reads i d b s =
      let (status, b1) = circ_read (reads i) b in
      elim status [
        | error e ↦ some (e, d, b1, s)
        | ReadStatus.out_of_fuel ↦ none
        | drained ↦ elim (drain_ring hdlc_buf_size d b1 s) [
          | none ↦ none
          | some (d', b', s') ↦ diag_data_recv_hdlc fuel reads (suc i) d' b' s'
        ]
      ]

  unfoldable pub raw_loop : ℕ → (ℕ → ℕ → ReadResult) → ℕ → S → Option (ℕ × S)
  raw_loop zero reads i s = none
  raw_loop (suc fuel) reads i s = elim (reads i 4096) [
    | failed e ↦ some (e, s)
    | got xs ↦ elim (handle xs (length xs) s) [
      | none ↦ none
      | some s' ↦ raw_loop fuel reads (suc i) s'
    ]
  ]

  unfoldable pub diag_data_recv_raw : ℕ → Kernel → S → Option (ℕ × S)
  unfolding raw_loop
  diag_data_recv_raw fuel read s = raw_loop fuel read 0 s
