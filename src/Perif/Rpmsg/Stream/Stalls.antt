-- ===== src/Perif/Rpmsg/Stream/Stalls.antt =====
-- Reads of router/peripheral-rpmsg.c that end at the end of the ring's memory.
use diag.Base.{ℕ, suc, ◌≡◌, refl, ◌≢◌, true, false, Option, some, ◌++◌, arith, ◌==◌, length}
use diag.Bytes.{Bytes}
use diag.CircBuf.{
  CircBuf, Kernel, got, failed, error, circ_space_to_end, absorb, circ_read, circ_read_loop,
}
use diag.CircBuf.Inv.{IsValid, unread, absorb_appends}
use diag.Hdlc.{HdlcDecoder}
use diag.Perif.Rpmsg.Data.{diag_data_recv_hdlc}

two_reads :
    (n : ℕ) (read : Kernel) (b : CircBuf) (xs : Bytes) (err : ℕ)
    → circ_space_to_end b ≢ 0
    → read 0 (circ_space_to_end b) ≡ got xs
    → length xs ≡ circ_space_to_end b
    → circ_space_to_end (absorb b xs) ≢ 0
    → read 1 (circ_space_to_end (absorb b xs)) ≡ failed err
    → circ_read_loop (suc (suc n)) read 0 b ≡ (error err, absorb b xs)
unfolding circ_read_loop
two_reads n read b xs err room first full more second =
    rw (some_room, circ_read_loop, first, all, circ_read_loop, some_more, second) refl
  where
    some_room : (circ_space_to_end b == 0) ≡ false
    some_room = ground arith

    all : (length xs == circ_space_to_end b) ≡ true
    all = ground arith

    some_more : (circ_space_to_end (absorb b xs) == 0) ≡ false
    some_more = ground arith

circ_read_twice :
    (read : Kernel) (b : CircBuf) (xs : Bytes) (err : ℕ)
    → circ_space_to_end b ≢ 0
    → read 0 (circ_space_to_end b) ≡ got xs
    → length xs ≡ circ_space_to_end b
    → circ_space_to_end (absorb b xs) ≢ 0
    → read 1 (circ_space_to_end (absorb b xs)) ≡ failed err
    → circ_read read b ≡ (error err, absorb b xs)
unfolding circ_read
circ_read_twice = two_reads 16382

module _ {ℓ} {S : Type ℓ} (handle : Bytes → ℕ → S → Option S) where
  round_fails :
      (fuel i err : ℕ) (reads : ℕ → Kernel) (d : HdlcDecoder) (b b1 : CircBuf) (s : S)
      → circ_read (reads i) b ≡ (error err, b1)
      → diag_data_recv_hdlc handle (suc fuel) reads i d b s ≡ some (err, d, b1, s)
  unfolding diag_data_recv_hdlc
  round_fails fuel i err reads d b b1 s e = rw (e, diag_data_recv_hdlc, e) refl

  -- A read that fills the ring up to the end of its memory, with room left at the beginning, is
  -- followed by another; if that finds nothing, `diag_data_recv_hdlc` returns its error, and the
  -- bytes that came stay in the ring with none of them decoded.
  pub diag_data_recv_hdlc_stalls :
      (fuel i err : ℕ) (reads : ℕ → Kernel) (d : HdlcDecoder) (b : CircBuf) (xs : Bytes) (s : S)
      → IsValid b
      → circ_space_to_end b ≢ 0
      → reads i 0 (circ_space_to_end b) ≡ got xs
      → length xs ≡ circ_space_to_end b
      → circ_space_to_end (absorb b xs) ≢ 0
      → reads i 1 (circ_space_to_end (absorb b xs)) ≡ failed err
      → (diag_data_recv_hdlc handle (suc fuel) reads i d b s ≡ some (err, d, absorb b xs, s))
        × (unread (absorb b xs) ≡ unread b ++ xs)
  diag_data_recv_hdlc_stalls fuel i err reads d b xs s v room first full more second = (
    round_fails fuel i err reads d b (absorb b xs) s
        (circ_read_twice (reads i) b xs err room first full more second),
    (absorb_appends xs v (omega (arith, full))).1,
  )
