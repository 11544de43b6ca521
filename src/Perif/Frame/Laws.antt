-- ===== src/Perif/Frame/Laws.antt =====
-- Frames without HDLC, built by router/diag.c and taken apart by router/peripheral-rpmsg.c.
use diag.Base.{
  ℕ, suc, ◌+◌, ◌^◌, ◌≤◌, ◌<◌, ◌≡◌, refl, ap, ◌∙◌, false, Option, some, [], ◌∷◌, ◌++◌, append_assoc,
  arith, ltb, if◌then◌else◌, length, get_elem?, take, drop, take-append,
}
use diag.Bytes.{Bytes, get16, byte_at, le16}
use diag.Queue.{nhdlc_frame}
use diag.Daemon.{State, broadcast}
use diag.Perif.Frame.{packet, truncated, check_frame, broadcast_frame}

get_elem?-append_here :
    (xs : Bytes) (y : ℕ) (ys : Bytes) → get_elem? (xs ++ (y ∷ ys)) (length xs) ≡ some y
get_elem?-append_here [] y ys = refl
get_elem?-append_here (x ∷ xs) y ys = get_elem?-append_here xs y ys

frame_length :
    (msg rest : Bytes) → length msg < 2 ^ 16 → get16 (nhdlc_frame msg ++ rest) 2 ≡ length msg
unfolding get16 nhdlc_frame le16
frame_length msg rest l = omega (arith, l)

four_more : (n : ℕ) → 4 + n ≡ suc (suc (suc (suc n)))
four_more n = omega arith

frame_end : (msg rest : Bytes) → get_elem? (nhdlc_frame msg ++ rest) (4 + length msg) ≡ some 0x7e
unfolding nhdlc_frame le16
frame_end msg rest = rw (four_more (length msg)) (
    ap (λ t. get_elem? t (length msg)) (append_assoc msg (0x7e ∷ []) rest)
    ∙ get_elem?-append_here msg 0x7e rest)

frame_start :
    (msg rest : Bytes)
    → (byte_at (nhdlc_frame msg ++ rest) 0 ≡ 0x7e) × (byte_at (nhdlc_frame msg ++ rest) 1 ≡ 1)
unfolding nhdlc_frame
frame_start msg rest = (refl, refl)

frame_payload : (msg rest : Bytes) → take (length msg) (drop 4 (nhdlc_frame msg ++ rest)) ≡ msg
unfolding nhdlc_frame le16
frame_payload msg rest =
    ap (take (length msg)) (append_assoc msg (0x7e ∷ []) rest) ∙ take-append msg (0x7e ∷ rest)

-- A frame of a message of fewer than 2^16 bytes gives the message back, whatever stands behind the
-- frame in memory, if the reader's length covers the frame; with a shorter length it is refused as
-- truncated.
pub check_frame-nhdlc_frame :
    (msg rest : Bytes) (len : ℕ)
    → length msg < 2 ^ 16
    → check_frame (nhdlc_frame msg ++ rest) len
      ≡ (if ltb len (length msg + 5) then truncated else packet msg)
unfolding check_frame
check_frame-nhdlc_frame msg rest len l =
    rw
      (
        (frame_start msg rest).0,
        check_frame,
        (frame_start msg rest).1,
        frame_length msg rest l,
        frame_end msg rest,
        frame_length msg rest l,
        frame_payload msg rest,
        five,
      )
      refl
  where
    five : 4 + length msg + 1 ≡ length msg + 5
    five = omega arith

-- The reader of a channel broadcasts exactly the message of a frame that it has read in full.
pub broadcast_frame-nhdlc_frame :
    (msg rest : Bytes) (len : ℕ) (flow : Option ℕ) (s : State)
    → length msg < 2 ^ 16
    → length msg + 5 ≤ len
    → broadcast_frame (nhdlc_frame msg ++ rest) len flow s ≡ broadcast msg flow s
unfolding broadcast_frame
broadcast_frame-nhdlc_frame msg rest len flow s l whole =
    rw (check_frame-nhdlc_frame msg rest len l, long_enough, broadcast_frame) refl
  where
    long_enough : ltb len (length msg + 5) ≡ false
    long_enough = ground (arith, whole)
