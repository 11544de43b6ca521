-- ===== src/Queue/Frames.antt =====
-- The frames without HDLC: what `queue_push_nhdlc_flow` builds, and what the readers of
-- router/peripheral-rpmsg.c and router/dm.c take apart.
use diag.Base.{◌+◌, ◌≡◌, [], ◌∷◌, arith, length, length-append}
use diag.Bytes.{Bytes}
use diag.Queue.{nhdlc_frame}

pub length-nhdlc_frame : (msg : Bytes) → length (nhdlc_frame msg) ≡ length msg + 5
unfolding nhdlc_frame
length-nhdlc_frame msg = omega (arith, length-append {0} msg (0x7e ∷ []))
