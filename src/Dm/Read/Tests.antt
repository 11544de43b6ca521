-- ===== src/Dm/Read/Tests.antt =====
-- Reads of two packets and of two frames, and the theorems on a monitor's reads.
use diag.Base.{
  ℕ, zero, suc, ◌+◌, ◌<◌, ◌≡◌, refl, Option, some, List, [], ◌∷◌, ◌++◌, arith, length,
  length-append,
}
use diag.Bytes.{Bytes}
use diag.World.{ok, diag_encode_raw, diag_encode_hdlc}
use diag.CircBuf.{CircBuf, Kernel, got, failed, circ_space, circ_space_to_end}
use diag.CircBuf.Inv.{IsValid, unread}
use diag.CircBuf.Tests.{empty_ring, empty_ring-IsValid}
use diag.Hdlc.{hdlc_encode}
use diag.Hdlc.Encode.{length-hdlc_encode}
use diag.Queue.{◌>>=◌}
use diag.Dm.Recv.{frames, handle_all}
use diag.Dm.Read.{eagain, returned, dm_recv}
use diag.Dm.Read.Laws.{handle_packets, dm_recv-packets, dm_recv-frames}

-- The handling counts bytes.
abbrev tally : Bytes → ℕ → ℕ → Option ℕ
tally msg len n = some (n + len)

abbrev same : ℕ → ℕ
same n = n

abbrev two_packets : Kernel
two_packets zero room = got (0 ∷ [])
two_packets (suc zero) room = got (0x7e ∷ 1 ∷ [])
two_packets (suc (suc i)) room = failed eagain

abbrev requests : List Bytes
requests = (0 ∷ []) ∷ (0x7e ∷ 1 ∷ []) ∷ []

dm_recv-packets_example :
    dm_recv tally same same two_packets 3 diag_encode_raw empty_ring 0
    ≡ (handle_packets tally requests 0 >>= λ t. some (returned ok, empty_ring, t))
dm_recv-packets_example =
    dm_recv-packets tally same same two_packets requests (failed eagain) 3 empty_ring 0 tt
      (refl, (λ e. absurd (ground (arith, e))), (refl, (λ e. absurd (ground (arith, e))), refl))
      (omega arith)

abbrev wire : Bytes
wire = frames requests ++ (5 ∷ [])

abbrev one_read : Kernel
one_read i room = got wire

length-wire : length wire < 100
unfolding frames
length-wire = omega (
  arith,
  length-append {0} (frames requests) (5 ∷ []),
  length-append {0} (hdlc_encode (0 ∷ [])) (hdlc_encode (0x7e ∷ 1 ∷ []) ++ []),
  length-append {0} (hdlc_encode (0x7e ∷ 1 ∷ [])) [],
  length-hdlc_encode (0 ∷ []),
  length-hdlc_encode (0x7e ∷ 1 ∷ []),
)

wide : 100 < circ_space_to_end empty_ring
unfolding circ_space_to_end circ_space
wide = omega arith

dm_recv-frames_example :
    (b' : CircBuf) × IsValid b'
    × (unread b' ≡ [])
    × (dm_recv tally same same one_read 0 diag_encode_hdlc empty_ring 0
        ≡ (handle_all tally requests 0 >>= λ t. some (returned ok, b', t)))
dm_recv-frames_example =
    dm_recv-frames tally same same one_read requests (5 ∷ []) 0 empty_ring 0 empty_ring-IsValid refl
      ((λ e. absurd (omega (arith, e))), tt) refl (omega (arith, length-wire, wide))
