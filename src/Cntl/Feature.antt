-- ===== src/Cntl/Feature.antt =====
-- router/diag_cntl.c: the features that a peripheral and the router share, and the packets that
-- follow them.
use diag.Base.{
  ℕ, ◌+◌, ◌^◌, bit_and, ◌≡◌, inl, inr, Option, none, some, [], ◌∷◌, ◌++◌, arith, ◌==◌,
  if◌then◌else◌, Bool-cases, length,
}
use diag.Bytes.{Bytes, u8, get32, le32, zeros}
use diag.World.{Alloc, Peripheral}
use diag.Queue.{◌>>=◌}
use diag.Masks.{Masks}
use diag.Masks.Memory.{unwritten}
use diag.Cntl.Send.{push_cntl, diag_cntl_send_masks}

-- What the router itself supports: bits 0, 1, 6, 15 and 19, bit 4 with a command channel, and bit 13
-- over sockets.
unfoldable pub local_features : Peripheral → ℕ
local_features p =
    1
    + 2
    + 2 ^ 6
    + 2 ^ 15
    + 2 ^ 19
    + elim p.cmd_fd [ none ↦ 0 | some fd ↦ 2 ^ 4 ]
    + (if p.sockets then 2 ^ 13 else 0)

-- A packet for a peripheral with an identifier has the second version and the identifier in it.
unfoldable pub diag_mode_packet : ℕ → ℕ → Bytes
diag_mode_packet diag_id real_time =
    le32 3
    ++ (le32 (if diag_id == 0 then 36 else 37)
        ++ (le32 (if diag_id == 0 then 1 else 2)
            ++ (le32 real_time
                ++ (le32 real_time
                    ++ (zeros 24 ++ (if diag_id == 0 then [] else u8 diag_id ∷ []))))))

unfoldable pub diag_cntl_set_diag_mode : Alloc → ℕ → Peripheral → Option Peripheral
diag_cntl_set_diag_mode alloc real_time p = push_cntl alloc p (diag_mode_packet p.diag_id real_time)

unfoldable pub buffering_mode_packet : ℕ → ℕ → Bytes
buffering_mode_packet diag_id mode =
    le32 17
    ++ (le32 (if diag_id == 0 then 6 else 7)
        ++ (le32 (if diag_id == 0 then 1 else 2)
            ++ ((if diag_id == 0 then [] else u8 diag_id ∷ []) ++ (0 ∷ u8 mode ∷ []))))

unfoldable pub diag_cntl_set_buffering_mode : Alloc → ℕ → Peripheral → Option Peripheral
diag_cntl_set_buffering_mode alloc mode p = push_cntl alloc p (buffering_mode_packet p.diag_id mode)

-- The packet has two bytes more than its structure, which nobody writes.
unfoldable pub feature_packet : (ℕ → ℕ) → ℕ → Bytes
feature_packet junk mask = le32 8 ++ (le32 10 ++ (le32 4 ++ (le32 mask ++ unwritten junk 16 2)))

unfoldable pub diag_cntl_send_feature_mask :
    Alloc → (ℕ → ℕ) → Masks → ℕ → Peripheral → Option Peripheral
diag_cntl_send_feature_mask alloc junk ms mask p = elim p.cntl_fd [
  | none ↦ some p
  | some fd ↦ do
    p1 ← push_cntl alloc p (feature_packet junk mask)
    p2 ← diag_cntl_send_masks alloc junk ms p1
    p3 ← diag_cntl_set_diag_mode alloc 1 p2
    diag_cntl_set_buffering_mode alloc 0 p3
]

unfoldable pub diag_cntl_feature_mask :
    Alloc → (ℕ → ℕ) → Masks → Bytes → Peripheral → Option Peripheral
diag_cntl_feature_mask alloc junk ms pkt p =
    let features = bit_and (get32 pkt 12) (local_features p) in
    diag_cntl_send_feature_mask alloc junk ms features (record p { features = features })

-- A control packet's header counts the bytes behind it.
abbrev pub IsFramed : Bytes → Type 0
IsFramed pkt = length pkt ≡ 8 + get32 pkt 4

-- The packets of both modes, in both versions, are framed: their headers count what follows.
pub mode_packets-IsFramed :
    (diag_id mode : ℕ)
    → IsFramed (diag_mode_packet diag_id mode) × IsFramed (buffering_mode_packet diag_id mode)
unfolding diag_mode_packet buffering_mode_packet le32 get32 zeros
mode_packets-IsFramed diag_id mode = elim (Bool-cases (diag_id == 0)) [
  | inl none_given ↦ (rw none_given (omega arith), rw none_given (omega arith))
  | inr given ↦ (rw given (omega arith), rw given (omega arith))
]
