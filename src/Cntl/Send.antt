-- ===== src/Cntl/Send.antt =====
-- The masks that router/diag_cntl.c sends over a peripheral's control queue.
use diag.Base.{
  ℕ, ◌+◌, ◌-◌, ◌*◌, ◌%◌, ◌^◌, ◌≡◌, ◌≢◌, ◌||◌, Option, none, some, List, [], ◌∷◌, ◌++◌, arith, ◌==◌,
  if◌then◌else◌, length,
}
use diag.Bytes.{Bytes, le16, le32, u8}
use diag.World.{Alloc, Peripheral}
use diag.Queue.{◌>>=◌, queue_push_flow}
use diag.Masks.{Masks}
use diag.Masks.Memory.{done, mask_all_disabled, mask_all_enabled, mask_valid, copy_out, unwritten}
use diag.Masks.Log.{LogCopy, diag_cmd_get_log_mask}
use diag.Masks.Msg.{SsidRange, diag_cmd_get_msg_mask, ssid_first_arr, ssid_last_arr}
use diag.Masks.Event.{diag_cmd_get_event_mask}

-- `queue_push` onto the control queue; no flow context is counted.
unfoldable pub push_cntl : Alloc → Peripheral → Bytes → Option Peripheral
push_cntl alloc p pkt = do
  (q, f) ← queue_push_flow alloc (p.cntlq, λ g. 0) pkt none
  some (record p { cntlq = q })

-- The words of a mask in memory.
unfoldable pub le_words : List ℕ → Bytes
unfolding le32
le_words [] = []
le_words (w ∷ ws) = le32 w ++ le_words ws

-- The packet of an equipment's log mask. Where no copy was made the mask's bytes are unwritten.
unfoldable pub log_mask_packet : (ℕ → ℕ) → ℕ → ℕ → LogCopy → Bytes
log_mask_packet junk status equip_id c =
    le32 9
    ++ (le32 (11 + c.mask_size)
        ++ (1
            ∷ u8 status
            ∷ u8 equip_id
            ∷ (le32 c.num_items
                ++ (le32 c.mask_size
                    ++ elim c.mask [ none ↦ unwritten junk 0 c.mask_size | some m ↦ m ]))))

unfoldable pub diag_cntl_send_log_mask :
    Alloc → (ℕ → ℕ) → Masks → ℕ → Peripheral → Option Peripheral
diag_cntl_send_log_mask alloc junk ms equip_id p = elim p.cntl_fd [
  | none ↦ some p
  | some fd ↦
      if ms.log.status == mask_valid
      then (do
        c ← diag_cmd_get_log_mask alloc ms.log equip_id 0 0
        push_cntl alloc p (log_mask_packet junk ms.log.status equip_id c))
      else push_cntl alloc p (
          log_mask_packet junk ms.log.status 0
            (record { result = done; num_items = 0; mask_size = 0; mask = none }))
]

unfoldable pub msg_mask_packet : (ℕ → ℕ) → ℕ → SsidRange → ℕ → Option Bytes → Bytes
msg_mask_packet junk status range num mask =
    le32 11
    ++ (le32 (11 + num * 4)
        ++ (1
            ∷ u8 status
            ∷ 0
            ∷ (le16 range.ssid_first
                ++ (le16 range.ssid_last
                    ++ (le32 num
                        ++ elim mask [ none ↦ unwritten junk 0 (num * 4) | some m ↦ m ])))))

-- The first `num` words of the copy, if one was made; `none` where it has fewer.
unfoldable pub first_words : Option (List ℕ) → ℕ → Option (Option Bytes)
first_words none num = some none
first_words (some words) num = do ws ← copy_out words num; some (some (le_words ws))

-- The range goes in and comes out through a pointer; `none` for it is a null pointer, which is read
-- in every state of the mask but the disabled one.
unfoldable pub diag_cntl_send_msg_mask :
    Alloc → (ℕ → ℕ) → Masks → Option SsidRange → Peripheral → Option (Option SsidRange × Peripheral)
diag_cntl_send_msg_mask alloc junk ms range p = elim p.cntl_fd [
  | none ↦ some (range, p)
  | some fd ↦
      if ms.msg.status == mask_all_disabled
      then (do
        p' ←
            push_cntl alloc p
              (msg_mask_packet junk ms.msg.status (record { ssid_first = 0; ssid_last = 0 }) 0 none)
        some (range, p'))
      else elim range [
        | none ↦ none
        | some r ↦
            if ms.msg.status == mask_valid || ms.msg.status == mask_all_enabled
            then (do
              c ← diag_cmd_get_msg_mask alloc ms.msg r
              let num : ℕ =
                  if ms.msg.status == mask_valid
                  then (c.range.ssid_last + 2 ^ 32 - c.range.ssid_first + 1) % 2 ^ 32
                  else 1
              m ← first_words c.mask num
              p' ← push_cntl alloc p (msg_mask_packet junk ms.msg.status c.range num m)
              some (some c.range, p'))
            else (do
              p' ← push_cntl alloc p (msg_mask_packet junk ms.msg.status r 0 none)
              some (some r, p'))
      ]
]

-- Each range of the two arrays in turn.
unfoldable pub send_ranges :
    Alloc → (ℕ → ℕ) → Masks → List ℕ → List ℕ → Peripheral → Option Peripheral
send_ranges alloc junk ms (first ∷ firsts) (last ∷ lasts) p = do
  (r, p') ←
      diag_cntl_send_msg_mask alloc junk ms (some (record { ssid_first = first; ssid_last = last }))
        p
  send_ranges alloc junk ms firsts lasts p'
send_ranges alloc junk ms _ _ p = some p

unfoldable pub diag_cntl_send_masks : Alloc → (ℕ → ℕ) → Masks → Peripheral → Option Peripheral
unfolding send_ranges
diag_cntl_send_masks alloc junk ms p = send_ranges alloc junk ms ssid_first_arr ssid_last_arr p

unfoldable pub event_mask_packet : ℕ → Bytes → Bytes
event_mask_packet status mask =
    le32 10
    ++ (le32 (7 + length mask)
        ++ (1
            ∷ u8 status
            ∷ (if status == mask_all_enabled || status == mask_valid then 1 else 0)
            ∷ (le32 (length mask) ++ mask)))

unfoldable pub diag_cntl_send_event_mask : Alloc → Masks → Peripheral → Option Peripheral
diag_cntl_send_event_mask alloc ms p = elim p.cntl_fd [
  | none ↦ some p
  | some fd ↦
      if ms.event.status == mask_valid
      then (do
        (r, m) ← diag_cmd_get_event_mask alloc ms.event ms.event.max_num_bits
        push_cntl alloc p
            (event_mask_packet ms.event.status (elim m [ none ↦ [] | some bytes ↦ bytes ])))
      else push_cntl alloc p (event_mask_packet ms.event.status [])
]

-- router/peripheral.c: the same packet to each peripheral in turn.
unfoldable pub peripheral_broadcast_event_mask :
    Alloc → Masks → List Peripheral → Option (List Peripheral)
peripheral_broadcast_event_mask alloc ms [] = some []
peripheral_broadcast_event_mask alloc ms (p ∷ ps) = do
  p' ← diag_cntl_send_event_mask alloc ms p
  rest ← peripheral_broadcast_event_mask alloc ms ps
  some (p' ∷ rest)

unfoldable pub peripheral_broadcast_log_mask :
    Alloc → (ℕ → ℕ) → Masks → ℕ → List Peripheral → Option (List Peripheral)
peripheral_broadcast_log_mask alloc junk ms equip_id [] = some []
peripheral_broadcast_log_mask alloc junk ms equip_id (p ∷ ps) = do
  p' ← diag_cntl_send_log_mask alloc junk ms equip_id p
  rest ← peripheral_broadcast_log_mask alloc junk ms equip_id ps
  some (p' ∷ rest)

-- All calls share the caller's range, which each call may move.
unfoldable pub peripheral_broadcast_msg_mask :
    Alloc
    → (ℕ → ℕ)
    → Masks
    → Option SsidRange
    → List Peripheral
    → Option (Option SsidRange × List Peripheral)
peripheral_broadcast_msg_mask alloc junk ms range [] = some (range, [])
peripheral_broadcast_msg_mask alloc junk ms range (p ∷ ps) = do
  (range', p') ← diag_cntl_send_msg_mask alloc junk ms range p
  (range'', rest) ← peripheral_broadcast_msg_mask alloc junk ms range' ps
  some (range'', p' ∷ rest)

-- With every message enabled or the masks unset, a broadcast with a null range to a peripheral that
-- has a control channel is a fault, as soon as it comes to that peripheral.
pub broadcast_null_range :
    (alloc : Alloc) (junk : ℕ → ℕ) (ms : Masks) (p : Peripheral) (ps : List Peripheral) (fd : ℕ)
    → p.cntl_fd ≡ some fd
    → ms.msg.status ≢ mask_all_disabled
    → peripheral_broadcast_msg_mask alloc junk ms none (p ∷ ps) ≡ none
unfolding peripheral_broadcast_msg_mask diag_cntl_send_msg_mask
broadcast_null_range alloc junk ms p ps fd e ne = ground arith
