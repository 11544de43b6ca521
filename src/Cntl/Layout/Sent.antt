-- ===== src/Cntl/Layout/Sent.antt =====
-- The packets that the mask senders of router/diag_cntl.c push onto a peripheral's control queue.
use diag.Base.{
  ℕ, subst, zero, suc, ◌+◌, ◌≤◌, ◌<◌, ◌≡◌, refl, sym, ap, ◌∙◌, ◌≢◌, inl, inr, true, false, Option,
  none, some, [], ◌∷◌, ◌++◌, arith, ◌==◌, Bool-cases, Option-cases, length, All,
}
use diag.Bytes.{Bytes, le32, get32, bits_to_bytes}
use diag.World.{Alloc, Mbuf, Peripheral}
use diag.Queue.{queue_push_flow, sizeof_mbuf}
use diag.Masks.{Masks}
use diag.Masks.Memory.{unwritten, mask_valid, copy_out, copy_out_fits, done, Result}
use diag.Masks.Log.{LogCopy, get_log_items, diag_cmd_get_log_mask}
use diag.Masks.Event.{diag_cmd_get_event_mask}
use diag.Cntl.Layout.Copies.{HasSize, copied, get_log_items-IsSized, get_log_items-returns}
use diag.Cntl.Send.{
  push_cntl, log_mask_packet, diag_cntl_send_log_mask, event_mask_packet, diag_cntl_send_event_mask,
}

-- A control packet: its command, and in its header the number of bytes behind the header.
pub record IsPacket (cmd : ℕ) (pkt : Bytes) : Type 0 where
  pub command : get32 pkt 0 ≡ cmd
  pub size : 8 + get32 pkt 4 ≡ length pkt

-- A peripheral without a control channel is left alone; else one packet is put at the end of its
-- control queue, and nothing else of it is changed.
pub data Sends (cmd : ℕ) (p : Peripheral) : Peripheral → Type 0 where
  no_channel : p.cntl_fd ≡ none → Sends cmd p p
  sent :
      (m : Mbuf) → IsPacket cmd m.payload → Sends cmd p (record p { cntlq = p.cntlq ++ (m ∷ []) })

header_bytes :
    (cmd n : ℕ) (rest : Bytes)
    → cmd < 4294967296
    → n < 4294967296
    → length rest ≡ n
    → IsPacket cmd (le32 cmd ++ (le32 n ++ rest))
unfolding get32 le32
header_bytes cmd n rest hc hn e = record {
  command = omega (arith, hc);
  size = omega (arith, hn, e);
}

mbuf_of : Bytes → Mbuf
mbuf_of pkt = record { size = length pkt; offset = 0 + length pkt; flow = none; payload = pkt }

peripheral_or : Peripheral → Option Peripheral → Peripheral
peripheral_or p none = p
peripheral_or p (some q) = q

push_sends :
    (alloc : Alloc) (cmd : ℕ) (pkt : Bytes) (p p' : Peripheral)
    → IsPacket cmd pkt
    → push_cntl alloc p pkt ≡ some p'
    → Sends cmd p p'
unfolding push_cntl queue_push_flow mbuf_of
push_sends alloc cmd pkt p p' v h = subst (Sends cmd p) (same h) (sent (mbuf_of pkt) v)
  where
    same : push_cntl alloc p pkt ≡ some p' → record p { cntlq = p.cntlq ++ (mbuf_of pkt ∷ []) } ≡ p'
    same k = ground (arith, k)

length-unwritten : (junk : ℕ → ℕ) (i n : ℕ) → length (unwritten junk i n) ≡ n
unfolding unwritten
length-unwritten junk i zero = refl
length-unwritten junk i (suc n) = ap suc (length-unwritten junk (suc i) n)

tail_length :
    (c : LogCopy) (mask : Bytes)
    → length mask ≡ c.mask_size
    → suc (suc (suc (length (le32 c.num_items ++ (le32 c.mask_size ++ mask))))) ≡ 11 + c.mask_size
unfolding le32
tail_length c mask e = omega (arith, e)

log_packet :
    (junk : ℕ → ℕ) (status equip_id : ℕ) (c : LogCopy)
    → HasSize c
    → 11 + c.mask_size < 4294967296
    → IsPacket 9 (log_mask_packet junk status equip_id c)
unfolding log_mask_packet
log_packet junk status equip_id c (inl e) l =
    header_bytes 9 (11 + c.mask_size) _ (omega arith) l
      (rw e (tail_length c (unwritten junk 0 c.mask_size) (length-unwritten junk 0 c.mask_size)))
log_packet junk status equip_id c (inr (m, e, s)) l =
    header_bytes 9 (11 + c.mask_size) _ (omega arith) l (rw e (tail_length c m s))

event_packet :
    (status : ℕ) (mask : Bytes)
    → 7 + length mask < 4294967296
    → IsPacket 10 (event_mask_packet status mask)
unfolding event_mask_packet le32
event_packet status mask l = header_bytes 10 (7 + length mask) _ (omega arith) l (omega arith)

-- The mask that an event mask packet carries.
abbrev carried : Option Bytes → Bytes
carried none = []
carried (some m) = m

carried_size :
    (alloc : Alloc) (ms : Masks) (r : Result) (m : Option Bytes)
    → bits_to_bytes ms.event.max_num_bits < 65536
    → diag_cmd_get_event_mask alloc ms.event ms.event.max_num_bits ≡ some (r, m)
    → length (carried m) < 65536
unfolding diag_cmd_get_event_mask
carried_size alloc ms r none l e = omega arith
carried_size alloc ms r (some m) l e =
    elim (Option-cases (copy_out ms.event.ptr (bits_to_bytes ms.event.max_num_bits))) [
      | inl beyond ↦ absurd (ground (arith, e, beyond))
      | inr (n, out) ↦ omega (
        arith,
        l,
        copied ms.event.ptr (bits_to_bytes ms.event.max_num_bits) m (ground (arith, e, out)),
      )
    ]

nothing : LogCopy
nothing = record { result = done; num_items = 0; mask_size = 0; mask = none }

-- The ends of the two senders.
module _ (alloc : Alloc) (junk : ℕ → ℕ) (ms : Masks) (equip_id : ℕ) (p : Peripheral) where
  log_closed : p.cntl_fd ≡ none → diag_cntl_send_log_mask alloc junk ms equip_id p ≡ some p
  unfolding diag_cntl_send_log_mask diag_cmd_get_log_mask nothing
  log_closed closed = simp (closed, diag_cntl_send_log_mask)

  log_other :
      (fd : ℕ)
      → p.cntl_fd ≡ some fd
      → (ms.log.status == mask_valid) ≡ false
      → diag_cntl_send_log_mask alloc junk ms equip_id p
        ≡ push_cntl alloc p (log_mask_packet junk ms.log.status 0 nothing)
  unfolding diag_cntl_send_log_mask diag_cmd_get_log_mask nothing
  log_other fd there other = simp (there, diag_cntl_send_log_mask, other)

  log_fault :
      (fd : ℕ)
      → p.cntl_fd ≡ some fd
      → (ms.log.status == mask_valid) ≡ true
      → get_log_items alloc equip_id 0 0 ms.log.items ≡ none
      → diag_cntl_send_log_mask alloc junk ms equip_id p ≡ none
  unfolding diag_cntl_send_log_mask diag_cmd_get_log_mask nothing
  log_fault fd there valid fault = simp (there, diag_cntl_send_log_mask, valid, fault)

  log_valid :
      (c : LogCopy) (fd : ℕ)
      → p.cntl_fd ≡ some fd
      → (ms.log.status == mask_valid) ≡ true
      → get_log_items alloc equip_id 0 0 ms.log.items ≡ some c
      → diag_cntl_send_log_mask alloc junk ms equip_id p
        ≡ push_cntl alloc p (log_mask_packet junk ms.log.status equip_id c)
  unfolding diag_cntl_send_log_mask diag_cmd_get_log_mask nothing
  log_valid c fd there valid got = simp (there, diag_cntl_send_log_mask, valid, got)

module _ (alloc : Alloc) (ms : Masks) (p : Peripheral) where
  event_closed : p.cntl_fd ≡ none → diag_cntl_send_event_mask alloc ms p ≡ some p
  unfolding diag_cntl_send_event_mask
  event_closed closed = simp (closed, diag_cntl_send_event_mask)

  event_other :
      (fd : ℕ)
      → p.cntl_fd ≡ some fd
      → (ms.event.status == mask_valid) ≡ false
      → diag_cntl_send_event_mask alloc ms p
        ≡ push_cntl alloc p (event_mask_packet ms.event.status [])
  unfolding diag_cntl_send_event_mask
  event_other fd there other = simp (there, diag_cntl_send_event_mask, other)

  event_fault :
      (fd : ℕ)
      → p.cntl_fd ≡ some fd
      → (ms.event.status == mask_valid) ≡ true
      → diag_cmd_get_event_mask alloc ms.event ms.event.max_num_bits ≡ none
      → diag_cntl_send_event_mask alloc ms p ≡ none
  unfolding diag_cntl_send_event_mask
  event_fault fd there valid fault = simp (there, diag_cntl_send_event_mask, valid, fault)

  event_valid :
      (r : Result) (m : Option Bytes) (fd : ℕ)
      → p.cntl_fd ≡ some fd
      → (ms.event.status == mask_valid) ≡ true
      → diag_cmd_get_event_mask alloc ms.event ms.event.max_num_bits ≡ some (r, m)
      → diag_cntl_send_event_mask alloc ms p
        ≡ push_cntl alloc p (event_mask_packet ms.event.status (carried m))
  unfolding diag_cntl_send_event_mask
  event_valid r none fd there valid got = simp (there, diag_cntl_send_event_mask, valid, got)
  event_valid r (some n) fd there valid got = simp (there, diag_cntl_send_event_mask, valid, got)

-- A call for a peripheral that sends it an equipment's log mask, or the event mask, with the
-- command of its packet and the peripheral that it leaves.
pub data Sender (alloc : Alloc) (junk : ℕ → ℕ) (ms : Masks) (p : Peripheral)
    : ℕ → Peripheral → Type 0 where
  of_log :
      (equip_id : ℕ) (p' : Peripheral)
      → diag_cntl_send_log_mask alloc junk ms equip_id p ≡ some p'
      → Sender alloc junk ms p 9 p'
  of_event :
      (p' : Peripheral)
      → diag_cntl_send_event_mask alloc ms p ≡ some p'
      → Sender alloc junk ms p 10 p'

-- A sender that returns leaves the peripheral alone, or sends one packet.
Sender-Sends :
    (alloc : Alloc) (junk : ℕ → ℕ) (ms : Masks) (p p' : Peripheral) (cmd : ℕ)
    → All (λ i. 11 + bits_to_bytes i.num_items_tools < 4294967296) ms.log.items
    → bits_to_bytes ms.event.max_num_bits < 65536
    → Sender alloc junk ms p cmd p'
    → Sends cmd p p'
unfolding diag_cntl_send_log_mask diag_cntl_send_event_mask diag_cmd_get_log_mask peripheral_or
    nothing
Sender-Sends alloc junk ms p _ _ hl he (of_log equip_id p' e) = elim (Option-cases p.cntl_fd) [
  | inl closed ↦
      subst (Sends 9 p)
        (ap (peripheral_or p) (sym (log_closed alloc junk ms equip_id p closed) ∙ e))
        (no_channel closed)
  | inr (fd, there) ↦ elim (Bool-cases (ms.log.status == mask_valid)) [
    | inr other ↦
        push_sends alloc 9 (log_mask_packet junk ms.log.status 0 nothing) p p'
          (log_packet junk ms.log.status 0 nothing (inl refl) (omega arith))
          (sym (log_other alloc junk ms equip_id p fd there other) ∙ e)
    | inl valid ↦ elim (Option-cases (get_log_items alloc equip_id 0 0 ms.log.items)) [
      | inl fault ↦
          absurd (ground (arith, sym (log_fault alloc junk ms equip_id p fd there valid fault) ∙ e))
      | inr (c, got) ↦
          let sized = get_log_items-IsSized alloc equip_id ms.log.items c hl got in
          push_sends alloc 9 (log_mask_packet junk ms.log.status equip_id c) p p'
            (log_packet junk ms.log.status equip_id c sized.0 sized.1)
            (sym (log_valid alloc junk ms equip_id p c fd there valid got) ∙ e)
    ]
  ]
]
Sender-Sends alloc junk ms p _ _ hl he (of_event p' e) = elim (Option-cases p.cntl_fd) [
  | inl closed ↦
      subst (Sends 10 p) (ap (peripheral_or p) (sym (event_closed alloc ms p closed) ∙ e))
        (no_channel closed)
  | inr (fd, there) ↦ elim (Bool-cases (ms.event.status == mask_valid)) [
    | inr other ↦
        push_sends alloc 10 (event_mask_packet ms.event.status []) p p'
          (event_packet ms.event.status [] (omega arith))
          (sym (event_other alloc ms p fd there other) ∙ e)
    | inl valid ↦
        elim (Option-cases (diag_cmd_get_event_mask alloc ms.event ms.event.max_num_bits)) [
          | inl fault ↦
              absurd (ground (arith, sym (event_fault alloc ms p fd there valid fault) ∙ e))
          | inr ((r, m), got) ↦
              push_sends alloc 10 (event_mask_packet ms.event.status (carried m)) p p'
                (event_packet ms.event.status (carried m)
                  (omega (arith, carried_size alloc ms r m he got)))
                (sym (event_valid alloc ms p r m fd there valid got) ∙ e)
        ]
  ]
]

push_returns :
    (alloc : Alloc) (p : Peripheral) (pkt : Bytes)
    → ((n : ℕ) → alloc n ≡ true)
    → push_cntl alloc p pkt ≢ none
unfolding push_cntl queue_push_flow
push_returns alloc p pkt g e = ground (arith, e, g (sizeof_mbuf + length pkt))

log_returns :
    (alloc : Alloc) (junk : ℕ → ℕ) (ms : Masks) (equip_id : ℕ) (p : Peripheral)
    → ((n : ℕ) → alloc n ≡ true)
    → All (λ i. bits_to_bytes i.num_items_tools ≤ length i.ptr) ms.log.items
    → diag_cntl_send_log_mask alloc junk ms equip_id p ≢ none
log_returns alloc junk ms equip_id p g v = elim (Option-cases p.cntl_fd) [
  | inl closed ↦ λ e. absurd (ground (arith, sym (log_closed alloc junk ms equip_id p closed) ∙ e))
  | inr (fd, there) ↦ elim (Bool-cases (ms.log.status == mask_valid)) [
    | inr other ↦ λ e.
        push_returns alloc p (log_mask_packet junk ms.log.status 0 nothing) g
          (sym (log_other alloc junk ms equip_id p fd there other) ∙ e)
    | inl valid ↦ elim (Option-cases (get_log_items alloc equip_id 0 0 ms.log.items)) [
      | inl fault ↦ absurd (get_log_items-returns alloc equip_id ms.log.items v fault)
      | inr (c, got) ↦ λ e.
          push_returns alloc p (log_mask_packet junk ms.log.status equip_id c) g
            (sym (log_valid alloc junk ms equip_id p c fd there valid got) ∙ e)
    ]
  ]
]

event_mask_returns :
    (alloc : Alloc) (ms : Masks)
    → bits_to_bytes ms.event.max_num_bits ≤ length ms.event.ptr
    → diag_cmd_get_event_mask alloc ms.event ms.event.max_num_bits ≢ none
unfolding diag_cmd_get_event_mask
event_mask_returns alloc ms v e =
    ground (arith, e, copy_out_fits ms.event.ptr (bits_to_bytes ms.event.max_num_bits) v)

event_returns :
    (alloc : Alloc) (ms : Masks) (p : Peripheral)
    → ((n : ℕ) → alloc n ≡ true)
    → bits_to_bytes ms.event.max_num_bits ≤ length ms.event.ptr
    → diag_cntl_send_event_mask alloc ms p ≢ none
event_returns alloc ms p g v = elim (Option-cases p.cntl_fd) [
  | inl closed ↦ λ e. absurd (ground (arith, sym (event_closed alloc ms p closed) ∙ e))
  | inr (fd, there) ↦ elim (Bool-cases (ms.event.status == mask_valid)) [
    | inr other ↦ λ e.
        push_returns alloc p (event_mask_packet ms.event.status []) g
          (sym (event_other alloc ms p fd there other) ∙ e)
    | inl valid ↦
        elim (Option-cases (diag_cmd_get_event_mask alloc ms.event ms.event.max_num_bits)) [
          | inl fault ↦ absurd (event_mask_returns alloc ms v fault)
          | inr ((r, m), got) ↦ λ e.
              push_returns alloc p (event_mask_packet ms.event.status (carried m)) g
                (sym (event_valid alloc ms p r m fd there valid got) ∙ e)
        ]
  ]
]

-- The blocks of the masks are as long as their bits say, and the sizes fit the words of a packet.
pub record AreSized (ms : Masks) : Type 0 where
  pub items : All (λ i. bits_to_bytes i.num_items_tools ≤ length i.ptr) ms.log.items
  pub words : All (λ i. 11 + bits_to_bytes i.num_items_tools < 4294967296) ms.log.items
  pub bits : bits_to_bytes ms.event.max_num_bits ≤ length ms.event.ptr
  pub half : bits_to_bytes ms.event.max_num_bits < 65536

-- With memory granted, blocks of masks as long as their bits say, and sizes that fit the words of a
-- packet, diag_cntl_send_log_mask for any equipment and diag_cntl_send_event_mask return. A peripheral
-- without a control channel is left alone; else exactly one packet is put at the end of its control
-- queue, which has the command of the mask, and in its header the number of the bytes that follow,
-- whatever the state of the mask.
pub send_masks-Sends :
    (alloc : Alloc) (junk : ℕ → ℕ) (ms : Masks) (equip_id : ℕ) (p : Peripheral)
    → ((n : ℕ) → alloc n ≡ true)
    → AreSized ms
    → ((p' : Peripheral) × (diag_cntl_send_log_mask alloc junk ms equip_id p ≡ some p')
        × Sends 9 p p')
      × ((p' : Peripheral) × (diag_cntl_send_event_mask alloc ms p ≡ some p') × Sends 10 p p')
send_masks-Sends alloc junk ms equip_id p g v = (
  elim (Option-cases (diag_cntl_send_log_mask alloc junk ms equip_id p)) [
    | inl fault ↦ absurd (log_returns alloc junk ms equip_id p g v.items fault)
    | inr (p', e) ↦ (p', e, Sender-Sends alloc junk ms p p' 9 v.words v.half (of_log equip_id p' e))
  ],
  elim (Option-cases (diag_cntl_send_event_mask alloc ms p)) [
    | inl fault ↦ absurd (event_returns alloc ms p g v.bits fault)
    | inr (p', e) ↦ (p', e, Sender-Sends alloc junk ms p p' 10 v.words v.half (of_event p' e))
  ],
)
