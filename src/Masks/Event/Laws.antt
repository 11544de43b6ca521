-- ===== src/Masks/Event/Laws.antt =====
-- The event mask never leaves its block, and gives back what it was set to.
use diag.Base.{
  ℕ, ◌+◌, ◌≤◌, ◌≡◌, refl, sym, ap, ◌∙◌, inl, inr, Bool, true, false, some, [], ◌++◌, arith, ltb,
  if◌then◌else◌, Bool-cases, length, take, drop, replicate, length-append, length-take, length-drop,
}
use diag.Bytes.{Bytes, bits_to_bytes}
use diag.World.{Alloc}
use diag.Masks.Memory.{
  Result, done, failed, mask_all_disabled, mask_all_enabled, mask_valid, length-resize,
  copy_in_fits, copy_out_fits, fill_fits, length_filled, take-copied,
}
use diag.Masks.Event.{
  EventMask, diag_event_mask_init, diag_cmd_get_event_mask, grow_event_mask,
  diag_cmd_update_event_mask, diag_cmd_toggle_events,
}

-- The block holds the largest request's bits, and what `mask_len` says.
pub record IsValid (m : EventMask) : Type 0 where
  pub holds_bits : bits_to_bytes m.max_num_bits ≤ length m.ptr
  pub holds_len : m.mask_len ≤ length m.ptr

-- The initial event mask is valid.
pub diag_event_mask_init-IsValid :
    (alloc : Alloc) {m : EventMask} → diag_event_mask_init alloc ≡ some m → IsValid m
unfolding diag_event_mask_init bits_to_bytes
diag_event_mask_init-IsValid alloc h = ground arith

bits_to_bytes_mono : (a b : ℕ) → a ≤ b → bits_to_bytes a ≤ bits_to_bytes b
unfolding bits_to_bytes
bits_to_bytes_mono a b h = omega arith

-- What a grown block can take.
grow_event_mask_room :
    (alloc : Alloc) (junk : ℕ → ℕ) (m : EventMask) (num_bits : ℕ)
    → IsValid m
    → IsValid (grow_event_mask alloc junk m num_bits).1
      × ((grow_event_mask alloc junk m num_bits).0 ≡ true
          → (bits_to_bytes num_bits ≤ length (grow_event_mask alloc junk m num_bits).1.ptr)
            × (num_bits ≤ (grow_event_mask alloc junk m num_bits).1.max_num_bits))
unfolding grow_event_mask
grow_event_mask_room alloc junk m num_bits v = elim (Bool-cases (ltb m.max_num_bits num_bits)) [
  | inl more ↦ elim (Bool-cases (alloc (bits_to_bytes num_bits))) [
    | inl granted ↦ ground (arith, length-resize junk m.ptr (bits_to_bytes num_bits))
    | inr refused ↦ ground arith
  ]
  | inr fits ↦ ground (arith, bits_to_bytes_mono num_bits m.max_num_bits)
]

-- The mask after a copy of `size` bytes to its start.
abbrev stored_event : EventMask → ℕ → Bytes → EventMask
stored_event m size mask = record m {
  ptr = [] ++ (take size mask ++ drop (0 + size) m.ptr);
  status = mask_valid;
}

update_granted :
    (alloc : Alloc) (junk : ℕ → ℕ) (m : EventMask) (num_bits : ℕ) (mask : Bytes)
    → (grow_event_mask alloc junk m num_bits).0 ≡ true
    → bits_to_bytes num_bits ≤ length (grow_event_mask alloc junk m num_bits).1.ptr
    → bits_to_bytes num_bits ≤ length mask
    → diag_cmd_update_event_mask alloc junk m num_bits mask
      ≡ some (
        done,
        stored_event (grow_event_mask alloc junk m num_bits).1 (bits_to_bytes num_bits) mask,
      )
unfolding diag_cmd_update_event_mask
update_granted alloc junk m num_bits mask e room h = rw (
  e,
  copy_in_fits (grow_event_mask alloc junk m num_bits).1.ptr 0 mask (bits_to_bytes num_bits)
      (omega arith) h,
)

stored_event-IsValid :
    (m : EventMask) (size : ℕ) (mask : Bytes)
    → IsValid m
    → size ≤ length m.ptr
    → size ≤ length mask
    → IsValid (stored_event m size mask)
stored_event-IsValid m size mask v room h = omega (
  arith,
  length-append {0} (take size mask) (drop (0 + size) m.ptr),
  length-take {0} size mask,
  length-drop {0} (0 + size) m.ptr,
)

update_refused :
    (alloc : Alloc) (junk : ℕ → ℕ) (m : EventMask) (num_bits : ℕ) (mask : Bytes)
    → (grow_event_mask alloc junk m num_bits).0 ≡ false
    → diag_cmd_update_event_mask alloc junk m num_bits mask
      ≡ some (failed, (grow_event_mask alloc junk m num_bits).1)
unfolding diag_cmd_update_event_mask
update_refused alloc junk m num_bits mask e = rw e

-- On a valid mask and a request that carries its bits, an update never leaves a block, whatever the
-- allocator says, and the mask stays valid.
pub diag_cmd_update_event_mask-IsValid :
    (alloc : Alloc) (junk : ℕ → ℕ) (m : EventMask) (num_bits : ℕ) (mask : Bytes)
    → IsValid m
    → bits_to_bytes num_bits ≤ length mask
    → (r : Result) × (m' : EventMask) × (diag_cmd_update_event_mask alloc junk m num_bits mask
        ≡ some (r, m'))
      × IsValid m'
diag_cmd_update_event_mask-IsValid alloc junk m num_bits mask v h =
    let grown = (grow_event_mask alloc junk m num_bits).1 in
    let room = grow_event_mask_room alloc junk m num_bits v in
    elim (Bool-cases (grow_event_mask alloc junk m num_bits).0) [
      | inl granted ↦ (
        done,
        stored_event grown (bits_to_bytes num_bits) mask,
        update_granted alloc junk m num_bits mask granted (room.1 granted).0 h,
        stored_event-IsValid grown (bits_to_bytes num_bits) mask room.0 (room.1 granted).0 h,
      )
      | inr refused ↦ (failed, grown, update_refused alloc junk m num_bits mask refused, room.0)
    ]

get_stored :
    (alloc : Alloc) (m : EventMask) (num_bits : ℕ) (mask : Bytes)
    → num_bits ≤ m.max_num_bits
    → bits_to_bytes num_bits ≤ length m.ptr
    → bits_to_bytes num_bits ≤ length mask
    → alloc (bits_to_bytes num_bits) ≡ true
    → diag_cmd_get_event_mask alloc (stored_event m (bits_to_bytes num_bits) mask) num_bits
      ≡ some (done, some (take (bits_to_bytes num_bits) mask))
unfolding diag_cmd_get_event_mask
get_stored alloc m num_bits mask k room h g = ground (
  arith,
  copy_out_fits (take size mask ++ drop (0 + size) m.ptr) size,
  take-copied mask size (drop (0 + size) m.ptr),
  length-append (take size mask) (drop (0 + size) m.ptr),
  length-take size mask,
)
  where
    size : ℕ
    size = bits_to_bytes num_bits

-- A successful update is read back: with memory for the copy, a request for as many bits gives the
-- bytes that were set.
pub get_event_mask-update :
    (alloc : Alloc) (junk : ℕ → ℕ) (m : EventMask) (num_bits : ℕ) (mask : Bytes) {m' : EventMask}
    → IsValid m
    → bits_to_bytes num_bits ≤ length mask
    → alloc (bits_to_bytes num_bits) ≡ true
    → diag_cmd_update_event_mask alloc junk m num_bits mask ≡ some (done, m')
    → diag_cmd_get_event_mask alloc m' num_bits
      ≡ some (done, some (take (bits_to_bytes num_bits) mask))
get_event_mask-update alloc junk m num_bits mask {m'} v h g e =
    let grown = (grow_event_mask alloc junk m num_bits).1 in
    let room = grow_event_mask_room alloc junk m num_bits v in
    elim (Bool-cases (grow_event_mask alloc junk m num_bits).0) [
      | inl granted ↦
          let same : stored_event grown (bits_to_bytes num_bits) mask ≡ m' =
            cc (update_granted alloc junk m num_bits mask granted (room.1 granted).0 h) in
          ap (λ t. diag_cmd_get_event_mask alloc t num_bits) (sym same)
          ∙ get_stored alloc grown num_bits mask (room.1 granted).1 (room.1 granted).0 h g
      | inr refused ↦ cc (update_refused alloc junk m num_bits mask refused)
    ]

-- On a valid mask, switching the events never leaves the block, keeps the mask valid, and sets the
-- status that the switch asks for.
pub diag_cmd_toggle_events-IsValid :
    (m : EventMask) (enabled : Bool)
    → IsValid m
    → (m' : EventMask) × (diag_cmd_toggle_events m enabled ≡ some m')
      × IsValid m'
      × (m'.status ≡ (if enabled then mask_all_enabled else mask_all_disabled))
unfolding diag_cmd_toggle_events
diag_cmd_toggle_events-IsValid m enabled v = (
  record m {
    ptr = replicate m.mask_len (if enabled then 0xff else 0x00) ++ drop m.mask_len m.ptr;
    status = if enabled then mask_all_enabled else mask_all_disabled;
  },
  rw (fill_fits m.ptr (if enabled then 0xff else 0x00) m.mask_len v.holds_len),
  omega (arith, length_filled m.ptr (if enabled then 0xff else 0x00) m.mask_len v.holds_len),
  refl,
)
