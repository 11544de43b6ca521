-- ===== src/Masks/Event/Tests.antt =====
-- The event mask that the router begins with, and the theorems on event masks at small requests.
use diag.Base.{ℕ, ◌≤◌, ◌≡◌, refl, true, some, [], ◌∷◌, ◌++◌, arith, length, take, drop, replicate}
use diag.Bytes.{Bytes, bits_to_bytes}
use diag.World.{Alloc}
use diag.Masks.Memory.{done, mask_invalid, mask_valid, copy_in}
use diag.Masks.Event.{
  EventMask, apps_event_last_id, event_mask_size, diag_event_mask_init, diag_cmd_get_event_mask,
  grow_event_mask, diag_cmd_update_event_mask,
}
use diag.Masks.Event.Laws.{IsValid, diag_event_mask_init-IsValid, get_event_mask-update}

abbrev grant : Alloc
grant n = true

-- Memory that nobody has written.
abbrev stale : ℕ → ℕ
stale i = 0xa5

abbrev initial : EventMask
initial = record {
  ptr = replicate event_mask_size 0;
  mask_len = event_mask_size;
  status = mask_invalid;
  max_num_bits = apps_event_last_id;
}

initial_made : diag_event_mask_init grant ≡ some initial
unfolding diag_event_mask_init
initial_made = refl

initial-IsValid : IsValid initial
initial-IsValid = diag_event_mask_init-IsValid grant initial_made

abbrev bits : Bytes
bits = 0xff ∷ 0x0f ∷ []

bits_size : bits_to_bytes 12 ≤ length bits
unfolding bits_to_bytes
bits_size = omega arith

abbrev updated : EventMask
updated = record initial { ptr = bits ++ drop 2 initial.ptr; status = mask_valid }

updated_made : diag_cmd_update_event_mask grant stale initial 12 bits ≡ some (done, updated)
unfolding diag_cmd_update_event_mask grow_event_mask copy_in bits_to_bytes
updated_made = refl

get_event_mask-update_example :
    diag_cmd_get_event_mask grant updated 12 ≡ some (done, some (take (bits_to_bytes 12) bits))
get_event_mask-update_example =
    get_event_mask-update grant stale initial 12 bits initial-IsValid bits_size refl updated_made
