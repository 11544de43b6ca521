-- ===== src/Masks/Event.antt =====
-- The event mask: one bit mask, as long as the largest request.
pub mod Laws
mod Tests
use diag.Masks.Memory.{
  Result, done, absent, failed, mask_invalid, mask_all_disabled, mask_all_enabled, mask_valid,
  copy_in, fill, copy_out, resize,
}
use diag.Base.{ℕ, Bool, true, false, Option, none, some, ltb, if◌then◌else◌, replicate}
use diag.Bytes.{Bytes, bits_to_bytes}
use diag.World.{Alloc}
use diag.Queue.{◌>>=◌}

-- `event_mask` and `event_max_num_bits`.
pub record EventMask : Type 0 where
  pub ptr : Bytes
  pub mask_len : ℕ
  pub status : ℕ
  pub max_num_bits : ℕ

abbrev pub apps_event_last_id : ℕ
apps_event_last_id = 0x0b3f

abbrev pub event_mask_size : ℕ
event_mask_size = 513

unfoldable pub diag_event_mask_init : Alloc → Option EventMask
diag_event_mask_init alloc =
    if alloc event_mask_size
    then some (record {
      ptr = replicate event_mask_size 0;
      mask_len = event_mask_size;
      status = mask_invalid;
      max_num_bits = apps_event_last_id;
    })
    else none

-- The result, and the copy if one was made.
unfoldable pub diag_cmd_get_event_mask : Alloc → EventMask → ℕ → Option (Result × Option Bytes)
diag_cmd_get_event_mask alloc m num_bits =
    let size = bits_to_bytes num_bits in
    if ltb m.max_num_bits num_bits
    then some (absent, none)
    else if alloc size
    then (do copy ← copy_out m.ptr size; some (done, some copy))
    else some (failed, none)

-- The reallocation for more bits than before.
unfoldable pub grow_event_mask : Alloc → (ℕ → ℕ) → EventMask → ℕ → Bool × EventMask
grow_event_mask alloc junk m num_bits =
    let size = bits_to_bytes num_bits in
    if ltb m.max_num_bits num_bits
    then (if alloc size
        then (
          true,
          record m { ptr = resize junk m.ptr size; mask_len = size; max_num_bits = num_bits },
        )
        else (false, record m { status = mask_invalid }))
    else (true, m)

unfoldable pub diag_cmd_update_event_mask :
    Alloc → (ℕ → ℕ) → EventMask → ℕ → Bytes → Option (Result × EventMask)
diag_cmd_update_event_mask alloc junk m num_bits mask =
    let (granted, m') = grow_event_mask alloc junk m num_bits in
    if granted
    then (do
      stored ← copy_in m'.ptr 0 mask (bits_to_bytes num_bits)
      some (done, record m' { ptr = stored; status = mask_valid }))
    else some (failed, m')

unfoldable pub diag_cmd_toggle_events : EventMask → Bool → Option EventMask
diag_cmd_toggle_events m enabled = do
  stored ← fill m.ptr (if enabled then 0xff else 0x00) m.mask_len
  some (record m { ptr = stored; status = if enabled then mask_all_enabled else mask_all_disabled })
