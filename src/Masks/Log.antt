-- ===== src/Masks/Log.antt =====
-- The log masks: a table of bit masks, one for each equipment identifier.
pub mod Laws
mod Tests
use diag.Masks.Memory.{
  Result, done, absent, failed, mask_invalid, mask_all_disabled, mask_valid, copy_in, fill,
  copy_out, resize,
}
use diag.Base.{
  ℕ, suc, ◌*◌, ◌%◌, min, true, false, Option, none, some, List, [], ◌∷◌, map, ltb, ◌==◌,
  if◌then◌else◌, take, replicate,
}
use diag.Bytes.{Bytes, bits_to_bytes}
use diag.World.{Alloc}
use diag.Queue.{◌>>=◌}

-- `struct diag_log_mask_t`; `ptr` is the block that it points to.
pub record LogItem : Type 0 where
  pub equip_id : ℕ
  pub num_items : ℕ
  pub num_items_tools : ℕ
  pub range : ℕ
  pub range_tools : ℕ
  pub ptr : Bytes

pub record LogMask : Type 0 where
  pub items : List LogItem
  pub status : ℕ

abbrev pub log_code_last_tbl : List ℕ
log_code_last_tbl =
    0x0 ∷ 0x1A02 ∷ 0x0 ∷ 0x0 ∷ 0x4910 ∷ 0x5420 ∷ 0x0 ∷ 0x74FF ∷ 0x0 ∷ 0x0 ∷ 0xA38A ∷ 0xB201 ∷ 0x0
    ∷ 0xD1FF ∷ 0x0 ∷ 0x0 ∷ []

abbrev pub max_equip_id : ℕ
max_equip_id = 16

abbrev pub max_items_per_equip_id : ℕ
max_items_per_equip_id = 512

abbrev pub max_items_allowed : ℕ
max_items_allowed = 0xfff

-- `LOG_GET_ITEM_NUM`
abbrev pub log_get_item_num : ℕ → ℕ
log_get_item_num code = code % 0x1000

-- `sizeof(struct diag_log_mask_t)`, packed.
abbrev pub sizeof_log_item : ℕ
sizeof_log_item = 25

unfoldable pub log_item_new : ℕ → ℕ → LogItem
unfolding bits_to_bytes
log_item_new equip_id code =
    let items = log_get_item_num code in
    let bytes = bits_to_bytes items in
    let range : ℕ = if ltb max_items_per_equip_id bytes then bytes else max_items_per_equip_id in
    record {
      equip_id = equip_id;
      num_items = items;
      num_items_tools = items;
      range = range;
      range_tools = range;
      ptr = replicate range 0;
    }

-- The entries from `equip_id` on; `none` when a block is not granted.
unfoldable pub create_log_items : Alloc → ℕ → List ℕ → Option (List LogItem)
unfolding log_item_new
create_log_items alloc equip_id [] = some []
create_log_items alloc equip_id (code ∷ codes) =
    let item = log_item_new equip_id code in
    let rest = create_log_items alloc (suc equip_id) codes in
    if alloc item.range then (do items ← rest; some (item ∷ items)) else none

unfoldable pub diag_log_mask_init : Alloc → Option LogMask
diag_log_mask_init alloc =
    if alloc (max_equip_id * sizeof_log_item)
    then (do
      items ← create_log_items alloc 0 log_code_last_tbl
      some (record { items = items; status = mask_invalid }))
    else none

unfoldable pub disable_items : List LogItem → Option (List LogItem)
disable_items [] = some []
disable_items (item ∷ items) = do
  cleared ← fill item.ptr 0 item.range
  rest ← disable_items items
  some (record item { ptr = cleared } ∷ rest)

unfoldable pub diag_cmd_disable_log : LogMask → Option LogMask
diag_cmd_disable_log m = do
  items ← disable_items m.items
  some (record { items = items; status = mask_all_disabled })

-- The first `count` entries' numbers of items.
unfoldable pub diag_cmd_get_log_range : LogMask → ℕ → List ℕ
diag_cmd_get_log_range m count =
    take (min max_equip_id count) (map (λ i. i.num_items_tools) m.items)

-- What `diag_cmd_set_log_mask` leaves in `*num_items` and `*mask_size`.
pub record LogReply : Type 0 where
  pub result : Result
  pub num_items : ℕ
  pub mask_size : ℕ

-- The body of the loop at the entry that is found: the entry, the status and the reply.
unfoldable pub set_log_item :
    Alloc → (ℕ → ℕ) → LogItem → ℕ → Bytes → Option (LogItem × ℕ × LogReply)
set_log_item alloc junk item num_items mask =
    let tools : ℕ = min num_items max_items_allowed in
    let size = bits_to_bytes tools in
    do
      cleared ← fill item.ptr 0 item.range_tools
      let grown = resize junk cleared size
      if ltb item.range_tools size
          then (if alloc size
              then (do
                blank ← fill grown 0 size
                stored ← copy_in blank 0 mask size
                some (
                  record item { num_items_tools = tools; range_tools = size; ptr = stored },
                  mask_valid,
                  record { result = done; num_items = tools; mask_size = size },
                ))
              else some (
                record item { num_items_tools = tools; ptr = cleared },
                mask_invalid,
                record { result = failed; num_items = num_items; mask_size = size },
              ))
          else (do
            stored ← copy_in cleared 0 mask size
            some (
              record item { num_items_tools = tools; ptr = stored },
              mask_valid,
              record { result = done; num_items = tools; mask_size = size },
            ))

unfoldable pub set_log_items :
    Alloc → (ℕ → ℕ) → ℕ → ℕ → Bytes → ℕ → ℕ → List LogItem → Option (List LogItem × ℕ × LogReply)
set_log_items alloc junk equip_id num_items mask mask_size status [] =
    some ([], status, record { result = absent; num_items = num_items; mask_size = mask_size })
set_log_items alloc junk equip_id num_items mask mask_size status (item ∷ items) =
    elim (item.equip_id == equip_id) [
      | true ↦ do
        (item', status', reply) ← set_log_item alloc junk item num_items mask
        some (item' ∷ items, status', reply)
      | false ↦ do
        (items', status', reply) ←
            set_log_items alloc junk equip_id num_items mask mask_size status items
        some (item ∷ items', status', reply)
    ]

-- `equip_id` is a `uint8_t`; `mask_size` is what `*mask_size` holds before the call.
unfoldable pub diag_cmd_set_log_mask :
    Alloc → (ℕ → ℕ) → LogMask → ℕ → ℕ → Bytes → ℕ → Option (LogMask × LogReply)
diag_cmd_set_log_mask alloc junk m equip_id num_items mask mask_size = do
  (items, status, reply) ←
      set_log_items alloc junk (equip_id % 256) num_items mask mask_size m.status m.items
  some (record { items = items; status = status }, reply)

-- The result, `*num_items`, `*mask_size`, and the copy if one was made.
pub record LogCopy : Type 0 where
  pub result : Result
  pub num_items : ℕ
  pub mask_size : ℕ
  pub mask : Option Bytes

unfoldable pub get_log_items : Alloc → ℕ → ℕ → ℕ → List LogItem → Option LogCopy
get_log_items alloc equip_id num_items mask_size [] =
    some (record { result = absent; num_items = num_items; mask_size = mask_size; mask = none })
get_log_items alloc equip_id num_items mask_size (item ∷ items) = elim (item.equip_id == equip_id) [
  | true ↦
      let size = bits_to_bytes item.num_items_tools in
      if alloc size
      then (do
        copy ← copy_out item.ptr size
        some (record {
          result = done;
          num_items = item.num_items_tools;
          mask_size = size;
          mask = some copy;
        }))
      else some (record {
        result = failed;
        num_items = item.num_items_tools;
        mask_size = size;
        mask = none;
      })
  | false ↦ get_log_items alloc equip_id num_items mask_size items
]

unfoldable pub diag_cmd_get_log_mask : Alloc → LogMask → ℕ → ℕ → ℕ → Option LogCopy
diag_cmd_get_log_mask alloc m equip_id num_items mask_size =
    get_log_items alloc equip_id num_items mask_size m.items
