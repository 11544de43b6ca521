-- ===== src/Masks/Log/Tests.antt =====
-- A small table of log masks, and the theorems on log masks at small requests.
use diag.Base.{
  ℕ, ◌≤◌, min, ◌≡◌, refl, true, false, none, some, [], ◌∷◌, arith, length, take, replicate,
  length-replicate,
}
use diag.Bytes.{Bytes, bits_to_bytes}
use diag.World.{Alloc}
use diag.Masks.Memory.{done, mask_invalid}
use diag.Masks.Log.{
  LogItem, LogMask, max_items_allowed, log_code_last_tbl, create_log_items, log_item_new,
  diag_log_mask_init, diag_cmd_get_log_mask,
}
use diag.Masks.Log.Laws.{IsValidItem, diag_cmd_set_log_mask-stores, get_log_mask-set}

abbrev grant : Alloc
grant n = true

abbrev refuse : Alloc
refuse n = false

-- Memory that nobody has written.
abbrev stale : ℕ → ℕ
stale i = 0xa5

abbrev initial : LogMask
initial = record {
  items = elim (create_log_items grant 0 log_code_last_tbl) [ none ↦ [] | some items ↦ items ];
  status = mask_invalid;
}

initial_made : diag_log_mask_init grant ≡ some initial
unfolding diag_log_mask_init create_log_items log_item_new bits_to_bytes
initial_made = refl

abbrev entry : ℕ → LogItem
entry equip_id = record {
  equip_id = equip_id;
  num_items = 8;
  num_items_tools = 8;
  range = 512;
  range_tools = 512;
  ptr = replicate 512 0;
}

abbrev table : LogMask
table = record { items = entry 1 ∷ entry 4 ∷ []; status = mask_invalid }

entry-IsValidItem : (equip_id : ℕ) → IsValidItem (entry equip_id)
entry-IsValidItem equip_id = record {
  holds_range = omega (arith, length-replicate {A = ℕ} 512 0);
  holds_tools = omega (arith, length-replicate {A = ℕ} 512 0);
  wide = omega arith;
  few = omega arith;
}

-- Twelve items in two bytes, set without any memory to spare.
abbrev bits : Bytes
bits = 0xff ∷ 0x0f ∷ []

bits_size : bits_to_bytes (min 12 max_items_allowed) ≤ length bits
unfolding bits_to_bytes
bits_size = omega arith

abbrev set_table : LogMask
set_table =
    (diag_cmd_set_log_mask-stores refuse stale table 4 12 bits 2
      (entry-IsValidItem 1, (entry-IsValidItem 4, tt)) refl bits_size).0

get_log_mask-set_example :
    (diag_cmd_get_log_mask grant set_table 4 0 0
      ≡ some (record {
        result = done;
        num_items = 12;
        mask_size = bits_to_bytes 12;
        mask = some (take (bits_to_bytes 12) bits);
      }))
    × (diag_cmd_get_log_mask grant set_table 1 0 0 ≡ diag_cmd_get_log_mask grant table 1 0 0)
get_log_mask-set_example =
    get_log_mask-set grant refuse stale table 4 1 12 0 0 2 bits
      (entry-IsValidItem 1, (entry-IsValidItem 4, tt)) refl bits_size refl
      ((diag_cmd_set_log_mask-stores refuse stale table 4 12 bits 2
        (entry-IsValidItem 1, (entry-IsValidItem 4, tt)) refl bits_size).1)
      (omega arith)
