-- ===== src/Masks/Msg/Laws.antt =====
-- The message masks: what is stored and read back, and where the two sizes of an entry part.
use diag.Base.{
  ℕ, ◌+◌, ◌-◌, ◌*◌, ◌%◌, ◌^◌, ◌≤◌, ◌<◌, ◌≡◌, refl, ◌∙◌, ◌≢◌, inl, inr, true, none, some, List, [],
  ◌∷◌, ◌++◌, arith, Option-cases, length, take, drop, length-take, length-replicate, All,
}
use diag.Bytes.{u32}
use diag.World.{Alloc}
use diag.Masks.Memory.{
  done, mask_valid, copy_in, resize, length-resize, length-copy_in, copy_in_fits, copy_out_fits,
  copy_out_beyond,
}
use diag.Masks.Msg.{
  SsidRange, MsgItem, MsgMask, MsgCopy, max_ssid_per_range, create_msg_item, create_msg_items,
  ssid_first_arr, ssid_last_arr, diag_msg_mask_init, get_build_items, get_msg_item, get_msg_items,
  diag_cmd_get_msg_mask, cap_range, grow_range, store_msg_item, set_msg_item,
}

-- The block holds both of the entry's sizes.
pub record IsValidItem (i : MsgItem) : Type 0 where
  pub holds_range : i.range ≤ length i.ptr
  pub holds_tools : i.range_tools ≤ length i.ptr

abbrev pub IsValid : MsgMask → Type 0
IsValid m = All IsValidItem m.items

create_msg_item-IsValid :
    (alloc : Alloc) (first last : ℕ) {i : MsgItem}
    → create_msg_item alloc first last ≡ some i
    → IsValidItem i
unfolding create_msg_item
create_msg_item-IsValid alloc first last h = ground (
  arith,
  length-replicate {A = ℕ} 200 0xffffffff,
  length-replicate {A = ℕ} (u32 (last + 2 ^ 32 - first + 1)) 0xffffffff,
)

create_msg_items-IsValid :
    (alloc : Alloc) (firsts lasts : List ℕ) {items : List MsgItem}
    → create_msg_items alloc firsts lasts ≡ some items
    → All IsValidItem items
unfolding create_msg_items
create_msg_items-IsValid alloc (first ∷ firsts) (last ∷ lasts) {items} h =
    elim (Option-cases (create_msg_item alloc first last)) [
      | inl missing ↦ absurd (ground (arith, missing))
      | inr (item, made) ↦ elim (Option-cases (create_msg_items alloc firsts lasts)) [
        | inl missing ↦ absurd (ground (arith, missing, made))
        | inr (rest, given) ↦
            let same : items ≡ item ∷ rest = ground (arith, given, made) in
            rw same (
              create_msg_item-IsValid alloc first last made,
              create_msg_items-IsValid alloc firsts lasts given,
            )
      ]
    ]
create_msg_items-IsValid alloc [] lasts {items} h =
    let same : items ≡ [] = ground arith in rw same tt
create_msg_items-IsValid alloc (first ∷ firsts) [] {items} h =
    let same : items ≡ [] = ground arith in rw same tt

-- Whatever the allocator grants, the tables that the initialisation makes are valid.
pub diag_msg_mask_init-IsValid :
    (alloc : Alloc) {m : MsgMask} → diag_msg_mask_init alloc ≡ some m → IsValid m
unfolding diag_msg_mask_init
diag_msg_mask_init-IsValid alloc {m} h =
    elim (Option-cases (create_msg_items alloc ssid_first_arr ssid_last_arr)) [
      | inl missing ↦ absurd (ground (arith, missing))
      | inr (items, given) ↦
          let same : m.items ≡ items = ground (arith, given) in
          rw same (create_msg_items-IsValid alloc ssid_first_arr ssid_last_arr given)
    ]

get_msg_item_total : (alloc : Alloc) (i : MsgItem) → IsValidItem i → get_msg_item alloc i ≢ none
unfolding get_msg_item
get_msg_item_total alloc i v missing = ground (arith, copy_out_fits i.ptr i.range v.holds_range)

get_msg_items_total :
    (alloc : Alloc) (range : SsidRange) (items : List MsgItem)
    → All IsValidItem items
    → get_msg_items alloc range items ≢ none
unfolding get_msg_items
get_msg_items_total alloc range [] v missing = cc
get_msg_items_total alloc range (i ∷ items) v missing =
    ground (arith, get_msg_item_total alloc i v.0, get_msg_items_total alloc range items v.1)

-- On a valid table no read of a message mask leaves a block.
pub diag_cmd_get_msg_mask-ne-none :
    (alloc : Alloc) (m : MsgMask) (range : SsidRange)
    → IsValid m
    → diag_cmd_get_msg_mask alloc m range ≢ none
unfolding diag_cmd_get_msg_mask
diag_cmd_get_msg_mask-ne-none alloc m range v = get_msg_items_total alloc range m.items v

-- A request inside what the tools have set, for as many words as the entry has left, is stored at
-- its offset; no other word changes, nothing is allocated, and the entry stays valid.
pub set_msg_item-stores :
    (alloc : Alloc) (junk : ℕ → ℕ) (range : SsidRange) (mask : List ℕ) (status num : ℕ)
    (i : MsgItem)
    → IsValidItem i
    → i.ssid_first ≤ range.ssid_first
    → range.ssid_first + num ≡ range.ssid_last + 1
    → num ≤ max_ssid_per_range
    → range.ssid_last < 2 ^ 16
    → range.ssid_last ≤ i.ssid_last_tools
    → range.ssid_first - i.ssid_first + num ≤ i.range_tools
    → num ≤ length mask
    → (i' : MsgItem) × (set_msg_item alloc junk range mask status i ≡ some (done, mask_valid, i'))
      × (i'.ptr
          ≡ take (range.ssid_first - i.ssid_first) i.ptr
            ++ (take num mask ++ drop (range.ssid_first - i.ssid_first + num) i.ptr))
      × IsValidItem i'
unfolding set_msg_item cap_range grow_range store_msg_item
set_msg_item-stores alloc junk range mask status num i v a b c d e f g = (
  record i { ptr = stored },
  ground (arith, copied),
  refl,
  record {
    holds_range = omega (arith, v.holds_range, same_length);
    holds_tools = omega (arith, v.holds_tools, same_length);
  },
)
  where
    offset : ℕ
    offset = range.ssid_first - i.ssid_first

    stored : List ℕ
    stored = take offset i.ptr ++ (take num mask ++ drop (offset + num) i.ptr)

    copied : copy_in i.ptr offset mask num ≡ some stored
    copied = copy_in_fits i.ptr offset mask num (omega (arith, v.holds_tools)) g

    same_length : length stored ≡ length i.ptr
    same_length = length-copy_in i.ptr offset mask num copied

-- A request that begins where an entry begins, reaches past what the tools have set and has fewer
-- words than the entry's range is stored by shrinking the entry's block to its own length; the
-- next read of the entry then leaves the block.
pub set_msg_item_shrinks :
    (alloc grants : Alloc) (junk : ℕ → ℕ) (range : SsidRange) (mask : List ℕ) (status num : ℕ)
    (i : MsgItem)
    → i.ssid_first ≡ range.ssid_first
    → range.ssid_first + num ≡ range.ssid_last + 1
    → range.ssid_last < 2 ^ 16
    → i.ssid_last_tools < range.ssid_last
    → num < i.range
    → num < max_ssid_per_range
    → num ≤ length mask
    → grants (num * 4) ≡ true
    → alloc (u32 (i.range * 4)) ≡ true
    → (i' : MsgItem) × (set_msg_item grants junk range mask status i ≡ some (done, mask_valid, i'))
      × (length i'.ptr ≡ num)
      × (get_msg_item alloc i' ≡ none)
unfolding set_msg_item cap_range grow_range store_msg_item get_msg_item
set_msg_item_shrinks alloc grants junk range mask status num i a b c d e f g h k = (
  record i { ssid_last_tools = range.ssid_last; range_tools = num; ptr = stored },
  ground (arith, copied, length-resize junk i.ptr num),
  shrunk,
  ground (arith, shrunk, copy_out_beyond stored i.range),
)
  where
    block : List ℕ
    block = resize junk i.ptr num

    stored : List ℕ
    stored = take 0 block ++ (take num mask ++ drop (0 + num) block)

    copied : copy_in block 0 mask num ≡ some stored
    copied = copy_in_fits block 0 mask num (omega (arith, length-resize junk i.ptr num)) g

    shrunk : length stored ≡ num
    shrunk = length-copy_in block 0 mask num copied ∙ length-resize junk i.ptr num

-- A build mask that is asked for with more identifiers than the entry has is reported with a range
-- that counts one identifier more than the words that were copied.
pub get_build_items_cut :
    (alloc : Alloc) (range : SsidRange) (i : MsgItem) (items : List MsgItem) (wanted : ℕ)
    → i.ssid_first ≡ range.ssid_first
    → range.ssid_first + wanted ≡ range.ssid_last + 1
    → range.ssid_last < 2 ^ 16
    → i.range < wanted
    → i.range ≤ length i.ptr
    → alloc (u32 (i.range * 4)) ≡ true
    → (c : MsgCopy) × (words : List ℕ) × (get_build_items alloc range (i ∷ items) ≡ some c)
      × (c.mask ≡ some words)
      × (c.range.ssid_last + 1 ≡ c.range.ssid_first + (length words + 1))
unfolding get_build_items
get_build_items_cut alloc range i items wanted a b c d e f = (
  record {
    result = done;
    range = record range { ssid_last = (range.ssid_first + i.range) % 2 ^ 16 };
    mask = some (take i.range i.ptr);
  },
  take i.range i.ptr,
  ground (arith, copy_out_fits i.ptr i.range e),
  refl,
  omega (arith, length-take {0} i.range i.ptr),
)
