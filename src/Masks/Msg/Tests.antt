-- ===== src/Masks/Msg/Tests.antt =====
-- An entry of the message masks, and the theorems on message masks at small requests.
use diag.Base.{
  ℕ, ◌≡◌, refl, true, none, some, List, [], ◌∷◌, arith, length, replicate, length-replicate,
}
use diag.World.{Alloc}
use diag.Masks.Memory.{done, mask_invalid, mask_valid}
use diag.Masks.Msg.{
  SsidRange, MsgItem, MsgMask, ssid_first_arr, ssid_last_arr, create_msg_item, create_msg_items,
  diag_msg_mask_init, set_msg_item, get_msg_item,
}
use diag.Masks.Msg.Laws.{IsValidItem, set_msg_item_shrinks}

abbrev grant : Alloc
grant n = true

-- Memory that nobody has written.
abbrev stale : ℕ → ℕ
stale i = 0xa5

abbrev initial : MsgMask
initial = record {
  items = elim (create_msg_items grant ssid_first_arr ssid_last_arr) [
    | none ↦ []
    | some items ↦ items
  ];
  status = mask_invalid;
}

initial_made : diag_msg_mask_init grant ≡ some initial
unfolding diag_msg_mask_init create_msg_items create_msg_item
initial_made = refl

-- The identifiers 500 to 506, whose entry has 200 words.
abbrev entry : MsgItem
entry = record {
  ssid_first = 500;
  ssid_last = 506;
  ssid_last_tools = 506;
  range = 200;
  range_tools = 200;
  ptr = replicate 200 0xffffffff;
}

entry-IsValidItem : IsValidItem entry
entry-IsValidItem = record {
  holds_range = omega (arith, length-replicate {A = ℕ} 200 0xffffffff);
  holds_tools = omega (arith, length-replicate {A = ℕ} 200 0xffffffff);
}

abbrev table : MsgMask
table = record { items = entry ∷ []; status = mask_valid }

abbrev ids : ℕ → ℕ → SsidRange
ids first last = record { ssid_first = first; ssid_last = last }

-- Eight words for the identifiers 500 to 507 leave eight of the 200.
abbrev eight : List ℕ
eight = replicate 8 1

set_msg_item_shrinks_example :
    (i' : MsgItem) × (set_msg_item grant stale (ids 500 507) eight mask_valid entry
      ≡ some (done, mask_valid, i'))
    × (length i'.ptr ≡ 8)
    × (get_msg_item grant i' ≡ none)
set_msg_item_shrinks_example =
    set_msg_item_shrinks grant grant stale (ids 500 507) eight mask_valid 8 entry refl (omega arith)
      (omega arith) (omega arith) (omega arith) (omega arith) (omega arith) refl refl
