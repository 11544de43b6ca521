-- ===== src/Masks/Msg.antt =====
-- The message masks: a table of word masks for ranges of subsystem identifiers, in two copies, the
-- run-time and the build-time one.
pub mod Laws
mod Tests
use diag.Masks.Memory.{
  Result, done, absent, failed, mask_invalid, mask_all_disabled, mask_all_enabled, mask_valid,
  copy_in, fill, copy_out, resize,
}
use diag.Base.{
  ℕ, ◌+◌, ◌-◌, ◌*◌, ◌%◌, ◌^◌, Bool, true, false, ◌&&◌, Option, none, some, List, [], ◌∷◌, map, ltb,
  leb, ◌==◌, if◌then◌else◌, replicate,
}
use diag.Bytes.{u32}
use diag.World.{Alloc}
use diag.Queue.{◌>>=◌}

-- `struct diag_ssid_range_t`
pub record SsidRange : Type 0 where
  pub ssid_first : ℕ
  pub ssid_last : ℕ

-- `struct diag_msg_mask_t`; `ptr` is the block of words that it points to.
pub record MsgItem : Type 0 where
  pub ssid_first : ℕ
  pub ssid_last : ℕ
  pub ssid_last_tools : ℕ
  pub range : ℕ
  pub range_tools : ℕ
  pub ptr : List ℕ

pub record MsgMask : Type 0 where
  pub items : List MsgItem
  pub status : ℕ

abbrev pub ssid_first_arr : List ℕ
ssid_first_arr =
    0 ∷ 500 ∷ 1000 ∷ 2000 ∷ 3000 ∷ 4000 ∷ 4500 ∷ 4600 ∷ 5000 ∷ 5500 ∷ 6000 ∷ 6500 ∷ 7000 ∷ 7100
    ∷ 7200 ∷ 8000 ∷ 8500 ∷ 9000 ∷ 9500 ∷ 10200 ∷ 10251 ∷ 10300 ∷ 10350 ∷ 10400 ∷ 0xC000 ∷ []

abbrev pub ssid_last_arr : List ℕ
ssid_last_arr =
    120 ∷ 506 ∷ 1007 ∷ 2008 ∷ 3014 ∷ 4010 ∷ 4573 ∷ 4615 ∷ 5033 ∷ 5516 ∷ 6081 ∷ 6521 ∷ 7003 ∷ 7111
    ∷ 7201 ∷ 8000 ∷ 8529 ∷ 9008 ∷ 9510 ∷ 10210 ∷ 10255 ∷ 10300 ∷ 10377 ∷ 10416 ∷ 0xC063 ∷ []

abbrev pub msg_mask_tbl_cnt : ℕ
msg_mask_tbl_cnt = 25

abbrev pub max_ssid_per_range : ℕ
max_ssid_per_range = 200

-- `sizeof(struct diag_msg_mask_t)`, packed.
abbrev pub sizeof_msg_item : ℕ
sizeof_msg_item = 28

-- `diag_create_msg_mask_table_entry`, with the bounds that the two arrays give the entry.
unfoldable pub create_msg_item : Alloc → ℕ → ℕ → Option MsgItem
create_msg_item alloc first last =
    let own = u32 (last + 2 ^ 32 - first + 1) in
    let range : ℕ = if ltb own max_ssid_per_range then max_ssid_per_range else own in
    if alloc (range * 4)
    then some (record {
      ssid_first = first;
      ssid_last = last;
      ssid_last_tools = last;
      range = range;
      range_tools = range;
      ptr = replicate range 0xffffffff;
    })
    else none

-- `diag_create_msg_mask_table` and `diag_create_build_time_mask`.
unfoldable pub create_msg_items : Alloc → List ℕ → List ℕ → Option (List MsgItem)
create_msg_items alloc (first ∷ firsts) (last ∷ lasts) = do
  item ← create_msg_item alloc first last
  rest ← create_msg_items alloc firsts lasts
  some (item ∷ rest)
create_msg_items alloc _ _ = some []

-- `diag_msg_mask_init` and `diag_build_time_mask_init`.
unfoldable pub diag_msg_mask_init : Alloc → Option MsgMask
diag_msg_mask_init alloc =
    if alloc (msg_mask_tbl_cnt * sizeof_msg_item)
    then (do
      items ← create_msg_items alloc ssid_first_arr ssid_last_arr
      some (record { items = items; status = mask_invalid }))
    else none

-- The ranges that the tools have set; none where the copy is not granted.
unfoldable pub diag_cmd_get_ssid_range : Alloc → MsgMask → ℕ × Option (List SsidRange)
diag_cmd_get_ssid_range alloc m = (
  msg_mask_tbl_cnt,
  if alloc (msg_mask_tbl_cnt * 4)
      then some (
          map
            (λ i. record {
              ssid_first = i.ssid_first % 2 ^ 16;
              ssid_last = i.ssid_last_tools % 2 ^ 16;
            })
            m.items)
      else none,
)

-- The result, the range as the call leaves it, and the copy if one was made.
pub record MsgCopy : Type 0 where
  pub result : Result
  pub range : SsidRange
  pub mask : Option (List ℕ)

-- A longer range than the entry's is cut, and ends at `ssid_first + range`.
unfoldable pub get_build_items : Alloc → SsidRange → List MsgItem → Option MsgCopy
get_build_items alloc range [] = some (record { result = absent; range = range; mask = none })
get_build_items alloc range (item ∷ items) = elim (item.ssid_first == range.ssid_first) [
  | true ↦
      let wanted = u32 (range.ssid_last + 2 ^ 32 - range.ssid_first + 1) in
      let cut : Bool = ltb item.range wanted in
      let num : ℕ = if cut then item.range else wanted in
      let range' : SsidRange =
        (if cut
          then record range { ssid_last = (range.ssid_first + item.range) % 2 ^ 16 }
          else range) in
      if alloc (u32 (num * 4))
      then (do
        copy ← copy_out item.ptr num
        some (record { result = done; range = range'; mask = some copy }))
      else some (record { result = failed; range = range'; mask = none })
  | false ↦ get_build_items alloc range items
]

unfoldable pub diag_cmd_get_build_mask : Alloc → MsgMask → SsidRange → Option MsgCopy
diag_cmd_get_build_mask alloc bt range = get_build_items alloc range bt.items

abbrev pub within_tools : SsidRange → MsgItem → Bool
within_tools range item =
    leb item.ssid_first range.ssid_first && leb range.ssid_first item.ssid_last_tools

-- The entry's own range, and as many words as its `range`.
unfoldable pub get_msg_item : Alloc → MsgItem → Option MsgCopy
get_msg_item alloc item =
    let range' : SsidRange = record {
      ssid_first = item.ssid_first % 2 ^ 16;
      ssid_last = item.ssid_last % 2 ^ 16;
    } in
    if alloc (u32 (item.range * 4))
    then (do
      copy ← copy_out item.ptr item.range
      some (record { result = done; range = range'; mask = some copy }))
    else some (record { result = failed; range = range'; mask = none })

unfoldable pub get_msg_items : Alloc → SsidRange → List MsgItem → Option MsgCopy
get_msg_items alloc range [] = some (record { result = absent; range = range; mask = none })
get_msg_items alloc range (item ∷ items) = elim (within_tools range item) [
  | true ↦ get_msg_item alloc item
  | false ↦ get_msg_items alloc range items
]

unfoldable pub diag_cmd_get_msg_mask : Alloc → MsgMask → SsidRange → Option MsgCopy
diag_cmd_get_msg_mask alloc m range = get_msg_items alloc range m.items

-- Whether a request belongs to an entry, given the first identifier of the next entry.
unfoldable pub is_entry_for : SsidRange → MsgItem → List MsgItem → Bool
is_entry_for range item [] =
    leb item.ssid_first range.ssid_first
    && leb range.ssid_first (u32 (item.ssid_first + max_ssid_per_range))
is_entry_for range item (next ∷ _) =
    leb item.ssid_first range.ssid_first
    && (leb range.ssid_first (u32 (item.ssid_first + max_ssid_per_range))
        && ltb range.ssid_first next.ssid_first)

-- A request for too many identifiers sets the entry to the most that is allowed.
unfoldable pub cap_range : SsidRange → MsgItem → ℕ × MsgItem
cap_range range item =
    let num = u32 (range.ssid_last + 2 ^ 32 - range.ssid_first + 1) in
    if ltb max_ssid_per_range num
    then (
      max_ssid_per_range,
      record item {
        range_tools = max_ssid_per_range;
        ssid_last_tools = u32 (item.ssid_first + max_ssid_per_range);
      },
    )
    else (num, item)

-- A request past the entry's end moves that end and reallocates the words to `range_tools`.
unfoldable pub grow_range : Alloc → (ℕ → ℕ) → SsidRange → ℕ → MsgItem → Bool × MsgItem
grow_range alloc junk range num item =
    if ltb item.ssid_last_tools range.ssid_last
    then (let last : ℕ =
          if num == max_ssid_per_range then item.ssid_last_tools else range.ssid_last in
        let tools = u32 (last + 2 ^ 32 - item.ssid_first + 1) in
        if alloc (u32 (tools * 4))
        then (
          true,
          record item {
            ssid_last_tools = last;
            range_tools = tools;
            ptr = resize junk item.ptr tools;
          },
        )
        else (false, record item { ssid_last_tools = last; range_tools = tools }))
    else (true, item)

-- The copy into the entry, where it has room.
unfoldable pub store_msg_item : SsidRange → ℕ → List ℕ → ℕ → MsgItem → Option (Result × ℕ × MsgItem)
store_msg_item range num mask status item =
    let offset = u32 (range.ssid_first + 2 ^ 32 - item.ssid_first) in
    if ltb item.range_tools (u32 (offset + num)) then some (absent, status, item) else (do
      stored ← copy_in item.ptr offset mask num
      some (done, mask_valid, record item { ptr = stored }))

unfoldable pub set_msg_item :
    Alloc → (ℕ → ℕ) → SsidRange → List ℕ → ℕ → MsgItem → Option (Result × ℕ × MsgItem)
set_msg_item alloc junk range mask status item =
    let (num, item1) = cap_range range item in
    let (granted, item2) = grow_range alloc junk range num item1 in
    if granted
    then store_msg_item range num mask status item2
    else some (failed, mask_invalid, item2)

unfoldable pub set_msg_items :
    Alloc → (ℕ → ℕ) → SsidRange → List ℕ → ℕ → List MsgItem → Option (Result × ℕ × List MsgItem)
set_msg_items alloc junk range mask status [] = some (absent, status, [])
set_msg_items alloc junk range mask status (item ∷ items) = elim (is_entry_for range item items) [
  | true ↦ do
    (r, status', item') ← set_msg_item alloc junk range mask status item
    some (r, status', item' ∷ items)
  | false ↦ do
    (r, status', items') ← set_msg_items alloc junk range mask status items
    some (r, status', item ∷ items')
]

unfoldable pub diag_cmd_set_msg_mask :
    Alloc → (ℕ → ℕ) → MsgMask → SsidRange → List ℕ → Option (Result × MsgMask)
diag_cmd_set_msg_mask alloc junk m range mask = do
  (r, status, items) ← set_msg_items alloc junk range mask m.status m.items
  some (r, record { items = items; status = status })

-- `memset` stores the low byte of `mask` in each byte of each word.
abbrev pub low_byte_word : ℕ → ℕ
low_byte_word mask = mask % 256 * 0x01010101

unfoldable pub set_all_items : ℕ → List MsgItem → Option (List MsgItem)
set_all_items mask [] = some []
set_all_items mask (item ∷ items) = do
  stored ← fill item.ptr (low_byte_word mask) item.range_tools
  rest ← set_all_items mask items
  some (record item { ptr = stored } ∷ rest)

unfoldable pub diag_cmd_set_all_msg_mask : MsgMask → ℕ → Option MsgMask
diag_cmd_set_all_msg_mask m mask = do
  items ← set_all_items mask m.items
  some
      (record { items = items; status = if mask == 0 then mask_all_disabled else mask_all_enabled })
