-- ===== src/Masks/Log/Laws.antt =====
-- The log masks never leave their blocks, and give back what they were set to.
use diag.Base.{
  ℕ, suc, ◌+◌, ◌/◌, ◌%◌, ◌≤◌, min, ◌≡◌, refl, ◌≢◌, inl, inr, Bool, true, false, ◌||◌, some, List,
  [], ◌∷◌, ◌++◌, arith, ltb, ◌==◌, if◌then◌else◌, Bool-cases, Option-cases, length, take, drop,
  replicate, length-append, length-take, length-drop, length-replicate, All,
}
use diag.Bytes.{Bytes, bits_to_bytes}
use diag.World.{Alloc}
use diag.Masks.Memory.{
  done, mask_valid, copy_in_fits, copy_out_fits, fill_fits, length_filled, take-copied,
}
use diag.Masks.Log.{
  LogItem, LogMask, LogReply, max_items_allowed, max_items_per_equip_id, log_item_new,
  create_log_items, diag_log_mask_init, log_code_last_tbl, set_log_item, set_log_items,
  diag_cmd_set_log_mask, get_log_items, diag_cmd_get_log_mask,
}

-- The block holds both ranges, the larger request fits it, and no more items are set than allowed.
pub record IsValidItem (i : LogItem) : Type 0 where
  pub holds_range : i.range ≤ length i.ptr
  pub holds_tools : i.range_tools ≤ length i.ptr
  pub wide : max_items_per_equip_id ≤ i.range_tools
  pub few : i.num_items_tools ≤ max_items_allowed

abbrev pub IsValid : LogMask → Type 0
IsValid m = All IsValidItem m.items

new-IsValidItem : (e code : ℕ) → IsValidItem (log_item_new e code)
unfolding log_item_new
new-IsValidItem e code =
    ground
      (arith, length-replicate {A = ℕ} 512 0, length-replicate {A = ℕ} ((code % 4096 + 7) / 8) 0)

create-IsValid :
    (alloc : Alloc) (e : ℕ) (codes : List ℕ) {items : List LogItem}
    → create_log_items alloc e codes ≡ some items
    → All IsValidItem items
unfolding create_log_items
create-IsValid alloc e [] h = ground arith
create-IsValid alloc e (code ∷ codes) {items} h =
    elim (Option-cases (create_log_items alloc (suc e) codes)) [
      | inl missing ↦ absurd (ground (arith, missing))
      | inr (rest, given) ↦
          let same : items ≡ log_item_new e code ∷ rest = ground (arith, given) in
          rw same (new-IsValidItem e code, create-IsValid alloc (suc e) codes given)
    ]

-- What a successful request makes of its entry.
abbrev pub stored_log : ℕ → Bytes → LogItem → LogItem
stored_log n mask i =
    let tools : ℕ = min n max_items_allowed in
    let size = bits_to_bytes tools in
    let cleared = replicate i.range_tools 0 ++ drop i.range_tools i.ptr in
    record i { num_items_tools = tools; ptr = [] ++ (take size mask ++ drop (0 + size) cleared) }

abbrev pub set_reply : ℕ → LogReply
set_reply n = record {
  result = done;
  num_items = min n max_items_allowed;
  mask_size = bits_to_bytes (min n max_items_allowed);
}

length_stored :
    (dst mask : Bytes) (size : ℕ)
    → size ≤ length mask
    → size ≤ length dst
    → length ([] ++ (take size mask ++ drop (0 + size) dst)) ≡ length dst
length_stored dst mask size h k = omega (
  arith,
  length-append {0} (take size mask) (drop (0 + size) dst),
  length-take {0} size mask,
  length-drop {0} (0 + size) dst,
)

tools-le : (n : ℕ) → bits_to_bytes (min n max_items_allowed) ≤ max_items_per_equip_id
unfolding bits_to_bytes
tools-le n = omega arith

-- A valid entry is large enough for every request, so its block is never reallocated.
set_log_item_stores :
    (alloc : Alloc) (junk : ℕ → ℕ) (i : LogItem) (n : ℕ) (mask : Bytes)
    → IsValidItem i
    → bits_to_bytes (min n max_items_allowed) ≤ length mask
    → set_log_item alloc junk i n mask ≡ some (stored_log n mask i, mask_valid, set_reply n)
unfolding set_log_item
set_log_item_stores alloc junk i n mask v h = rw (
  fill_fits i.ptr 0 i.range_tools v.holds_tools,
  not_wider,
  copy_in_fits (replicate i.range_tools 0 ++ drop i.range_tools i.ptr) 0 mask
      (bits_to_bytes (min n max_items_allowed))
      (omega (arith, tools-le n, length_filled i.ptr 0 i.range_tools v.holds_tools)) h,
)
  where
    not_wider : ltb i.range_tools (bits_to_bytes (min n max_items_allowed)) ≡ false
    not_wider = ground (arith, tools-le n)

stored-IsValidItem :
    (n : ℕ) (mask : Bytes) (i : LogItem)
    → IsValidItem i
    → bits_to_bytes (min n max_items_allowed) ≤ length mask
    → IsValidItem (stored_log n mask i)
stored-IsValidItem n mask i v h = omega (
  arith,
  length_stored (replicate i.range_tools 0 ++ drop i.range_tools i.ptr) mask
      (bits_to_bytes (min n max_items_allowed)) h,
  length_filled i.ptr 0 i.range_tools v.holds_tools,
  tools-le n,
)

-- The first entry with an identifier, changed.
abbrev pub put_first : ℕ → (LogItem → LogItem) → List LogItem → List LogItem
put_first e g [] = []
put_first e g (i ∷ items) = if i.equip_id == e then g i ∷ items else i ∷ put_first e g items

abbrev pub has_equip : ℕ → List LogItem → Bool
has_equip e [] = false
has_equip e (i ∷ items) = i.equip_id == e || has_equip e items

set_log_items_lem :
    (alloc : Alloc) (junk : ℕ → ℕ) (e n : ℕ) (mask : Bytes) (size status : ℕ) (items : List LogItem)
    → All IsValidItem items
    → has_equip e items ≡ true
    → bits_to_bytes (min n max_items_allowed) ≤ length mask
    → set_log_items alloc junk e n mask size status items
      ≡ some (put_first e (stored_log n mask) items, mask_valid, set_reply n)
unfolding set_log_items
set_log_items_lem alloc junk e n mask size status [] v p h = cc
set_log_items_lem alloc junk e n mask size status (i ∷ items) v p h =
    elim (Bool-cases (i.equip_id == e)) [
      | inl here ↦ rw (here, set_log_items, set_log_item_stores alloc junk i n mask v.0 h)
      | inr there ↦ rw (
        there,
        set_log_items,
        set_log_items_lem alloc junk e n mask size status items v.1 (rw there at p) h,
      )
    ]

put_first-IsValid :
    (e n : ℕ) (mask : Bytes) (items : List LogItem)
    → All IsValidItem items
    → bits_to_bytes (min n max_items_allowed) ≤ length mask
    → All IsValidItem (put_first e (stored_log n mask) items)
put_first-IsValid e n mask [] v h = tt
put_first-IsValid e n mask (i ∷ items) v h = elim (Bool-cases (i.equip_id == e)) [
  | inl here ↦ rw here (stored-IsValidItem n mask i v.0 h, v.1)
  | inr there ↦ rw there (v.0, put_first-IsValid e n mask items v.1 h)
]

get_stored_log :
    (alloc : Alloc) (e n k z : ℕ) (mask : Bytes) (items : List LogItem)
    → All IsValidItem items
    → has_equip e items ≡ true
    → bits_to_bytes (min n max_items_allowed) ≤ length mask
    → alloc (bits_to_bytes (min n max_items_allowed)) ≡ true
    → get_log_items alloc e k z (put_first e (stored_log n mask) items)
      ≡ some (record {
        result = done;
        num_items = min n max_items_allowed;
        mask_size = bits_to_bytes (min n max_items_allowed);
        mask = some (take (bits_to_bytes (min n max_items_allowed)) mask);
      })
unfolding get_log_items
get_stored_log alloc e n k z mask [] v p h g = cc
get_stored_log alloc e n k z mask (i ∷ items) v p h g = elim (Bool-cases (i.equip_id == e)) [
  | inl here ↦ rw (
    here,
    get_log_items,
    here,
    g,
    copy_out_fits (stored_log n mask i).ptr (bits_to_bytes (min n max_items_allowed)) (
        omega (
          arith,
          length_stored (replicate i.range_tools 0 ++ drop i.range_tools i.ptr) mask
              (bits_to_bytes (min n max_items_allowed)) h,
          length_filled i.ptr 0 i.range_tools v.0.holds_tools,
          v.0.holds_tools,
          v.0.wide,
          tools-le n,
        )),
    take-copied mask (bits_to_bytes (min n max_items_allowed))
        (drop (0 + bits_to_bytes (min n max_items_allowed))
          (replicate i.range_tools 0 ++ drop i.range_tools i.ptr))
        h,
  )
  | inr there ↦
      rw (there, get_log_items, there)
        (get_stored_log alloc e n k z mask items v.1 (rw there at p) h g)
]

get_other_log :
    (alloc : Alloc) (e e' n k z : ℕ) (mask : Bytes) (items : List LogItem)
    → e' ≢ e
    → get_log_items alloc e' k z (put_first e (stored_log n mask) items)
      ≡ get_log_items alloc e' k z items
unfolding get_log_items
get_other_log alloc e e' n k z mask [] ne = refl
get_other_log alloc e e' n k z mask (i ∷ items) ne = elim (Bool-cases (i.equip_id == e)) [
  | inl here ↦
      let differs : (i.equip_id == e') ≡ false = ground arith in rw (here, get_log_items, differs)
  | inr there ↦ elim (Bool-cases (i.equip_id == e')) [
    | inl found ↦ rw (there, get_log_items, found)
    | inr missed ↦ rw (there, get_log_items, missed) (get_other_log alloc e e' n k z mask items ne)
  ]
]

-- Every allocation granted or not, the table that the initialisation makes is valid.
pub diag_log_mask_init-IsValid :
    (alloc : Alloc) {m : LogMask} → diag_log_mask_init alloc ≡ some m → IsValid m
unfolding diag_log_mask_init
diag_log_mask_init-IsValid alloc {m} h =
    elim (Option-cases (create_log_items alloc 0 log_code_last_tbl)) [
      | inl missing ↦ absurd (ground (arith, missing))
      | inr (items, given) ↦
          let same : m.items ≡ items = ground (arith, given) in
          rw same (create-IsValid alloc 0 log_code_last_tbl given)
    ]

-- On a valid table, a request for a known equipment that carries its bits is stored whatever the
-- allocator says: the table stays valid, and the reply has the number of items capped at 0xfff and
-- the size of that many bits. No allocation is made.
pub diag_cmd_set_log_mask-stores :
    (alloc : Alloc) (junk : ℕ → ℕ) (m : LogMask) (e n : ℕ) (mask : Bytes) (size : ℕ)
    → IsValid m
    → has_equip (e % 256) m.items ≡ true
    → bits_to_bytes (min n max_items_allowed) ≤ length mask
    → (m' : LogMask) × (diag_cmd_set_log_mask alloc junk m e n mask size ≡ some (m', set_reply n))
      × IsValid m'
      × (m'.status ≡ mask_valid)
unfolding diag_cmd_set_log_mask
diag_cmd_set_log_mask-stores alloc junk m e n mask size v p h = (
  record { items = put_first (e % 256) (stored_log n mask) m.items; status = mask_valid },
  rw (set_log_items_lem alloc junk (e % 256) n mask size m.status m.items v p h),
  put_first-IsValid (e % 256) n mask m.items v h,
  refl,
)

-- On a valid table, for a known equipment and a request that carries its bits: what was set is read
-- back, capped at 0xfff items, where memory is granted for the copy; and the mask of any other
-- equipment reads as before.
pub get_log_mask-set :
    (alloc grants : Alloc) (junk : ℕ → ℕ) (m : LogMask) (e e' n k z size : ℕ) (mask : Bytes)
    {m' : LogMask} {r : LogReply}
    → IsValid m
    → has_equip (e % 256) m.items ≡ true
    → bits_to_bytes (min n max_items_allowed) ≤ length mask
    → alloc (bits_to_bytes (min n max_items_allowed)) ≡ true
    → diag_cmd_set_log_mask grants junk m e n mask size ≡ some (m', r)
    → e' ≢ e % 256
    → (diag_cmd_get_log_mask alloc m' (e % 256) k z
        ≡ some (record {
          result = done;
          num_items = min n max_items_allowed;
          mask_size = bits_to_bytes (min n max_items_allowed);
          mask = some (take (bits_to_bytes (min n max_items_allowed)) mask);
        }))
      × (diag_cmd_get_log_mask alloc m' e' k z ≡ diag_cmd_get_log_mask alloc m e' k z)
unfolding diag_cmd_set_log_mask diag_cmd_get_log_mask
get_log_mask-set alloc grants junk m e e' n k z size mask {m'} v p h g q ne =
    let stored = set_log_items_lem grants junk (e % 256) n mask size m.status m.items v p h in
    let same : m'.items ≡ put_first (e % 256) (stored_log n mask) m.items =
      ground (arith, stored) in
    (
      rw same (get_stored_log alloc (e % 256) n k z mask m.items v p h g),
      rw same (get_other_log alloc (e % 256) e' n k z mask m.items ne),
    )
