-- ===== src/Cntl/Layout/Copies.antt =====
-- The size of the copy that the log mask packet of router/diag_cntl.c carries.
use diag.Base.{
  ℕ, subst, ◌+◌, ◌≤◌, ◌<◌, ◌≡◌, refl, sym, ap, ◌∙◌, ◌≢◌, ◌⊎◌, inl, inr, true, false, Option, none,
  some, List, [], ◌∷◌, arith, leb, ◌==◌, Bool-cases, Option-cases, length, take, length-take, All,
}
use diag.Bytes.{Bytes, bits_to_bytes}
use diag.World.{Alloc}
use diag.Masks.Memory.{copy_out, copy_out_fits, done, failed}
use diag.Masks.Log.{LogCopy, LogItem, get_log_items}

-- The bytes of a copy are as many as its size says, or none were copied.
abbrev pub HasSize : LogCopy → Type 0
HasSize c = (c.mask ≡ none) ⊎ ((m : Bytes) × (c.mask ≡ some m) × (length m ≡ c.mask_size))

abbrev bytes_or : Bytes → Option Bytes → Bytes
bytes_or d none = d
bytes_or d (some m) = m

abbrev copy_or : LogCopy → Option LogCopy → LogCopy
copy_or d none = d
copy_or d (some c) = c

pub copied : (src : Bytes) (n : ℕ) (m : Bytes) → copy_out src n ≡ some m → length m ≡ n
unfolding copy_out
copied src n m h = elim (Bool-cases (leb n (length src))) [
  | inl fits ↦
      let same : take n src ≡ m = ap (bytes_or []) (rw fits at h) in
      ap (length {0}) (sym same) ∙ length-take n src ∙ ground (arith, fits)
  | inr beyond ↦ absurd (ground (arith, rw beyond at h))
]

abbrev pub IsSized : LogCopy → Type 0
IsSized c = HasSize c × (11 + c.mask_size < 4294967296)

-- The four ends of the search at an item.
module _ (alloc : Alloc) (equip_id : ℕ) (i : LogItem) (items : List LogItem) where
  abbrev search : Option LogCopy
  search = get_log_items alloc equip_id 0 0 (i ∷ items)

  abbrev size : ℕ
  size = bits_to_bytes i.num_items_tools

  further : (i.equip_id == equip_id) ≡ false → search ≡ get_log_items alloc equip_id 0 0 items
  unfolding get_log_items
  further other = rw (other, get_log_items) refl

  no_memory :
      (i.equip_id == equip_id) ≡ true
      → alloc size ≡ false
      → search
        ≡ some (record {
          result = failed;
          num_items = i.num_items_tools;
          mask_size = size;
          mask = none;
        })
  unfolding get_log_items
  no_memory same full = rw (same, get_log_items, full) refl

  too_short :
      (i.equip_id == equip_id) ≡ true
      → alloc size ≡ true
      → copy_out i.ptr size ≡ none
      → search ≡ none
  unfolding get_log_items
  too_short same granted beyond = rw (same, get_log_items, granted, beyond) refl

  copies :
      (m : Bytes)
      → (i.equip_id == equip_id) ≡ true
      → alloc size ≡ true
      → copy_out i.ptr size ≡ some m
      → search
        ≡ some (record {
          result = done;
          num_items = i.num_items_tools;
          mask_size = size;
          mask = some m;
        })
  unfolding get_log_items
  copies m same granted out = rw (same, get_log_items, granted, out) refl

pub get_log_items-IsSized :
    (alloc : Alloc) (equip_id : ℕ) (items : List LogItem) (c : LogCopy)
    → All (λ i. 11 + bits_to_bytes i.num_items_tools < 4294967296) items
    → get_log_items alloc equip_id 0 0 items ≡ some c
    → IsSized c
unfolding get_log_items
get_log_items-IsSized alloc equip_id [] c h e =
    subst IsSized (ap (copy_or c) e) (inl refl, omega arith)
get_log_items-IsSized alloc equip_id (i ∷ items) c h e =
    elim (Bool-cases (i.equip_id == equip_id)) [
      | inr other ↦
          get_log_items-IsSized alloc equip_id items c h.1
            (sym (further alloc equip_id i items other) ∙ e)
      | inl same ↦ elim (Bool-cases (alloc (bits_to_bytes i.num_items_tools))) [
        | inr full ↦
            subst IsSized (ap (copy_or c) (sym (no_memory alloc equip_id i items same full) ∙ e))
              (inl refl, h.0)
        | inl granted ↦ elim (Option-cases (copy_out i.ptr (bits_to_bytes i.num_items_tools))) [
          | inl beyond ↦
              absurd
                (ground (arith, sym (too_short alloc equip_id i items same granted beyond) ∙ e))
          | inr (m, out) ↦
              subst IsSized
                (ap (copy_or c) (sym (copies alloc equip_id i items m same granted out) ∙ e))
                (inr (m, refl, copied i.ptr (bits_to_bytes i.num_items_tools) m out), h.0)
        ]
      ]
    ]

-- The search does not fail where the blocks are as long as their bits say.
pub get_log_items-returns :
    (alloc : Alloc) (equip_id : ℕ) (items : List LogItem)
    → All (λ i. bits_to_bytes i.num_items_tools ≤ length i.ptr) items
    → get_log_items alloc equip_id 0 0 items ≢ none
unfolding get_log_items
get_log_items-returns alloc equip_id [] v e = ground (arith, e)
get_log_items-returns alloc equip_id (i ∷ items) v e = elim (Bool-cases (i.equip_id == equip_id)) [
  | inr other ↦
      get_log_items-returns alloc equip_id items v.1
        (sym (further alloc equip_id i items other) ∙ e)
  | inl same ↦ elim (Bool-cases (alloc (bits_to_bytes i.num_items_tools))) [
    | inr full ↦ ground (arith, sym (no_memory alloc equip_id i items same full) ∙ e)
    | inl granted ↦ ground (
      arith,
      sym (
            copies alloc equip_id i items _ same granted
              (copy_out_fits i.ptr (bits_to_bytes i.num_items_tools) v.0))
          ∙ e,
    )
  ]
]
