-- ===== src/Cntl/Layout.antt =====
-- The packed structures of router/diag_cntl.c as the widths of their fields in bytes, without the
-- array at their end; a field holds its number with the low byte first.
pub mod Fields
pub mod Laws
pub mod Copies
pub mod Sent
pub mod Register
pub mod Deregister
pub mod Restore
mod Tests
pub mod Modes
use diag.Base.{
  ℕ, subst, zero, suc, ◌+◌, ◌-◌, ◌*◌, ◌/◌, ◌%◌, ◌^◌, ◌≤◌, ◌<◌, min, bit_and, bit_or, bit_xor, ◌≡◌,
  refl, sym, ap, ap₂, ◌∙◌, ◌≢◌, ◌↔◌, ◌⊎◌, inl, inr, Bool, true, false, not, ◌&&◌, ◌||◌, Option,
  none, some, List, [], ◌∷◌, ◌++◌, map, append-nil, append_assoc, arith, ltb, leb, ◌==◌,
  if◌then◌else◌, ltb→lt, ==_iff, ==_refl, Bool-cases, Option-cases, length, get_elem?, get_or, set,
  take, drop, replicate, keep_if, length-append, length-set, length-take, length-drop,
  length-replicate, get_or-set_self, get_or-set_ne, take-append, drop-append, All, All-append,
  passes_below, passes_below-lt, bit_xor_step, bit_xor-zero, bit_xor_fields, bit_xor-lt,
}
use diag.Bytes.{Bytes}

-- The bytes of a field, and its number.
unfoldable pub le : ℕ → ℕ → Bytes
le zero n = []
le (suc width) n = (n % 256) ∷ le width (n / 256)

unfoldable pub number : ℕ → Bytes → ℕ
number zero s = 0
number (suc width) [] = 0
number (suc width) (c ∷ s) = c + 256 * number width s

unfoldable pub pack : List ℕ → List ℕ → Bytes
unfolding le
pack (width ∷ layout) (n ∷ values) = le width n ++ pack layout values
pack _ _ = []

unfoldable pub fields : List ℕ → Bytes → List ℕ
unfolding number
fields [] s = []
fields (width ∷ layout) s = number width s ∷ fields layout (drop width s)

-- `sizeof` of a packed structure.
unfoldable pub size_of : List ℕ → ℕ
size_of [] = 0
size_of (width ∷ layout) = width + size_of layout

-- `cmd` and `len`
abbrev pub diag_cntl_hdr : List ℕ
diag_cntl_hdr = 4 ∷ 4 ∷ []

-- `first`, `last` and `data`
abbrev pub cmd_range_reg : List ℕ
cmd_range_reg = 2 ∷ 2 ∷ 4 ∷ []

-- `version`, `cmd`, `subsys`, `count_entries` and `port` behind the header
abbrev pub diag_cntl_cmd_reg : List ℕ
diag_cntl_cmd_reg = 4 ∷ 4 ∷ 4 ∷ 2 ∷ 2 ∷ 2 ∷ 2 ∷ []

-- `version`, `sleep_vote`, `real_time` and six more words
abbrev pub diag_cntl_cmd_diag_mode : List ℕ
diag_cntl_cmd_diag_mode = 4 ∷ 4 ∷ 4 ∷ 4 ∷ 4 ∷ 4 ∷ 4 ∷ 4 ∷ 4 ∷ 4 ∷ 4 ∷ []

-- the same with `diag_id`
abbrev pub diag_cntl_cmd_diag_mode_v2 : List ℕ
diag_cntl_cmd_diag_mode_v2 = 4 ∷ 4 ∷ 4 ∷ 4 ∷ 4 ∷ 4 ∷ 4 ∷ 4 ∷ 4 ∷ 4 ∷ 4 ∷ 1 ∷ []

-- `mask_len` and `mask`
abbrev pub diag_cntl_cmd_feature : List ℕ
diag_cntl_cmd_feature = 4 ∷ 4 ∷ 4 ∷ 4 ∷ []

-- `stream_id`, `status`, `equip_id`, `last_item` and `log_mask_size`
abbrev pub diag_cntl_cmd_log_mask : List ℕ
diag_cntl_cmd_log_mask = 4 ∷ 4 ∷ 1 ∷ 1 ∷ 1 ∷ 4 ∷ 4 ∷ []

-- `stream_id`, `status`, `msg_mode`, the two ends of `range`, and `msg_mask_len`
abbrev pub diag_cntl_cmd_msg_mask : List ℕ
diag_cntl_cmd_msg_mask = 4 ∷ 4 ∷ 1 ∷ 1 ∷ 1 ∷ 2 ∷ 2 ∷ 4 ∷ []

-- `stream_id`, `status`, `event_config` and `event_mask_len`
abbrev pub diag_cntl_cmd_event_mask : List ℕ
diag_cntl_cmd_event_mask = 4 ∷ 4 ∷ 1 ∷ 1 ∷ 1 ∷ 4 ∷ []

-- `first` and `last`
abbrev pub cmd_range_dereg : List ℕ
cmd_range_dereg = 2 ∷ 2 ∷ []

-- `version`, `stream_id` and `tx_mode`
abbrev pub diag_cntl_cmd_buffering_tx_mode : List ℕ
diag_cntl_cmd_buffering_tx_mode = 4 ∷ 4 ∷ 4 ∷ 1 ∷ 1 ∷ []

-- `version`, `diag_id`, `stream_id` and `tx_mode`
abbrev pub diag_cntl_cmd_buffering_tx_mode_v2 : List ℕ
diag_cntl_cmd_buffering_tx_mode_v2 = 4 ∷ 4 ∷ 4 ∷ 1 ∷ 1 ∷ 1 ∷ []

-- `version`, `cmd`, `subsys` and `count_entries`
abbrev pub diag_cntl_cmd_dereg : List ℕ
diag_cntl_cmd_dereg = 4 ∷ 4 ∷ 4 ∷ 2 ∷ 2 ∷ 2 ∷ []

-- `version` and `diag_id`
abbrev pub diag_cntl_cmd_diag_id : List ℕ
diag_cntl_cmd_diag_id = 4 ∷ 4 ∷ 4 ∷ 4 ∷ []
