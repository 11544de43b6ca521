-- ===== src/Perif.antt =====
-- The channels of the peripherals: router/peripheral-rpmsg.c and router/peripheral-qrtr.c. Callbacks
-- and queues are numbers made from the peripheral's address.
pub mod Frame
pub mod Rpmsg
pub mod Nodes
pub mod Qrtr
mod Tests
use diag.Base.{
  ℕ, zero, suc, ◌+◌, ◌-◌, ◌*◌, ◌/◌, ◌%◌, ◌^◌, ◌≤◌, ◌<◌, min, bit_and, bit_or, bit_xor, ◌≡◌, refl,
  sym, ap, ap₂, ◌∙◌, ◌≢◌, ◌↔◌, ◌⊎◌, inl, inr, Bool, true, false, not, ◌&&◌, ◌||◌, Option, none,
  some, List, [], ◌∷◌, ◌++◌, map, append-nil, append_assoc, arith, ltb, leb, ◌==◌, if◌then◌else◌,
  ltb→lt, ==_iff, ==_refl, Bool-cases, Option-cases, length, get_elem?, get_or, set, take, drop,
  replicate, keep_if, length-append, length-set, length-take, length-drop, length-replicate,
  get_or-set_self, get_or-set_ne, take-append, drop-append, All, All-append, passes_below,
  passes_below-lt, bit_xor_step, bit_xor-zero, bit_xor_fields, bit_xor-lt,
}

abbrev pub cntlq_of : ℕ → ℕ
cntlq_of addr = 16 * addr + 1

abbrev pub dataq_of : ℕ → ℕ
dataq_of addr = 16 * addr + 2

abbrev pub cmdq_of : ℕ → ℕ
cmdq_of addr = 16 * addr + 3

abbrev pub rpmsg_perif_cntl_recv_of : ℕ → ℕ
rpmsg_perif_cntl_recv_of addr = 16 * addr + 4

abbrev pub diag_data_recv_of : ℕ → ℕ
diag_data_recv_of addr = 16 * addr + 5

abbrev pub diag_cmd_recv_of : ℕ → ℕ
diag_cmd_recv_of addr = 16 * addr + 6

abbrev pub peripheral_open_of : ℕ → ℕ
peripheral_open_of addr = 16 * addr + 7

abbrev pub qrtr_cntl_recv_of : ℕ → ℕ
qrtr_cntl_recv_of addr = 16 * addr + 8

abbrev pub qrtr_cmd_recv_of : ℕ → ℕ
qrtr_cmd_recv_of addr = 16 * addr + 9

abbrev pub qrtr_data_recv_of : ℕ → ℕ
qrtr_data_recv_of addr = 16 * addr + 10
