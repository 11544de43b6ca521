-- ===== src/Perif/Frame.antt =====
-- The frames without HDLC as router/peripheral-rpmsg.c and router/peripheral-qrtr.c take them apart,
-- and the control packets of a peripheral.
pub mod Laws
use diag.Base.{
  ℕ, zero, suc, ◌+◌, ◌-◌, ◌*◌, ◌/◌, ◌%◌, ◌^◌, ◌≤◌, ◌<◌, min, bit_and, bit_or, bit_xor, ◌≡◌, refl,
  sym, ap, ap₂, ◌∙◌, ◌≢◌, ◌↔◌, ◌⊎◌, inl, inr, Bool, true, false, not, ◌&&◌, ◌||◌, Option, none,
  some, List, [], ◌∷◌, ◌++◌, map, append-nil, append_assoc, arith, ltb, leb, ◌==◌, if◌then◌else◌,
  ltb→lt, ==_iff, ==_refl, Bool-cases, Option-cases, length, get_elem?, get_or, set, take, drop,
  replicate, keep_if, length-append, length-set, length-take, length-drop, length-replicate,
  get_or-set_self, get_or-set_ne, take-append, drop-append, All, All-append, passes_below,
  passes_below-lt, bit_xor_step, bit_xor-zero, bit_xor_fields, bit_xor-lt,
}
use diag.Bytes.{Bytes, get16, byte_at}
use diag.World.{Ret, ok}
use diag.Queue.{◌>>=◌}
use diag.Cntl.Recv.{diag_cntl_recv}
use diag.Cntl.Control.{control, Session}
use diag.Daemon.{State, on_world, broadcast, the_peripheral, update_peripheral}

-- What a reader finds in its memory; `outside` is a read past the end of it.
pub data NonHdlcPkt : Type 0 where
  invalid truncated unterminated outside : NonHdlcPkt
  packet : Bytes → NonHdlcPkt

-- `mem` is the memory from the frame on, and `len` the length that was read as a `size_t`.
unfoldable pub check_frame : Bytes → ℕ → NonHdlcPkt
unfolding get16
check_frame mem len =
    if not (byte_at mem 0 == 0x7e) || not (byte_at mem 1 == 1)
    then invalid
    else if ltb len (4 + get16 mem 2 + 1)
    then truncated
    else elim (get_elem? mem (4 + get16 mem 2)) [
      | none ↦ outside
      | some x ↦ if x == 0x7e then packet (take (get16 mem 2) (drop 4 mem)) else unterminated
    ]

-- The packet of a frame goes to all monitors; what is not a frame is only reported.
unfoldable pub broadcast_frame : Bytes → ℕ → Option ℕ → State → Option State
unfolding check_frame broadcast
broadcast_frame mem len flow s = elim (check_frame mem len) [
  | packet msg ↦ broadcast msg flow s
  | outside ↦ none
  | _ ↦ some s
]

-- `diag_cntl_recv` for the peripheral at an address.
unfoldable pub receive_cntl : ℕ → Bytes → State → Option State
unfolding diag_cntl_recv control update_peripheral
receive_cntl addr buf s =
    let w = s.rest.world in
    do
      p ← the_peripheral addr s
      t ← diag_cntl_recv (control w.alloc w.junk w.masks (length buf)) buf (record {
        peripheral = p;
        diag_cmds = w.diag_cmds;
        ids = record { table = w.diag_ids; last = w.diag_id };
      })
      some (
          on_world
            (λ v. record v {
              peripherals = update_peripheral addr (λ old. t.peripheral) v.peripherals;
              diag_cmds = t.diag_cmds;
              diag_ids = t.ids.table;
              diag_id = t.ids.last;
            })
            s)
