-- ===== src/Daemon.antt =====
-- The router's whole state: the event loop over the state of the handlers and the device nodes, and
-- what the callbacks do to it. Callbacks and queues are numbers made from the object's address.
-- The flow counters are the loop's; a handler works on a copy that is put back. The queues stay in
-- the monitors and the peripherals.
pub mod Register
pub mod Client
pub mod Counts
pub mod Closed
pub mod Tests
use diag.Base.{
  ℕ, zero, suc, ◌+◌, ◌-◌, ◌*◌, ◌/◌, ◌%◌, ◌^◌, ◌≤◌, ◌<◌, min, bit_and, bit_or, bit_xor, ◌≡◌, refl,
  sym, ap, ap₂, ◌∙◌, ◌≢◌, ◌↔◌, ◌⊎◌, inl, inr, Bool, true, false, not, ◌&&◌, ◌||◌, Option, none,
  some, List, [], ◌∷◌, ◌++◌, map, append-nil, append_assoc, arith, ltb, leb, ◌==◌, if◌then◌else◌,
  ltb→lt, ==_iff, ==_refl, Bool-cases, Option-cases, length, get_elem?, get_or, set, take, drop,
  replicate, keep_if, length-append, length-set, length-take, length-drop, length-replicate,
  get_or-set_self, get_or-set_ne, take-append, drop-append, All, All-append, passes_below,
  passes_below-lt, bit_xor_step, bit_xor-zero, bit_xor_fields, bit_xor-lt,
}
use diag.Bytes.{Bytes}
use diag.CircBuf.{CircBuf}
use diag.World.{DiagClient, Peripheral, Ret}
use diag.Dm.{dm_add, dm_enable, dm_disable, dm_broadcast}
use diag.System.{World}
use diag.Queue.{◌>>=◌}
use diag.Router.{diag_client_handle_command}
use diag.Watch.{Loop, watch_add_readfd, watch_add_writeq}

-- `struct devnode` of router/peripheral-rpmsg.c; strings without their closing zero.
pub record Devnode : Type 0 where
  pub devnode : Bytes
  pub name : Bytes
  pub rproc : Bytes

-- `bad_cmd_counter` is the static variable of `diag_start_hdlc_recovery`.
pub record Site : Type 0 where
  pub world : World
  pub devnodes : List Devnode
  pub bad_cmd_counter : ℕ

abbrev pub State : Type 0
State = Loop Site

-- A callback is known by its kind and its object.
abbrev pub dm_recv_of : ℕ → ℕ
dm_recv_of addr = 16 * addr

abbrev pub outq_of : ℕ → ℕ
outq_of addr = 16 * addr

-- A change of the handlers' state that leaves the loop alone.
abbrev pub on_world : (World → World) → State → State
on_world g s = record s { rest = record (s.rest) { world = g s.rest.world } }

-- `dm_broadcast` to all monitors.
unfoldable pub broadcast : Bytes → Option ℕ → State → Option State
unfolding dm_broadcast
broadcast msg flow s = do
  (clients, flows) ← dm_broadcast s.rest.world.alloc s.rest.world.clients s.flows msg flow
  some (record (on_world (λ w. record w { clients = clients }) s) { flows = flows })

-- `diag_client_handle_command` for the monitor at an address.
unfoldable pub handle_command : ℕ → Bytes → ℕ → State → Option State
unfolding diag_client_handle_command
handle_command addr ptr len s = do
  (r, w) ← diag_client_handle_command addr ptr len (record (s.rest.world) { flows = s.flows })
  some (record (on_world (λ old. w) s) { flows = w.flows })

-- `dm_add` with its watches; the address is the monitor's.
unfoldable pub add_client : CircBuf → Option ℕ → ℕ → Bool → State → ℕ × State
unfolding dm_add watch_add_readfd watch_add_writeq
add_client ring in_fd out_fd is_encoded s =
    let addr = s.fresh in
    let s1 : State = record s { fresh = addr + 1 } in
    let s2 : State = elim in_fd [
      | none ↦ s1
      | some fd ↦ watch_add_readfd fd (dm_recv_of addr) none s1
    ] in
    let s3 = watch_add_writeq out_fd (outq_of addr) s2 in
    (
      addr,
      on_world (λ w. record w { clients = dm_add addr ring in_fd out_fd is_encoded w.clients }) s3,
    )

unfoldable pub enable_client : ℕ → State → State
unfolding dm_enable
enable_client addr = on_world (λ w. record w { clients = dm_enable addr w.clients })

unfoldable pub disable_client : ℕ → State → State
unfolding dm_disable
disable_client addr = on_world (λ w. record w { clients = dm_disable addr w.clients })

unfoldable pub find_peripheral : ℕ → List Peripheral → Option Peripheral
find_peripheral addr [] = none
find_peripheral addr (p ∷ ps) = if p.id == addr then some p else find_peripheral addr ps

-- The peripheral at an address, changed in its place.
unfoldable pub update_peripheral : ℕ → (Peripheral → Peripheral) → List Peripheral → List Peripheral
update_peripheral addr g [] = []
update_peripheral addr g (p ∷ ps) =
    if p.id == addr then g p ∷ ps else p ∷ update_peripheral addr g ps

abbrev pub the_peripheral : ℕ → State → Option Peripheral
the_peripheral addr s = find_peripheral addr s.rest.world.peripherals

abbrev pub set_peripheral : ℕ → (Peripheral → Peripheral) → State → State
set_peripheral addr g =
    on_world (λ w. record w { peripherals = update_peripheral addr g w.peripherals })

abbrev pub diag_hdlc_reset_of : ℕ → ℕ
diag_hdlc_reset_of addr = 16 * addr + 11
