-- ===== src/Perif/Nodes.antt =====
-- The device nodes of router/peripheral-rpmsg.c and the peripherals that come with them. Strings are
-- without their closing zero. open(2) is a function of the node's path, and libudev's answer is an
-- argument.
pub mod Laws
use diag.Base.{
  ℕ, zero, suc, ◌+◌, ◌-◌, ◌*◌, ◌/◌, ◌%◌, ◌^◌, ◌≤◌, ◌<◌, min, bit_and, bit_or, bit_xor, ◌≡◌, refl,
  sym, ap, ap₂, ◌∙◌, ◌≢◌, ◌↔◌, ◌⊎◌, inl, inr, Bool, true, false, not, ◌&&◌, ◌||◌, Option, none,
  some, List, [], ◌∷◌, ◌++◌, map, append-nil, append_assoc, arith, ltb, leb, ◌==◌, if◌then◌else◌,
  ltb→lt, ==_iff, ==_refl, Bool-cases, Option-cases, length, get_elem?, get_or, set, take, drop,
  replicate, keep_if, length-append, length-set, length-take, length-drop, length-replicate,
  get_or-set_self, get_or-set_ne, take-append, drop-append, All, All-append, passes_below,
  passes_below-lt, bit_xor_step, bit_xor-zero, bit_xor_fields, bit_xor-lt,
}
use diag.Bytes.{Bytes}
use diag.CircBuf.{CircBuf}
use diag.World.{Peripheral}
use diag.Hdlc.{hdlc_decoder_zero}
use diag.Queue.{◌>>=◌}
use diag.System.{World}
use diag.Cntl.DiagIds.{same_string}
use diag.Cntl.Send.{diag_cntl_send_masks}
use diag.Watch.{Loop, Timeval, watch_add_readfd, watch_add_writeq}
use diag.Watch.Timers.{watch_add_timer}
use diag.Daemon.{Devnode, Site, State, on_world, the_peripheral, update_peripheral, set_peripheral}
use diag.Perif.{
  cntlq_of, dataq_of, cmdq_of, rpmsg_perif_cntl_recv_of, diag_data_recv_of, diag_cmd_recv_of,
  peripheral_open_of,
}

unfoldable pub devnode_get : Bytes → List Devnode → Option Devnode
unfolding same_string
devnode_get path [] = none
devnode_get path (d ∷ ds) = if same_string d.devnode path then some d else devnode_get path ds

-- The allocations of a node are not checked; there is memory for them.
unfoldable pub devnode_add : Bytes → Bytes → Bytes → List Devnode → List Devnode
unfolding devnode_get
devnode_add path name rproc ds = elim (devnode_get path ds) [
  | some d ↦ ds
  | none ↦ ds ++ (record { devnode = path; name = name; rproc = rproc } ∷ [])
]

-- The first node with the path is taken out.
unfoldable pub devnode_remove : Bytes → List Devnode → List Devnode
unfolding same_string
devnode_remove path [] = []
devnode_remove path (d ∷ ds) = if same_string d.devnode path then ds else d ∷ devnode_remove path ds

-- The first node of the channel is opened; `none` is a negative descriptor.
unfoldable pub devnode_open : (Bytes → Option ℕ) → Bytes → Bytes → List Devnode → Option ℕ
unfolding same_string
devnode_open open_at rproc name [] = none
devnode_open open_at rproc name (d ∷ ds) =
    if same_string d.rproc rproc && same_string d.name name
    then open_at d.devnode
    else devnode_open open_at rproc name ds

-- "DIAG", and its other name "APPS_RIVA_DATA".
abbrev pub diag_name : Bytes
diag_name = 68 ∷ 73 ∷ 65 ∷ 71 ∷ []

abbrev pub apps_riva_data : Bytes
apps_riva_data = 65 ∷ 80 ∷ 80 ∷ 83 ∷ 95 ∷ 82 ∷ 73 ∷ 86 ∷ 65 ∷ 95 ∷ 68 ∷ 65 ∷ 84 ∷ 65 ∷ []

-- "DIAG_CNTL", and its other name "APPS_RIVA_CTRL".
abbrev pub diag_cntl_name : Bytes
diag_cntl_name = diag_name ++ (95 ∷ 67 ∷ 78 ∷ 84 ∷ 76 ∷ [])

abbrev pub apps_riva_ctrl : Bytes
apps_riva_ctrl = 65 ∷ 80 ∷ 80 ∷ 83 ∷ 95 ∷ 82 ∷ 73 ∷ 86 ∷ 65 ∷ 95 ∷ 67 ∷ 84 ∷ 82 ∷ 76 ∷ []

-- "DIAG_CMD"
abbrev pub diag_cmd_name : Bytes
diag_cmd_name = diag_name ++ (95 ∷ 67 ∷ 77 ∷ 68 ∷ [])

-- One of two channels.
abbrev either_node : (Bytes → Option ℕ) → Bytes → Bytes → Bytes → List Devnode → Option ℕ
either_node open_at rproc first second ds = elim (devnode_open open_at rproc first ds) [
  | some fd ↦ some fd
  | none ↦ devnode_open open_at rproc second ds
]

-- The watches of the channels that were opened.
unfoldable pub watch_channels : ℕ → Option ℕ → ℕ → ℕ → Option ℕ → State → State
unfolding watch_add_readfd watch_add_writeq
watch_channels addr flow data_chan cntl cmd s =
    let s1 = watch_add_readfd data_chan (diag_data_recv_of addr) flow (
      watch_add_readfd cntl (rpmsg_perif_cntl_recv_of addr) none
        (watch_add_writeq data_chan (dataq_of addr) (watch_add_writeq cntl (cntlq_of addr) s))) in
    elim cmd [
      | none ↦ s1
      | some fd ↦
          watch_add_writeq fd (cmdq_of addr) (watch_add_readfd fd (diag_cmd_recv_of addr) none s1)
    ]

abbrev kept : Option ℕ → Option ℕ → Option ℕ
kept (some fd) old = some fd
kept none old = old

-- The timer's callback; the masks go to the peripheral at the end.
unfoldable pub peripheral_open : (Bytes → Option ℕ) → ℕ → State → Option State
unfolding devnode_open watch_channels diag_cntl_send_masks
peripheral_open open_at addr s = do
  p ← the_peripheral addr s
  let ds : List Devnode = s.rest.devnodes
  elim (either_node open_at p.name diag_name apps_riva_data ds) [
    | none ↦ some s
    | some data_chan ↦ elim (either_node open_at p.name diag_cntl_name apps_riva_ctrl ds) [
      | none ↦ some (set_peripheral addr (λ q. record q { data_fd = none }) s)
      | some cntl ↦
          let cmd = kept (devnode_open open_at p.name diag_cmd_name ds) p.cmd_fd in
          let p1 : Peripheral = record p {
            data_fd = some data_chan;
            cntl_fd = some cntl;
            cmd_fd = cmd;
          } in
          do
            p2 ← diag_cntl_send_masks s.rest.world.alloc s.rest.world.junk s.rest.world.masks p1
            some (set_peripheral addr (λ q. p2) (watch_channels addr p.flow data_chan cntl cmd s))
    ]
  ]

abbrev pub known_name : Bytes → List Peripheral → Bool
known_name rproc [] = false
known_name rproc (p ∷ ps) = same_string p.name rproc || known_name rproc ps

-- `malloc` and `memset`, the fields, and the flow context of the same address.
abbrev pub new_peripheral : ℕ → Bytes → CircBuf → Peripheral
new_peripheral addr name ring = record {
  id = addr;
  features = 0;
  cmdq = [];
  cntlq = [];
  dataq = [];
  cntl_fd = none;
  data_fd = none;
  cmd_fd = none;
  flow = some addr;
  diag_id = 0;
  sockets = false;
  name = name;
  cntl_open = false;
  data_open = false;
  recv_buf = ring;
  recv_decoder = hdlc_decoder_zero;
}

-- `watch_flow_new`: a counter of no packets.
unfoldable pub watch_flow_new : ℕ → State → State
watch_flow_new f s = record s { flows = λ g. if g == f then 0 else s.flows g }

-- `ring` is the cleared ring of the new peripheral.
unfoldable pub peripheral_create : CircBuf → Bytes → Bytes → Timeval → State → State
unfolding same_string watch_flow_new watch_add_timer
peripheral_create ring rproc channel now s =
    if not (same_string channel diag_name || same_string channel apps_riva_data)
    then s
    else if known_name rproc s.rest.world.peripherals
    then s
    else let addr = s.fresh in
      let s1 : State = record s { fresh = addr + 1 } in
      watch_add_timer (peripheral_open_of addr) 1000 false now (
        on_world
          (λ w. record w { peripherals = w.peripherals ++ (new_peripheral addr rproc ring ∷ []) })
          (watch_flow_new addr s1))

-- The attribute `rpmsg_name` of a device's parents, the nearest first: the first that there is.
unfoldable pub peripheral_udev_get_remoteproc : List (Option Bytes) → Option Bytes
peripheral_udev_get_remoteproc [] = none
peripheral_udev_get_remoteproc (some name ∷ parents) = some name
peripheral_udev_get_remoteproc (none ∷ parents) = peripheral_udev_get_remoteproc parents

-- What libudev says of a device: its node, its name and its remote processor, where it has them.
pub data UdevAction : Type 0 where
  add_device : Option Bytes → Option Bytes → UdevAction
  remove_device unknown_action : UdevAction

unfoldable pub peripheral_udev_update :
    CircBuf → Option Bytes → UdevAction → Timeval → State → State
unfolding devnode_add devnode_remove peripheral_create
peripheral_udev_update ring none action now s = s
peripheral_udev_update ring (some path) (add_device (some name) (some rproc)) now s =
    peripheral_create ring rproc name now (record s {
      rest = record (s.rest) { devnodes = devnode_add path name rproc s.rest.devnodes };
    })
peripheral_udev_update ring (some path) remove_device now s = record s {
  rest = record (s.rest) { devnodes = devnode_remove path s.rest.devnodes };
}
peripheral_udev_update ring (some path) _ now s = s
