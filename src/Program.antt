-- ===== src/Program.antt =====
-- The program of router/diag.c: what main sets up, and watch_run with the callbacks of the router. A
-- callback's number says its kind and its object, so that the number is taken apart where the C code
-- calls through the pointer.
pub mod Getopt
pub mod Laws
pub mod Tables
pub mod Blank
pub mod Ready
mod Tests
use diag.Base.{
  ℕ, subst, zero, suc, ◌+◌, ◌-◌, ◌*◌, ◌/◌, ◌%◌, ◌^◌, ◌≤◌, ◌<◌, min, bit_and, bit_or, bit_xor, ◌≡◌,
  refl, sym, ap, ap₂, ◌∙◌, ◌≢◌, ◌↔◌, ◌⊎◌, inl, inr, Bool, true, false, not, ◌&&◌, ◌||◌, Option,
  none, some, List, [], ◌∷◌, ◌++◌, map, append-nil, append_assoc, arith, ltb, leb, ◌==◌,
  if◌then◌else◌, ltb→lt, ==_iff, ==_refl, Bool-cases, Option-cases, length, get_elem?, get_or, set,
  take, drop, replicate, keep_if, length-append, length-set, length-take, length-drop,
  length-replicate, get_or-set_self, get_or-set_ne, take-append, drop-append, All, All-append,
  passes_below, passes_below-lt, bit_xor_step, bit_xor-zero, bit_xor_fields, bit_xor-lt,
}
use diag.Bytes.{Bytes}
use diag.CircBuf.{CircBuf, Kernel, ReadResult}
use diag.World.{Mbuf, ok}
use diag.Queue.{◌>>=◌}
use diag.System.{World}
use diag.Masks.{Masks, diag_masks_init}
use diag.Dm.Read.{Outcome, returned, read_error}
use diag.Watch.{Timeval, Loop, watch_add_readfd}
use diag.Daemon.{Site, State, on_world}
use diag.Daemon.Client.{recv_for, reset_client}
use diag.Daemon.Register.{register_common_cmds, register_app_cmds}
use diag.Perif.Rpmsg.{diag_cmd_recv, rpmsg_perif_cntl_recv, diag_data_recv}
use diag.Perif.Nodes.{
  UdevAction, add_device, peripheral_open, peripheral_udev_update, peripheral_udev_get_remoteproc,
}
use diag.Perif.Qrtr.{
  QrtrRead, qrtr_cntl_recv, qrtr_cmd_recv, qrtr_data_recv, qrtr_perif_init_subsystem,
}
use diag.Syscalls.{SysKernel, Process, CInt, is_negative}
use diag.Program.Getopt.{Options, no_options, read_options}
use diag.Transport.{
  diag_uart_open, diag_sock_connect, UsbHandle, FfsEvent, ep0_recv, diag_ffs_recv, diag_usb_open,
  diag_unix_open, unix_listen,
}

-- What the world outside says in one turn: the time, what the reads of a descriptor give in each
-- round, what recvfrom(2) with qrtr_decode gives, what accept(2) gives, and so on. `stack` is what
-- the buffer of `diag_cmd_recv` holds, and `ring` is a cleared ring.
pub record Outside : Type 0 where
  pub now : Timeval
  pub fuel : ℕ
  pub reads : ℕ → ℕ → Kernel
  pub packets : ℕ → QrtrRead
  pub connects : ℕ → ℕ → Bool
  pub accepted : Option (ℕ × Bool)
  pub ffs_event : FfsEvent
  pub open_at : Bytes → Option ℕ
  pub usb : Option UsbHandle
  pub device : Option Bytes × UdevAction
  pub stack : Bytes
  pub ring : CircBuf

abbrev pub peripheral_udev_update_of : ℕ
peripheral_udev_update_of = 15

-- Whether a reader of a monitor returned a negative number.
abbrev negative : Outcome → Bool
negative (returned ok) = false
negative (returned _) = true
negative (read_error e) = true

abbrev calmly : Option State → Option (Bool × State)
calmly r = do s ← r; some (false, s)

-- The call of a watch's callback with its descriptor; no watch of the router has another callback,
-- and none of them asks for a call when the loop ends.
unfoldable pub call : Outside → ℕ → Option ℕ → State → Option (Bool × State)
unfolding recv_for rpmsg_perif_cntl_recv diag_data_recv diag_cmd_recv qrtr_cntl_recv qrtr_cmd_recv
    qrtr_data_recv ep0_recv unix_listen peripheral_udev_update
call o cb none s = none
call o cb (some fd) s =
    let kind : ℕ = cb % 16 in
    let addr : ℕ = cb / 16 in
    if kind == 0
    then (do (r, s') ← recv_for o.now o.fuel (o.reads fd 0) addr s; some (negative r, s'))
    else if kind == 4
    then calmly (rpmsg_perif_cntl_recv (o.reads fd 0 0 4096) addr s)
    else if kind == 5
    then calmly (diag_data_recv o.fuel (o.reads fd) addr s)
    else if kind == 6
    then calmly (diag_cmd_recv o.stack (o.reads fd 0 0 16384) addr s)
    else if kind == 8
    then qrtr_cntl_recv (o.packets fd) fd addr s
    else if kind == 9
    then qrtr_cmd_recv o.connects (o.packets fd) fd addr s
    else if kind == 10
    then qrtr_data_recv (o.packets fd) fd addr s
    else if kind == 13
    then (elim o.usb [ none ↦ none | some ffs ↦ some (false, ep0_recv ffs o.ffs_event s) ])
    else if kind == 14
    then some (false, unix_listen o.ring o.accepted s)
    else if kind == 15
    then some (false, peripheral_udev_update o.ring o.device.0 o.device.1 o.now s)
    else none

-- The call of a timer's callback.
unfoldable pub fire : Outside → ℕ → State → Option State
unfolding peripheral_open reset_client
fire o cb s =
    if cb % 16 == 7
    then peripheral_open o.open_at (cb / 16) s
    else if cb % 16 == 11
    then some (reset_client (cb / 16) s)
    else none

-- The call of a read's `aio_complete`.
unfoldable pub complete : Outside → ℕ → Mbuf → State → Option State
unfolding diag_ffs_recv
complete o cb m s = elim o.usb [ none ↦ none | some ffs ↦ diag_ffs_recv o.now ffs m s ]

-- What main starts with: the kernel and the process, what getopt(3) gives, the monitor of udev and the
-- devices that are there, each with its node, its name and what its parents say of a processor, the sockets of
-- each subsystem, and what the mask tables hold once `diag_masks_exit` has freed them.
pub record Start : Type 0 where
  pub kernel : SysKernel
  pub process : Process
  pub options : List (ℕ × Bytes)
  pub monitor : ℕ
  pub devices : List (Option Bytes × Option Bytes × List (Option Bytes))
  pub subsystems : List (ℕ × ℕ × ℕ)
  pub freed : Masks

-- "modem", "lpass", "wcnss", "sensors", "cdsp", "wdsp" and "soccp"
abbrev pub subsystem_names : List Bytes
subsystem_names =
    (109 ∷ 111 ∷ 100 ∷ 101 ∷ 109 ∷ [])
    ∷ (108 ∷ 112 ∷ 97 ∷ 115 ∷ 115 ∷ [])
    ∷ (119 ∷ 99 ∷ 110 ∷ 115 ∷ 115 ∷ [])
    ∷ (115 ∷ 101 ∷ 110 ∷ 115 ∷ 111 ∷ 114 ∷ 115 ∷ [])
    ∷ (99 ∷ 100 ∷ 115 ∷ 112 ∷ [])
    ∷ (119 ∷ 100 ∷ 115 ∷ 112 ∷ [])
    ∷ (115 ∷ 111 ∷ 99 ∷ 99 ∷ 112 ∷ [])
    ∷ []

unfoldable pub init_subsystems : CircBuf → List Bytes → List (ℕ × ℕ × ℕ) → State → State
unfolding qrtr_perif_init_subsystem
init_subsystems ring (name ∷ names) (opened ∷ rest) s =
    init_subsystems ring names rest (qrtr_perif_init_subsystem ring name opened s)
init_subsystems ring _ _ s = s

unfoldable pub peripheral_qrtr_init : CircBuf → List (ℕ × ℕ × ℕ) → State → State
unfolding init_subsystems
peripheral_qrtr_init ring opened s = init_subsystems ring subsystem_names opened s

-- The enumeration of `peripheral_rpmsg_init`, and its watch.
unfoldable pub peripheral_rpmsg_init :
    Outside → ℕ → List (Option Bytes × Option Bytes × List (Option Bytes)) → State → State
unfolding peripheral_udev_update peripheral_udev_get_remoteproc watch_add_readfd
peripheral_rpmsg_init o monitor [] s = watch_add_readfd monitor peripheral_udev_update_of none s
peripheral_rpmsg_init o monitor (d ∷ ds) s = peripheral_rpmsg_init o monitor ds (
    peripheral_udev_update o.ring d.0 (add_device d.1 (peripheral_udev_get_remoteproc d.2)) o.now s)

-- The monitor that the options ask for; the process exits where it fails. The port is passed as an
-- unsigned short.
unfoldable pub open_client :
    SysKernel → CircBuf → Options → Process → State → Option (Process × State)
unfolding diag_sock_connect diag_uart_open
open_client k ring options p s = elim options.host_address [
  | some host ↦
      let (ret, q, t) = diag_sock_connect k ring host (options.host_port % 65536) p s in
      if is_negative ret then none else some (q, t)
  | none ↦ elim options.uartdev [
    | some dev ↦
        let (ret, q, t) = diag_uart_open k ring dev options.baudrate p s in
        if is_negative ret then none else some (q, t)
    | none ↦ some (p, s)
  ]
]

-- "/dev/ffs-diag"
abbrev pub ffs_diag : Bytes
ffs_diag = 47 ∷ 100 ∷ 101 ∷ 118 ∷ 47 ∷ 102 ∷ 102 ∷ 115 ∷ 45 ∷ 100 ∷ 105 ∷ 97 ∷ 103 ∷ []

-- main does not look at the result of `diag_masks_init`: where it fails, the tables are freed ones.
abbrev masks_or : Masks → Option Masks → Masks
masks_or freed none = freed
masks_or freed (some masks) = masks

-- main up to the event loop, with the handle of the USB function if there is one; `none` is an exit.
unfoldable pub set_up : Outside → Start → State → Option (Option UsbHandle × Process × State)
unfolding read_options open_client diag_usb_open diag_unix_open peripheral_rpmsg_init
    peripheral_qrtr_init diag_masks_init register_app_cmds register_common_cmds
set_up o start s = do
  options ← read_options start.options no_options
  (p1, s1) ← open_client start.kernel o.ring options start.process s
  (usb, p2, s2) ← diag_usb_open start.kernel o.ring ffs_diag p1 s1
  let (ret, p3, s3) = diag_unix_open start.kernel p2 s2
  (p4, s4) ← if is_negative ret then none else some (p3, s3)
  let s5 =
      peripheral_qrtr_init o.ring start.subsystems
        (peripheral_rpmsg_init o start.monitor start.devices s4)
  some (
    usb,
    p4,
    on_world
        (λ w. record w {
          masks = masks_or start.freed (diag_masks_init s5.rest.world.alloc);
          fallback_cmds = register_app_cmds w.fallback_cmds;
          common_cmds = register_common_cmds w.common_cmds;
        })
        s5,
  )
