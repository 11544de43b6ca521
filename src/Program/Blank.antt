-- ===== src/Program/Blank.antt =====
-- What main of router/diag.c does before it fills the command tables leaves them alone.
use diag.Base.{
  ℕ, ◌%◌, ◌≡◌, inl, inr, Bool, true, false, not, ◌||◌, Option, none, some, List, [], ◌∷◌, ◌==◌,
  if◌then◌else◌, Bool-cases, Option-cases,
}
use diag.Bytes.{Bytes}
use diag.CircBuf.{CircBuf}
use diag.Queue.{◌>>=◌, mbuf_alloc}
use diag.Perif.Nodes.{
  peripheral_udev_get_remoteproc, UdevAction, add_device, remove_device, peripheral_create,
  peripheral_udev_update, diag_name, apps_riva_data, known_name,
}
use diag.Perif.Qrtr.{qrtr_perif_init_subsystem}
use diag.Cntl.DiagIds.{same_string}
use diag.Watch.{Timeval, watch_add_readfd, watch_add_writeq}
use diag.Watch.Timers.{watch_add_timer}
use diag.Perif.Nodes.{watch_flow_new}
use diag.Daemon.{State, add_client, enable_client}
use diag.Syscalls.{SysKernel, Process}
use diag.Opens.{ffs_diag_init, check_baudrate, uart_open, sock_open, unix_open}
use diag.Transport.{
  encoded_client, diag_sock_connect, diag_uart_open, diag_usb_open, diag_unix_open,
}
use diag.Program.{Outside, init_subsystems, peripheral_rpmsg_init, open_client}
use diag.Program.Getopt.{Options}

-- No command is registered.
abbrev pub IsBlank : State → Type 0
IsBlank s =
    (s.rest.world.common_cmds ≡ [])
    × (s.rest.world.diag_cmds ≡ [])
    × (s.rest.world.fallback_cmds ≡ [])

encoded_client-IsBlank :
    (ring : CircBuf) (fd : ℕ) (s : State) → IsBlank s → IsBlank (encoded_client ring fd s)
unfolding encoded_client add_client enable_client watch_add_readfd watch_add_writeq
encoded_client-IsBlank ring fd s h = h

peripheral_create-IsBlank :
    (ring : CircBuf) (rproc channel : Bytes) (now : Timeval) (s : State)
    → IsBlank s
    → IsBlank (peripheral_create ring rproc channel now s)
unfolding peripheral_create watch_add_timer watch_flow_new
peripheral_create-IsBlank ring rproc channel now s h =
    elim (Bool-cases (not (same_string channel diag_name || same_string channel apps_riva_data))) [
      | inl other ↦ rw other h
      | inr named ↦ elim (Bool-cases (known_name rproc s.rest.world.peripherals)) [
        | inl known ↦ rw (named, known) h
        | inr new ↦ rw (named, new) h
      ]
    ]

peripheral_udev_update-IsBlank :
    (ring : CircBuf) (path : Option Bytes) (action : UdevAction) (now : Timeval) (s : State)
    → IsBlank s
    → IsBlank (peripheral_udev_update ring path action now s)
unfolding peripheral_udev_update
peripheral_udev_update-IsBlank ring none action now s h = h
peripheral_udev_update-IsBlank ring (some path) (add_device (some name) (some rproc)) now s h =
    peripheral_create-IsBlank ring rproc name now _ h
peripheral_udev_update-IsBlank ring (some path) remove_device now s h = h
peripheral_udev_update-IsBlank ring (some path) _ now s h = h

pub peripheral_rpmsg_init-IsBlank :
    (o : Outside) (monitor : ℕ) (ds : List (Option Bytes × Option Bytes × List (Option Bytes)))
    (s : State)
    → IsBlank s
    → IsBlank (peripheral_rpmsg_init o monitor ds s)
unfolding peripheral_rpmsg_init watch_add_readfd
peripheral_rpmsg_init-IsBlank o monitor [] s h = h
peripheral_rpmsg_init-IsBlank o monitor (d ∷ ds) s h =
    peripheral_rpmsg_init-IsBlank o monitor ds _ (
      peripheral_udev_update-IsBlank o.ring d.0
        (add_device d.1 (peripheral_udev_get_remoteproc d.2)) o.now s h)

pub init_subsystems-IsBlank :
    (ring : CircBuf) (names : List Bytes) (opened : List (ℕ × ℕ × ℕ)) (s : State)
    → IsBlank s
    → IsBlank (init_subsystems ring names opened s)
unfolding init_subsystems qrtr_perif_init_subsystem watch_flow_new watch_add_readfd
init_subsystems-IsBlank ring [] opened s h = h
init_subsystems-IsBlank ring (name ∷ names) [] s h = h
init_subsystems-IsBlank ring (name ∷ names) ((a, b, c) ∷ rest) s h =
    init_subsystems-IsBlank ring names rest (qrtr_perif_init_subsystem ring name (a, b, c) s) h

diag_sock_connect-IsBlank :
    (k : SysKernel) (ring : CircBuf) (host : Bytes) (port : ℕ) (p : Process) (s : State)
    → IsBlank s
    → IsBlank (diag_sock_connect k ring host port p s).2
unfolding diag_sock_connect
diag_sock_connect-IsBlank k ring host port p s h = elim (Option-cases (sock_open k host port p).0) [
  | inl failed ↦ rw (diag_sock_connect, failed) h
  | inr (fd, fine) ↦ rw (diag_sock_connect, fine) (encoded_client-IsBlank ring fd s h)
]

diag_uart_open-IsBlank :
    (k : SysKernel) (ring : CircBuf) (dev : Bytes) (rate : ℕ) (p : Process) (s : State)
    → IsBlank s
    → IsBlank (diag_uart_open k ring dev rate p s).2
unfolding diag_uart_open
diag_uart_open-IsBlank k ring dev rate p s h = elim (Bool-cases (check_baudrate rate == 0)) [
  | inl unknown ↦ rw unknown h
  | inr known ↦ elim (Option-cases (uart_open k dev (check_baudrate rate) p).0) [
    | inl failed ↦ rw (known, failed) h
    | inr (fd, fine) ↦ rw (known, fine) (encoded_client-IsBlank ring fd s h)
  ]
]

pub diag_unix_open-IsBlank :
    (k : SysKernel) (p : Process) (s : State) → IsBlank s → IsBlank (diag_unix_open k p s).2
unfolding diag_unix_open watch_add_readfd
diag_unix_open-IsBlank k p s h = elim (Option-cases (unix_open k p).0) [
  | inl failed ↦ rw (diag_unix_open, failed) h
  | inr (fd, fine) ↦ rw (diag_unix_open, fine) h
]

-- A property of what an Option holds, if it holds anything.
unfoldable pub Always {ℓ} : {A : Type ℓ} → (A → Type 0) → Option A → Type 0
Always P none = Unit
Always P (some a) = P a

pub bind-Always {ℓ κ} :
    {A : Type ℓ} {B : Type κ} (P : A → Type 0) (Q : B → Type 0) (r : Option A) (f : A → Option B)
    → Always P r
    → ((a : A) → P a → Always Q (f a))
    → Always Q (r >>= f)
unfolding Always
bind-Always P Q none f h g = tt
bind-Always P Q (some a) f h g = g a h

pub any-Always {ℓ} : {A : Type ℓ} (r : Option A) → Always (λ a. Unit) r
unfolding Always
any-Always none = tt
any-Always (some a) = tt

pub if_fine-Always :
    (b : Bool) (q : Process) (t : State)
    → IsBlank t
    → Always (λ (x : Process × State). IsBlank x.1) (if b then none else some (q, t))
unfolding Always
if_fine-Always true q t h = tt
if_fine-Always false q t h = h

pub open_client-IsBlank :
    (k : SysKernel) (ring : CircBuf) (o : Options) (p : Process) (s : State)
    → IsBlank s
    → Always (λ (x : Process × State). IsBlank x.1) (open_client k ring o p s)
unfolding open_client Always
open_client-IsBlank k ring o p s h = elim (Option-cases o.host_address) [
  | inr (host, named) ↦
      rw (open_client, named)
        (if_fine-Always _ _ _ (diag_sock_connect-IsBlank k ring host (o.host_port % 65536) p s h))
  | inl unnamed ↦ elim (Option-cases o.uartdev) [
    | inr (dev, line) ↦
        rw (open_client, unnamed, line)
          (if_fine-Always _ _ _ (diag_uart_open-IsBlank k ring dev o.baudrate p s h))
    | inl neither ↦ rw (open_client, unnamed, neither) h
  ]
]

pub diag_usb_open-IsBlank :
    (k : SysKernel) (ring : CircBuf) (name : Bytes) (p : Process) (s : State)
    → IsBlank s
    → Always (λ x. IsBlank x.2) (diag_usb_open k ring name p s)
unfolding diag_usb_open Always watch_add_readfd add_client watch_add_writeq
diag_usb_open-IsBlank k ring name p s h =
    elim (Option-cases (mbuf_alloc s.rest.world.alloc 16384)) [
      | inl full ↦ rw (diag_usb_open, full) tt
      | inr (m, room) ↦ elim (Option-cases (ffs_diag_init k name p).0) [
        | inl failed ↦ rw (diag_usb_open, room, failed) h
        | inr (endpoints, fine) ↦ rw (diag_usb_open, room, fine) h
      ]
    ]
