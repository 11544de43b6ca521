-- ===== src/Transport.antt =====
-- Where monitors come from: router/usb.c, uart.c, unix.c and socket.c.
pub mod Laws
pub mod Failures
mod Tests
use diag.Base.{
  ℕ, zero, suc, ◌+◌, ◌-◌, ◌*◌, ◌/◌, ◌%◌, ◌^◌, ◌≤◌, ◌<◌, min, bit_and, bit_or, bit_xor, ◌≡◌, refl,
  sym, ap, ap₂, ◌∙◌, ◌≢◌, ◌↔◌, ◌⊎◌, inl, inr, Bool, true, false, not, ◌&&◌, ◌||◌, Option, none,
  some, List, [], ◌∷◌, ◌++◌, map, append-nil, append_assoc, arith, ltb, leb, ◌==◌, if◌then◌else◌,
  ltb→lt, ==_iff, ==_refl, Bool-cases, Option-cases, length, get_elem?, get_or, set, take, drop,
  replicate, keep_if, length-append, length-set, length-take, length-drop, length-replicate,
  get_or-set_self, get_or-set_ne, take-append, drop-append, All, All-append, passes_below,
  passes_below-lt, bit_xor_step, bit_xor-zero, bit_xor_fields, bit_xor-lt,
}
use diag.Bytes.{Bytes}
use diag.World.{Mbuf}
use diag.CircBuf.{CircBuf, hdlc_buf_size, store}
use diag.Queue.{◌>>=◌, mbuf_alloc}
use diag.Watch.{Loop, Timeval, watch_add_readfd, watch_add_readq}
use diag.Daemon.{State, add_client, enable_client, disable_client}
use diag.Daemon.Client.{decode_for}
use diag.Syscalls.{SysKernel, Process, CInt, plus, minus}
use diag.Opens.{ffs_diag_init, check_baudrate, uart_open, sock_open, unix_open}

abbrev pub diag_ffs_recv_of : ℕ → ℕ
diag_ffs_recv_of addr = 16 * addr + 12

abbrev pub ep0_recv_of : ℕ → ℕ
ep0_recv_of addr = 16 * addr + 13

abbrev pub unix_listen_of : ℕ
unix_listen_of = 14

-- `struct usb_handle`; `outq` is the number of its queue, and `dm` the address of its monitor.
pub record UsbHandle : Type 0 where
  pub ep0 : ℕ
  pub bulk_out : ℕ
  pub bulk_in : ℕ
  pub dm : ℕ
  pub outq : ℕ
  pub node : ℕ

-- The memory of a cleared ring.
unfoldable pub zeroed : Bytes
zeroed = replicate hdlc_buf_size 0

-- The ring that a transfer is copied to, from its beginning on.
unfoldable pub transfer_ring : Mbuf → CircBuf
unfolding store zeroed
transfer_ring m = record {
  buf = store zeroed 0 (take m.offset m.payload);
  head = m.offset;
  tail = 0;
}

-- The ring is gone with the call, and the buffer is queued to be read into again.
unfoldable pub diag_ffs_recv : Timeval → UsbHandle → Mbuf → State → Option State
unfolding transfer_ring decode_for
diag_ffs_recv now ffs m s = do
  (r, ring, s') ← decode_for now ffs.dm (transfer_ring m) s
  some (record s' {
    queues =
        λ q. if q == ffs.outq then s'.queues q ++ (record m { offset = 0 } ∷ []) else s'.queues q;
  })

-- The event that is read from the control endpoint.
pub data FfsEvent : Type 0 where
  functionfs_enable functionfs_disable ffs_other unreadable : FfsEvent

unfoldable pub ep0_recv : UsbHandle → FfsEvent → State → State
unfolding watch_add_readq enable_client disable_client
ep0_recv ffs functionfs_enable s =
    enable_client ffs.dm (watch_add_readq ffs.bulk_out ffs.outq (diag_ffs_recv_of ffs.node) s)
ep0_recv ffs functionfs_disable s = disable_client ffs.dm s
ep0_recv ffs _ s = s

-- There is memory for the handle; the process exits where there is none for the buffer. No handle is
-- the result -1.
unfoldable pub diag_usb_open :
    SysKernel → CircBuf → Bytes → Process → State → Option (Option UsbHandle × Process × State)
unfolding mbuf_alloc ffs_diag_init watch_add_readfd add_client
diag_usb_open k ring ffs_name p s = elim (mbuf_alloc s.rest.world.alloc 16384) [
  | none ↦ none
  | some out_buf ↦
      let (endpoints, q) = ffs_diag_init k ffs_name p in
      elim endpoints [
        | none ↦ some (none, q, s)
        | some (ep0, bulk_out, bulk_in) ↦
            let node = s.fresh in
            let outq = 16 * node + 15 in
            let s1 : State = record s {
              fresh = node + 1;
              queues = λ q. if q == outq then out_buf ∷ [] else s.queues q;
            } in
            let (dm, s2) =
              add_client ring none bulk_in true (watch_add_readfd ep0 (ep0_recv_of node) none s1) in
            some (
              some (record {
                ep0 = ep0;
                bulk_out = bulk_out;
                bulk_in = bulk_in;
                dm = dm;
                outq = outq;
                node = node;
              }),
              q,
              s2,
            )
      ]
]

-- A connection is a monitor without encoding; `none` is a failed accept(2), and the flag says
-- whether fcntl(2) failed.
unfoldable pub unix_listen : CircBuf → Option (ℕ × Bool) → State → State
unfolding add_client enable_client
unix_listen ring none s = s
unix_listen ring (some (client, true)) s = s
unix_listen ring (some (client, false)) s =
    let (dm, s') = add_client ring (some client) client false s in enable_client dm s'

-- A failure returns -1; the socket stays open.
unfoldable pub diag_unix_open : SysKernel → Process → State → CInt × Process × State
unfolding unix_open watch_add_readfd
diag_unix_open k p s =
    let (fd, q) = unix_open k p in
    elim fd [
      | none ↦ (minus 1, q, s)
      | some fd ↦ (plus 0, q, watch_add_readfd fd unix_listen_of none s)
    ]

-- An encoded monitor on one descriptor, which is enabled.
unfoldable pub encoded_client : CircBuf → ℕ → State → State
unfolding add_client enable_client
encoded_client ring fd s = let (dm, s') = add_client ring (some fd) fd true s in enable_client dm s'

-- A failure returns -errno, also where gethostbyname(3) fails, which tells its failure otherwise.
unfoldable pub diag_sock_connect :
    SysKernel → CircBuf → Bytes → ℕ → Process → State → CInt × Process × State
unfolding sock_open encoded_client
diag_sock_connect k ring hostname port p s =
    let (fd, q) = sock_open k hostname port p in
    elim fd [ none ↦ (minus q.errno, q, s) | some fd ↦ (plus fd, q, encoded_client ring fd s) ]

-- EINVAL is 22.
unfoldable pub diag_uart_open :
    SysKernel → CircBuf → Bytes → ℕ → Process → State → CInt × Process × State
unfolding check_baudrate uart_open encoded_client
diag_uart_open k ring uartname baudrate p s =
    let speed : ℕ = check_baudrate baudrate in
    let (fd, q) = uart_open k uartname speed p in
    if speed == 0
    then (minus 22, p, s)
    else elim fd [ none ↦ (minus q.errno, q, s) | some fd ↦ (plus fd, q, encoded_client ring fd s) ]
