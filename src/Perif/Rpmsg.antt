-- ===== src/Perif/Rpmsg.antt =====
-- The callbacks of router/peripheral-rpmsg.c: what is read from the channels of a peripheral, and
-- its close.
pub mod Data
pub mod Messages
pub mod Stream
pub mod Close
pub mod Laws
use diag.Base.{
  ℕ, zero, suc, ◌+◌, ◌-◌, ◌*◌, ◌/◌, ◌%◌, ◌^◌, ◌≤◌, ◌<◌, min, bit_and, bit_or, bit_xor, ◌≡◌, refl,
  sym, ap, ap₂, ◌∙◌, ◌≢◌, ◌↔◌, ◌⊎◌, inl, inr, Bool, true, false, not, ◌&&◌, ◌||◌, Option, none,
  some, List, [], ◌∷◌, ◌++◌, map, append-nil, append_assoc, arith, ltb, leb, ◌==◌, if◌then◌else◌,
  ltb→lt, ==_iff, ==_refl, Bool-cases, Option-cases, length, get_elem?, get_or, set, take, drop,
  replicate, keep_if, length-append, length-set, length-take, length-drop, length-replicate,
  get_or-set_self, get_or-set_ne, take-append, drop-append, All, All-append, passes_below,
  passes_below-lt, bit_xor_step, bit_xor-zero, bit_xor_fields, bit_xor-lt,
}
use diag.Bytes.{Bytes}
use diag.World.{Peripheral}
use diag.CircBuf.{Kernel, ReadResult, got, failed}
use diag.System.{World}
use diag.Cntl.{diag_cntl_close}
use diag.Queue.{◌>>=◌}
use diag.Dm.Read.{eagain}
use diag.Watch.{Loop, watch_remove_fd}
use diag.Daemon.{
  Site, State, on_world, broadcast, the_peripheral, set_peripheral, find_peripheral,
  update_peripheral,
}
use diag.Perif.Frame.{broadcast_frame, receive_cntl}
use Data.{diag_data_recv_hdlc, diag_data_recv_raw}

abbrev pub remove_watches : Option ℕ → State → State
remove_watches none s = s
remove_watches (some fd) s = watch_remove_fd fd s

-- The commands, the watches and the peripheral go; no watch has the descriptor -1. The peripheral's
-- queues are not freed. The close(2) calls of the three descriptors, which change nothing of the
-- router's state, are left out.
unfoldable pub perif_rpmsg_close : ℕ → State → Option State
unfolding diag_cntl_close watch_remove_fd find_peripheral
perif_rpmsg_close addr s = do
  p ← the_peripheral addr s
  let s1 : State = on_world (λ w. record w { diag_cmds = diag_cntl_close addr w.diag_cmds }) s
  let s2 = remove_watches p.cmd_fd (remove_watches p.cntl_fd (remove_watches p.data_fd s1))
  some (
      on_world (λ w. record w { peripherals = keep_if (λ q. not (q.id == addr)) w.peripherals }) s2)

-- `qrtr_perif_close` does nothing.
unfoldable pub peripheral_close : ℕ → State → Option State
unfolding perif_rpmsg_close find_peripheral
peripheral_close addr s = do
  p ← the_peripheral addr s
  if p.sockets then some s else perif_rpmsg_close addr s

-- The peripheral is closed after an error that is not EAGAIN.
abbrev pub close_unless_again : ℕ → ℕ → State → Option State
close_unless_again addr e s = if e == eagain then some s else peripheral_close addr s

-- `stack` is what the callback's buffer of 16384 bytes holds before the read. A failed read does not
-- end the callback: the length is then -1 as a `size_t`.
unfoldable pub diag_cmd_recv : Bytes → ReadResult → ℕ → State → Option State
unfolding broadcast_frame peripheral_close
diag_cmd_recv stack (got xs) addr s =
    broadcast_frame (xs ++ drop (length xs) stack) (length xs) none s
diag_cmd_recv stack (failed e) addr s =
    close_unless_again addr e s >>= broadcast_frame stack (2 ^ 64 - 1) none

unfoldable pub rpmsg_perif_cntl_recv : ReadResult → ℕ → State → Option State
unfolding receive_cntl peripheral_close
rpmsg_perif_cntl_recv (got xs) addr s = receive_cntl addr xs s
rpmsg_perif_cntl_recv (failed e) addr s = close_unless_again addr e s

-- A message is the first `len` bytes of the buffer; a length past what was stored there, which only
-- the check sequence cut off a frame of one byte gives, is copied past the end of memory.
abbrev pub broadcast_message : Option ℕ → Bytes → ℕ → State → Option State
broadcast_message flow raw len s =
    if ltb (length raw) len then none else broadcast (take len raw) flow s

-- `fuel` bounds the rounds of the loop, and `reads` is the kernel in each of them.
unfoldable pub diag_data_recv : ℕ → (ℕ → Kernel) → ℕ → State → Option State
unfolding diag_data_recv_hdlc diag_data_recv_raw peripheral_close find_peripheral update_peripheral
diag_data_recv fuel reads addr s = do
  p ← the_peripheral addr s
  if p.features / 2 ^ 6 % 2 == 1
      then (do
        (e, s') ← diag_data_recv_raw (broadcast_message p.flow) fuel (reads 0) s
        close_unless_again addr e s')
      else (do
        (e, d, b, s') ←
            diag_data_recv_hdlc (broadcast_message p.flow) fuel reads 0 p.recv_decoder p.recv_buf s
        close_unless_again addr e
            (set_peripheral addr (λ q. record q { recv_decoder = d; recv_buf = b }) s'))
