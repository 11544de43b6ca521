-- ===== src/Perif/Qrtr.antt =====
-- The callbacks of router/peripheral-qrtr.c. recvfrom(2) with qrtr_decode of libqrtr is one answer:
-- what kind of packet it was, with its node, its port and its data.
pub mod Laws
use diag.Base.{
  ℕ, zero, suc, ◌+◌, ◌-◌, ◌*◌, ◌/◌, ◌%◌, ◌^◌, ◌≤◌, ◌<◌, min, bit_and, bit_or, bit_xor, ◌≡◌, refl,
  sym, ap, ap₂, ◌∙◌, ◌≢◌, ◌↔◌, ◌⊎◌, inl, inr, Bool, true, false, not, ◌&&◌, ◌||◌, Option, none,
  some, List, [], ◌∷◌, ◌++◌, map, append-nil, append_assoc, arith, ltb, leb, ◌==◌, if◌then◌else◌,
  ltb→lt, ==_iff, ==_refl, Bool-cases, Option-cases, length, get_elem?, get_or, set, take, drop,
  replicate, keep_if, length-append, length-set, length-take, length-drop, length-replicate,
  get_or-set_self, get_or-set_ne, take-append, drop-append, All, All-append, passes_below,
  passes_below-lt, bit_xor_step, bit_xor-zero, bit_xor_fields, bit_xor-lt,
}
use diag.Bytes.{Bytes}
use diag.CircBuf.{CircBuf}
use diag.World.{Peripheral}
use diag.Hdlc.{hdlc_decoder_zero}
use diag.Queue.{◌>>=◌}
use diag.System.{World}
use diag.Watch.{Loop, watch_add_readfd, watch_add_writeq, watch_remove_writeq}
use diag.Daemon.{
  Site, State, on_world, the_peripheral, set_peripheral, find_peripheral, update_peripheral,
}
use diag.Perif.{cntlq_of, dataq_of, cmdq_of, qrtr_cntl_recv_of, qrtr_cmd_recv_of, qrtr_data_recv_of}
use diag.Perif.Frame.{broadcast_frame, receive_cntl}
use diag.Perif.Nodes.{watch_flow_new}

-- `pkt.type`
pub data QrtrType : Type 0 where
  qrtr_type_data qrtr_type_bye qrtr_type_new_server qrtr_type_del_server : QrtrType
  qrtr_type_del_client qrtr_type_other : QrtrType

-- A failed receive or decode is a negative errno.
pub data QrtrRead : Type 0 where
  refused : ℕ → QrtrRead
  decoded : QrtrType → ℕ → ℕ → Bytes → QrtrRead

-- A callback's result: whether it was negative, and the state.
abbrev calm : Option State → Option (Bool × State)
calm r = do s ← r; some (false, s)

-- The first data packet connects the socket and lets the queue be written.
unfoldable pub open_cntl : ℕ → Peripheral → ℕ → State → State
unfolding watch_add_writeq update_peripheral
open_cntl addr p fd s =
    if p.cntl_open
    then s
    else watch_add_writeq fd (cntlq_of addr)
        (set_peripheral addr (λ q. record q { cntl_open = true }) s)

unfoldable pub open_data : ℕ → Peripheral → ℕ → State → State
unfolding watch_add_writeq update_peripheral
open_data addr p fd s =
    if p.data_open
    then s
    else watch_add_writeq fd (dataq_of addr)
        (set_peripheral addr (λ q. record q { data_open = true }) s)

-- `fd` is the control socket. The result of `diag_cntl_recv` is zero.
unfoldable pub qrtr_cntl_recv : QrtrRead → ℕ → ℕ → State → Option (Bool × State)
unfolding open_cntl receive_cntl watch_remove_writeq find_peripheral update_peripheral
qrtr_cntl_recv (refused e) fd addr s = some (true, s)
qrtr_cntl_recv (decoded qrtr_type_data node port pkt) fd addr s = do
  p ← the_peripheral addr s
  calm (receive_cntl addr pkt (open_cntl addr p fd s))
qrtr_cntl_recv (decoded qrtr_type_bye node port pkt) fd addr s =
    some
      (false, set_peripheral addr (λ q. record q { cntl_open = false }) (watch_remove_writeq fd s))
qrtr_cntl_recv (decoded _ node port pkt) fd addr s = some (false, s)

-- `connects` says whether connect(2) takes a node and a port; the process exits where it does not.
unfoldable pub qrtr_cmd_recv : (ℕ → ℕ → Bool) → QrtrRead → ℕ → ℕ → State → Option (Bool × State)
unfolding broadcast_frame watch_add_writeq watch_remove_writeq
qrtr_cmd_recv connects (refused e) fd addr s = some (true, s)
qrtr_cmd_recv connects (decoded qrtr_type_data node port pkt) fd addr s =
    calm (broadcast_frame pkt (length pkt) none s)
qrtr_cmd_recv connects (decoded qrtr_type_new_server node port pkt) fd addr s =
    if node == 0 && port == 0
    then some (false, s)
    else if connects node port
    then some (false, watch_add_writeq fd (cmdq_of addr) s)
    else none
qrtr_cmd_recv connects (decoded qrtr_type_del_server node port pkt) fd addr s =
    some (false, watch_remove_writeq fd s)
qrtr_cmd_recv connects (decoded _ node port pkt) fd addr s = some (false, s)

unfoldable pub qrtr_data_recv : QrtrRead → ℕ → ℕ → State → Option (Bool × State)
unfolding open_data broadcast_frame watch_remove_writeq find_peripheral update_peripheral
qrtr_data_recv (refused e) fd addr s = some (true, s)
qrtr_data_recv (decoded qrtr_type_data node port pkt) fd addr s = do
  p ← the_peripheral addr s
  calm (broadcast_frame pkt (length pkt) p.flow (open_data addr p fd s))
qrtr_data_recv (decoded qrtr_type_bye node port pkt) fd addr s =
    some
      (false, set_peripheral addr (λ q. record q { data_open = false }) (watch_remove_writeq fd s))
qrtr_data_recv (decoded _ node port pkt) fd addr s = some (false, s)

-- The three sockets that were opened; the process exits where one was not. The fourth, on which
-- nothing is read, is left out.
unfoldable pub qrtr_perif_init_subsystem : CircBuf → Bytes → ℕ × ℕ × ℕ → State → State
unfolding watch_flow_new watch_add_readfd
qrtr_perif_init_subsystem ring name (cntl, data_chan, cmd) s =
    let addr = s.fresh in
    let s1 : State = watch_flow_new addr (record s { fresh = addr + 1 }) in
    let s2 = watch_add_readfd data_chan (qrtr_data_recv_of addr) (some addr) (
      watch_add_readfd cmd (qrtr_cmd_recv_of addr) none
        (watch_add_readfd cntl (qrtr_cntl_recv_of addr) none s1)) in
    on_world
      (λ w. record w {
        peripherals =
            w.peripherals
            ++ (record {
              id = addr;
              features = 0;
              cmdq = [];
              cntlq = [];
              dataq = [];
              cntl_fd = some cntl;
              data_fd = some data_chan;
              cmd_fd = some cmd;
              flow = some addr;
              diag_id = 0;
              sockets = true;
              name = name;
              cntl_open = false;
              data_open = false;
              recv_buf = ring;
              recv_decoder = hdlc_decoder_zero;
            }
                ∷ []);
      })
      s2
