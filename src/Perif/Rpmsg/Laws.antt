-- ===== src/Perif/Rpmsg/Laws.antt =====
-- The command channel of a peripheral in router/peripheral-rpmsg.c.
use diag.Base.{
  ℕ, ◌-◌, ◌^◌, ◌<◌, ◌≡◌, refl, ap, ◌∙◌, Option, none, some, ◌++◌, map, append_assoc, arith, length,
  drop, length-append,
}
use diag.Bytes.{Bytes}
use diag.CircBuf.{got, failed}
use diag.Queue.{nhdlc_frame}
use diag.Queue.Frames.{length-nhdlc_frame}
use diag.Dm.Send.{Generous, AllKnown, deliver, count_flow, dm_broadcast-deliver}
use diag.Dm.Read.{eagain}
use diag.Daemon.{State, on_world, broadcast}
use diag.Perif.Frame.{broadcast_frame}
use diag.Perif.Frame.Laws.{broadcast_frame-nhdlc_frame}
use diag.Perif.Rpmsg.{diag_cmd_recv}

-- The state with a message at the end of the queue of each enabled monitor, in its own encoding.
abbrev pub delivered : Bytes → Option ℕ → State → State
delivered msg flow s =
    record (on_world (λ w. record w { clients = map (deliver msg flow) w.clients }) s) {
      flows = count_flow flow s.rest.world.clients s.flows;
    }

pub broadcast-deliver :
    (msg : Bytes) (flow : Option ℕ) (s : State)
    → Generous s.rest.world.alloc
    → AllKnown s.rest.world.clients
    → broadcast msg flow s ≡ some (delivered msg flow s)
unfolding broadcast
broadcast-deliver msg flow s g k =
    rw (dm_broadcast-deliver s.rest.world.alloc s.rest.world.clients s.flows msg flow g k) refl

-- A read that brings the frame of a message of fewer than 2^16 bytes puts exactly this message into
-- the queue of every enabled monitor, in the monitor's own encoding, if memory is granted and the
-- encodings are known; bytes behind the frame do not matter.
pub diag_cmd_recv-delivers :
    (stack msg rest : Bytes) (addr : ℕ) (s : State)
    → length msg < 2 ^ 16
    → Generous s.rest.world.alloc
    → AllKnown s.rest.world.clients
    → diag_cmd_recv stack (got (nhdlc_frame msg ++ rest)) addr s ≡ some (delivered msg none s)
unfolding diag_cmd_recv
diag_cmd_recv-delivers stack msg rest addr s l g k =
    ap (λ mem. broadcast_frame mem (length (nhdlc_frame msg ++ rest)) none s)
      (append_assoc (nhdlc_frame msg) rest (drop (length (nhdlc_frame msg ++ rest)) stack))
    ∙ broadcast_frame-nhdlc_frame msg (rest ++ drop (length (nhdlc_frame msg ++ rest)) stack)
        (length (nhdlc_frame msg ++ rest)) none s l
        (omega (arith, length-append {0} (nhdlc_frame msg) rest, length-nhdlc_frame msg))
    ∙ broadcast-deliver msg none s g k

-- A read that finds nothing, with EAGAIN, broadcasts the message of an earlier frame again if its
-- bytes still stand in the callback's buffer.
pub diag_cmd_recv_stale :
    (msg rest : Bytes) (addr : ℕ) (s : State)
    → length msg < 2 ^ 16
    → Generous s.rest.world.alloc
    → AllKnown s.rest.world.clients
    → diag_cmd_recv (nhdlc_frame msg ++ rest) (failed eagain) addr s ≡ some (delivered msg none s)
unfolding diag_cmd_recv
diag_cmd_recv_stale msg rest addr s l g k =
    broadcast_frame-nhdlc_frame msg rest (2 ^ 64 - 1) none s l (omega (arith, l))
    ∙ broadcast-deliver msg none s g k
