-- ===== src/Queue/Flow.antt =====
-- The flow counters of router/watch.c against the buffers that are still queued: each push raises
-- the counter of the buffer's flow context by one, so that no decrement is ever unbalanced.
use diag.Base.{
  ℕ, ◌+◌, ◌-◌, ◌≡◌, Option, none, some, [], ◌∷◌, ◌++◌, arith, ◌==◌, if◌then◌else◌, length,
}
use diag.Bytes.{Bytes}
use diag.Hdlc.{hdlc_encode}
use diag.World.{Alloc, Flows, Queue, Mbuf}
use diag.Queue.{
  watch_flow_inc, watch_flow_dec, queue_push_flow, hdlc_enqueue_flow, queue_push_nhdlc_flow,
  nhdlc_frame,
}

abbrev pub owes : ℕ → Option ℕ → ℕ
owes f none = 0
owes f (some g) = if f == g then 1 else 0

-- How many buffers of a queue belong to a flow context.
abbrev pub owed : ℕ → Queue → ℕ
owed f [] = 0
owed f (m ∷ q) = owes f m.flow + owed f q

pub owed-append : (f : ℕ) (p q : Queue) → owed f (p ++ q) ≡ owed f p + owed f q
owed-append f [] q = omega arith
owed-append f (m ∷ p) q = omega (arith, owed-append f p q)

pub watch_flow_inc-owes :
    (flows : Flows) (flow : Option ℕ) (f : ℕ) → watch_flow_inc flows flow f ≡ flows f + owes f flow
unfolding watch_flow_inc
watch_flow_inc-owes flows none f = omega arith
watch_flow_inc-owes flows (some g) f = ground arith

pub watch_flow_dec-owes :
    (flows : Flows) (flow : Option ℕ) (f : ℕ) → watch_flow_dec flows flow f ≡ flows f - owes f flow
unfolding watch_flow_dec
watch_flow_dec-owes flows none f = omega arith
watch_flow_dec-owes flows (some g) f = ground arith

-- The counter rises as the buffers queued do.
abbrev pub Keeps : ℕ → Queue × Flows → Queue × Flows → Type 0
Keeps f (q, flows) (q', flows') = flows' f + owed f q ≡ flows f + owed f q'

pushed :
    (f : ℕ) (q : Queue) (flows : Flows) (m : Mbuf)
    → Keeps f (q, flows) (q ++ (m ∷ []), watch_flow_inc flows m.flow)
pushed f q flows m = omega (arith, watch_flow_inc-owes flows m.flow f, owed-append f q (m ∷ []))

pub queue_push_flow-Keeps :
    (alloc : Alloc) (q : Queue) (flows : Flows) (msg : Bytes) (flow : Option ℕ) (f : ℕ)
    {out : Queue × Flows}
    → queue_push_flow alloc (q, flows) msg flow ≡ some out
    → Keeps f (q, flows) out
unfolding queue_push_flow
queue_push_flow-Keeps alloc q flows msg flow f h = ground (
  arith,
  pushed f q flows
      (record { size = length msg; offset = 0 + length msg; flow = flow; payload = msg }),
)

pub hdlc_enqueue_flow-Keeps :
    (alloc : Alloc) (q : Queue) (flows : Flows) (msg : Bytes) (flow : Option ℕ) (f : ℕ)
    {out : Queue × Flows}
    → hdlc_enqueue_flow alloc (q, flows) msg flow ≡ some out
    → Keeps f (q, flows) out
unfolding hdlc_enqueue_flow
hdlc_enqueue_flow-Keeps alloc q flows msg flow f {out} h =
    ground (arith, queue_push_flow-Keeps alloc q flows (hdlc_encode msg) flow f {out = out})

pub queue_push_nhdlc_flow-Keeps :
    (alloc : Alloc) (q : Queue) (flows : Flows) (msg : Bytes) (flow : Option ℕ) (f : ℕ)
    {out : Queue × Flows}
    → queue_push_nhdlc_flow alloc (q, flows) msg flow ≡ some out
    → Keeps f (q, flows) out
unfolding queue_push_nhdlc_flow
queue_push_nhdlc_flow-Keeps alloc q flows msg flow f h = ground (
  arith,
  pushed f q flows (record {
    size = length msg + 5;
    offset = length msg + 5;
    flow = flow;
    payload = nhdlc_frame msg;
  }),
)
