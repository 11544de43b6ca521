-- ===== src/Dm/Send.antt =====
-- What `dm_send_flow` and `dm_broadcast` put into the monitors' queues.
use diag.Base.{
  ℕ, ◌+◌, ◌*◌, ◌≡◌, refl, ◌⊎◌, inl, inr, true, Option, some, List, [], ◌∷◌, ◌++◌, map, arith, ◌==◌,
  if◌then◌else◌, Bool-cases, length, All,
}
use diag.Bytes.{Bytes}
use diag.World.{
  Alloc, Flows, Queue, Mbuf, DiagClient, ok, diag_encode_raw, diag_encode_hdlc, diag_encode_nhdlc,
}
use diag.Hdlc.{hdlc_encode}
use diag.Queue.{
  watch_flow_inc, queue_push_flow, hdlc_enqueue_flow, queue_push_nhdlc_flow, nhdlc_frame,
}
use diag.Queue.Frames.{length-nhdlc_frame}
use diag.Dm.{dm_enqueue, dm_send_flow, dm_broadcast}

-- An allocator that grants every request.
abbrev pub Generous : Alloc → Type 0
Generous alloc = (n : ℕ) → alloc n ≡ true

abbrev pub IsKnown : ℕ → Type 0
IsKnown ty = (ty ≡ diag_encode_raw) ⊎ (ty ≡ diag_encode_hdlc) ⊎ (ty ≡ diag_encode_nhdlc)

-- A message as an encoding puts it on the wire.
abbrev pub frame_for : ℕ → Bytes → Bytes
frame_for ty msg =
    if ty == diag_encode_raw
    then msg
    else if ty == diag_encode_hdlc
    then hdlc_encode msg
    else nhdlc_frame msg

abbrev pub full_mbuf : Bytes → Option ℕ → Mbuf
full_mbuf frame flow = record {
  size = length frame;
  offset = length frame;
  flow = flow;
  payload = frame;
}

push-Generous :
    (alloc : Alloc) (q : Queue) (flows : Flows) (msg : Bytes) (flow : Option ℕ)
    → Generous alloc
    → queue_push_flow alloc (q, flows) msg flow
      ≡ some (q ++ (full_mbuf msg flow ∷ []), watch_flow_inc flows flow)
unfolding queue_push_flow
push-Generous alloc q flows msg flow g = ground (arith, g (40 + length msg))

hdlc-Generous :
    (alloc : Alloc) (q : Queue) (flows : Flows) (msg : Bytes) (flow : Option ℕ)
    → Generous alloc
    → hdlc_enqueue_flow alloc (q, flows) msg flow
      ≡ some (q ++ (full_mbuf (hdlc_encode msg) flow ∷ []), watch_flow_inc flows flow)
unfolding hdlc_enqueue_flow
hdlc-Generous alloc q flows msg flow g =
    rw (g ((length msg + 2) * 2 + 1)) (push-Generous alloc q flows (hdlc_encode msg) flow g)

nhdlc-Generous :
    (alloc : Alloc) (q : Queue) (flows : Flows) (msg : Bytes) (flow : Option ℕ)
    → Generous alloc
    → queue_push_nhdlc_flow alloc (q, flows) msg flow
      ≡ some (q ++ (full_mbuf (nhdlc_frame msg) flow ∷ []), watch_flow_inc flows flow)
unfolding queue_push_nhdlc_flow
nhdlc-Generous alloc q flows msg flow g =
    ground (arith, g (40 + (length msg + 5)), length-nhdlc_frame msg)

dm_enqueue-Generous :
    (alloc : Alloc) (ty : ℕ) (q : Queue) (flows : Flows) (msg : Bytes) (flow : Option ℕ)
    → Generous alloc
    → IsKnown ty
    → dm_enqueue alloc ty (q, flows) msg flow
      ≡ some (ok, q ++ (full_mbuf (frame_for ty msg) flow ∷ []), watch_flow_inc flows flow)
unfolding dm_enqueue
dm_enqueue-Generous alloc ty q flows msg flow g (inl e) =
    rw (e, push-Generous alloc q flows msg flow g)
dm_enqueue-Generous alloc ty q flows msg flow g (inr (inl e)) =
    rw (e, hdlc-Generous alloc q flows msg flow g)
dm_enqueue-Generous alloc ty q flows msg flow g (inr (inr e)) =
    rw (e, nhdlc-Generous alloc q flows msg flow g)

-- What a broadcast does to one monitor.
abbrev pub deliver : Bytes → Option ℕ → DiagClient → DiagClient
deliver msg flow dm =
    if dm.enabled
    then record dm { outq = dm.outq ++ (full_mbuf (frame_for dm.encode_type msg) flow ∷ []) }
    else dm

abbrev pub count_flow : Option ℕ → List DiagClient → Flows → Flows
count_flow flow [] flows = flows
count_flow flow (dm ∷ clients) flows =
    count_flow flow clients (if dm.enabled then watch_flow_inc flows flow else flows)

abbrev pub AllKnown : List DiagClient → Type 0
AllKnown = All (λ dm. IsKnown dm.encode_type)

-- With memory granted and a known encoding, an enabled monitor gets the message in its own
-- encoding at the end of its queue and its flow counter goes up; a disabled one is left alone.
pub dm_send_flow-deliver :
    (alloc : Alloc) (dm : DiagClient) (flows : Flows) (msg : Bytes) (flow : Option ℕ)
    → Generous alloc
    → IsKnown dm.encode_type
    → dm_send_flow alloc (dm, flows) msg flow
      ≡ some (ok, deliver msg flow dm, if dm.enabled then watch_flow_inc flows flow else flows)
unfolding dm_send_flow
dm_send_flow-deliver alloc dm flows msg flow g k = elim (Bool-cases dm.enabled) [
  | inl on ↦ rw (on, dm_enqueue-Generous alloc dm.encode_type dm.outq flows msg flow g k)
  | inr off ↦ rw (off)
]

-- With memory granted and known encodings, a broadcast reaches every enabled monitor once, in the
-- monitor's own encoding, leaves the disabled ones alone and keeps the monitors' order; the flow
-- counter goes up once for each enabled monitor.
pub dm_broadcast-deliver :
    (alloc : Alloc) (clients : List DiagClient) (flows : Flows) (msg : Bytes) (flow : Option ℕ)
    → Generous alloc
    → AllKnown clients
    → dm_broadcast alloc clients flows msg flow
      ≡ some (map (deliver msg flow) clients, count_flow flow clients flows)
unfolding dm_broadcast
dm_broadcast-deliver alloc [] flows msg flow g k = refl
dm_broadcast-deliver alloc (dm ∷ clients) flows msg flow g k = rw (
  dm_send_flow-deliver alloc dm flows msg flow g k.0,
  dm_broadcast-deliver alloc clients (if dm.enabled then watch_flow_inc flows flow else flows) msg
      flow g k.1,
)
