-- ===== src/Watch/Fifo.antt =====
-- The write queues of router/watch.c as a system: messages are pushed, requests are made, events are
-- handled and watches are removed, in any order.
pub mod Counts
use diag.Base.{
  ℕ, subst, zero, suc, ◌+◌, ◌-◌, ◌*◌, ◌/◌, ◌%◌, ◌^◌, ◌≤◌, ◌<◌, min, bit_and, bit_or, bit_xor, ◌≡◌,
  refl, sym, ap, ap₂, ◌∙◌, ◌≢◌, ◌↔◌, ◌⊎◌, inl, inr, Bool, true, false, not, ◌&&◌, ◌||◌, Option,
  none, some, List, [], ◌∷◌, ◌++◌, map, append-nil, append_assoc, arith, ltb, leb, ◌==◌,
  if◌then◌else◌, ltb→lt, ==_iff, ==_refl, Bool-cases, Option-cases, length, get_elem?, get_or, set,
  take, drop, replicate, keep_if, length-append, length-set, length-take, length-drop,
  length-replicate, get_or-set_self, get_or-set_ne, take-append, drop-append, All, All-append,
  passes_below, passes_below-lt, bit_xor_step, bit_xor-zero, bit_xor_fields, bit_xor-lt,
}
use diag.Bytes.{Bytes}
use diag.World.{Mbuf, Queue, Flows, Alloc}
use diag.Queue.{queue_push_flow, queue_push_nhdlc_flow, nhdlc_frame, mbuf_alloc, mbuf_put}
use diag.Watch.{Watch, Loop}
use diag.Watch.Aio.{watch_submit_aio, complete_aio, IoEvent, find_watch}
use diag.Watch.Events.{no_change, freed, handle_lem}

-- A write queue with its watch, the messages that were pushed, and those that io_submit(2) has taken.
-- `lost` are the buffers that were with the kernel when their watch was removed.
pub record Channel : Type 0 where
  pub queue : Queue
  pub watch : Watch
  pub pushed : List Bytes
  pub submitted : List Bytes
  pub lost : Queue

abbrev pub in_flight : Option Mbuf → Queue
in_flight none = []
in_flight (some m) = m ∷ []

abbrev pub payloads : Queue → List Bytes
payloads = map (λ m. m.payload)

-- The first buffer, if the kernel takes the request.
abbrev pub taken_of : Bool → Queue → List Bytes
taken_of true (m ∷ q) = m.payload ∷ []
taken_of _ _ = []

-- The frame, if there is memory for it.
abbrev pub frame_in : Option Mbuf → Bytes → List Bytes
frame_in none frame = []
frame_in (some m) frame = frame ∷ []

pub data Move : Channel → Flows → Channel → Flows → Type 0 where
  push :
      (c : Channel) (flows flows' : Flows) (queue : Queue) (alloc : Alloc) (msg : Bytes)
      (flow : Option ℕ)
      → queue_push_flow alloc (c.queue, flows) msg flow ≡ some (queue, flows')
      → Move c flows (record c { queue = queue; pushed = c.pushed ++ (msg ∷ []) }) flows'
  push_nhdlc :
      (c : Channel) (flows flows' : Flows) (queue : Queue) (alloc : Alloc) (msg : Bytes)
      (flow : Option ℕ)
      → queue_push_nhdlc_flow alloc (c.queue, flows) msg flow ≡ some (queue, flows')
      → Move c flows
          (record c {
            queue = queue;
            pushed = c.pushed ++ frame_in (mbuf_alloc alloc (length msg + 5)) (nhdlc_frame msg);
          })
          flows'
  -- A request is made, and the kernel takes it or not.
  submit :
      (c : Channel) (flows : Flows) (taken : Bool) (queue : Queue) (watch : Watch)
      → watch_submit_aio taken (c.queue, c.watch) ≡ some (queue, watch)
      → Move c flows
          (record c {
            queue = queue;
            watch = watch;
            submitted = c.submitted ++ taken_of taken c.queue;
          })
          flows
  -- An event of io_getevents(2), whatever its result, at the watch in a state of the event loop.
  handle :
      (c : Channel) (cb : ℕ → Mbuf → Loop (Unit {0}) → Option (Loop (Unit {0}))) (node : ℕ)
      (ev : IoEvent) (s s' : Loop (Unit {0})) (watch : Watch)
      → c.watch.aio_complete ≡ none
      → find_watch node s.aio_watches ≡ some c.watch
      → complete_aio cb node ev s ≡ some s'
      → find_watch node s'.aio_watches ≡ some watch
      → Move c s.flows (record c { watch = watch }) s'.flows
  -- The watch is removed; a watch that is added on the queue later has nothing pending.
  remove :
      (c : Channel) (flows : Flows) (watch : Watch)
      → watch.pending_aio ≡ none
      → Move c flows
          (record c { watch = watch; lost = c.lost ++ in_flight c.watch.pending_aio })
          flows

-- One channel moves; all share the counters.
pub data Step : List Channel → Flows → List Channel → Flows → Type 0 where
  here :
      {c c' : Channel} {cs : List Channel} {flows flows' : Flows}
      → Move c flows c' flows'
      → Step (c ∷ cs) flows (c' ∷ cs) flows'
  there :
      {c : Channel} {cs cs' : List Channel} {flows flows' : Flows}
      → Step cs flows cs' flows'
      → Step (c ∷ cs) flows (c ∷ cs') flows'

-- A channel that was just added.
pub record IsFresh (c : Channel) : Type 0 where
  pub empty : c.queue ≡ []
  pub idle : c.watch.pending_aio ≡ none
  pub no_push : c.pushed ≡ []
  pub no_submit : c.submitted ≡ []
  pub no_loss : c.lost ≡ []

pub data Reach : List Channel → Flows → Type 0 where
  start : {cs : List Channel} → All IsFresh cs → Reach cs (λ f. 0)
  next :
      {cs cs' : List Channel} {flows flows' : Flows}
      → Reach cs flows
      → Step cs flows cs' flows'
      → Reach cs' flows'

-- What the kernel has taken, in its order, with the queue behind it is what was pushed; and what is
-- with the kernel is the last that it has taken.
pub record IsFifo (c : Channel) : Type 0 where
  pub order : c.submitted ++ payloads c.queue ≡ c.pushed
  pub earlier : List Bytes
  pub latest : earlier ++ payloads (in_flight c.watch.pending_aio) ≡ c.submitted

payloads-append : (p q : Queue) → payloads (p ++ q) ≡ payloads p ++ payloads q
payloads-append [] q = refl
payloads-append (m ∷ p) q = ap (λ l. m.payload ∷ l) (payloads-append p q)

pushed_payload :
    (alloc : Alloc) (q q' : Queue) (flows flows' : Flows) (msg : Bytes) (flow : Option ℕ)
    → queue_push_flow alloc (q, flows) msg flow ≡ some (q', flows')
    → payloads q' ≡ payloads q ++ (msg ∷ [])
unfolding queue_push_flow
pushed_payload alloc q q' flows flows' msg flow h = ground (
  arith,
  payloads-append q
      (record { size = length msg; offset = 0 + length msg; flow = flow; payload = msg } ∷ []),
)

pushed_frame :
    (alloc : Alloc) (q q' : Queue) (flows flows' : Flows) (msg : Bytes) (flow : Option ℕ)
    → queue_push_nhdlc_flow alloc (q, flows) msg flow ≡ some (q', flows')
    → payloads q' ≡ payloads q ++ frame_in (mbuf_alloc alloc (length msg + 5)) (nhdlc_frame msg)
unfolding queue_push_nhdlc_flow
pushed_frame alloc q q' flows flows' msg flow h = ground (
  arith,
  append-nil (payloads q),
  payloads-append q (
      record {
        size = length msg + 5;
        offset = length msg + 5;
        flow = flow;
        payload = nhdlc_frame msg;
      }
      ∷ []),
)

-- A submission moves the first buffer to the watch, or nothing.
pub record IsSubmitted (taken : Bool) (q q' : Queue) (w w' : Watch) : Type 0 where
  pub was_idle : w.pending_aio ≡ none
  pub pending : payloads (in_flight w'.pending_aio) ≡ taken_of taken q
  pub kept : in_flight w'.pending_aio ++ q' ≡ q

pub submit_lem :
    (taken : Bool) (q q' : Queue) (w w' : Watch)
    → watch_submit_aio taken (q, w) ≡ some (q', w')
    → IsSubmitted taken q q' w w'
unfolding watch_submit_aio
submit_lem true [] q' w w' h = ground arith
submit_lem true (m ∷ q) q' w w' h = ground arith
submit_lem false [] q' w w' h = ground arith
submit_lem false (m ∷ q) q' w w' h = ground arith

pub Move-IsFifo :
    {c c' : Channel} {flows flows' : Flows} → Move c flows c' flows' → IsFifo c → IsFifo c'
Move-IsFifo (push c flows flows' queue alloc msg flow h) v = record {
  order =
      ap (λ t. c.submitted ++ t) (pushed_payload alloc c.queue queue flows flows' msg flow h)
      ∙ sym (append_assoc c.submitted (payloads c.queue) (msg ∷ []))
      ∙ ap (λ t. t ++ (msg ∷ [])) v.order;
  earlier = v.earlier;
  latest = v.latest;
}
Move-IsFifo (push_nhdlc c flows flows' queue alloc msg flow h) v =
    let frame = frame_in (mbuf_alloc alloc (length msg + 5)) (nhdlc_frame msg) in
    record {
      order =
          ap (λ t. c.submitted ++ t) (pushed_frame alloc c.queue queue flows flows' msg flow h)
          ∙ sym (append_assoc c.submitted (payloads c.queue) frame)
          ∙ ap (λ t. t ++ frame) v.order;
      earlier = v.earlier;
      latest = v.latest;
    }
Move-IsFifo (submit c flows taken queue watch h) v =
    let r = submit_lem taken c.queue queue c.watch watch h in
    record {
      order =
          append_assoc c.submitted (taken_of taken c.queue) (payloads queue)
          ∙ ap (λ t. c.submitted ++ (t ++ payloads queue)) (sym r.pending)
          ∙ ap (λ t. c.submitted ++ t)
              (sym (payloads-append (in_flight watch.pending_aio) queue) ∙ ap payloads r.kept)
          ∙ v.order;
      earlier = c.submitted;
      latest = ap (λ t. c.submitted ++ t) r.pending;
    }
Move-IsFifo (handle c cb node ev s s' watch none_set found run after) v =
    elim (handle_lem cb node ev s s' c.watch watch none_set found run after) [
      | no_change same flows_same ↦ record {
        order = v.order;
        earlier = v.earlier;
        latest =
            ap (λ (w : Watch). v.earlier ++ payloads (in_flight w.pending_aio)) same ∙ v.latest;
      }
      | freed m was gone counted ↦ record {
        order = v.order;
        earlier = c.submitted;
        latest =
            ap (λ (w : Watch). c.submitted ++ payloads (in_flight w.pending_aio)) gone
            ∙ append-nil c.submitted;
      }
    ]
Move-IsFifo (remove c flows watch idle) v = record {
  order = v.order;
  earlier = c.submitted;
  latest = ap (λ p. c.submitted ++ payloads (in_flight p)) idle ∙ append-nil c.submitted;
}

Step-IsFifo :
    {cs cs' : List Channel} {flows flows' : Flows}
    → Step cs flows cs' flows'
    → All IsFifo cs
    → All IsFifo cs'
Step-IsFifo (here mv) v = (Move-IsFifo mv v.0, v.1)
Step-IsFifo (there st) v = (v.0, Step-IsFifo st v.1)

fresh-IsFifo : (cs : List Channel) → All IsFresh cs → All IsFifo cs
fresh-IsFifo [] h = tt
fresh-IsFifo (c ∷ cs) h = (
  record {
    order =
        ap₂ (λ w q. w ++ payloads q) (IsFresh.no_submit h.0) (IsFresh.empty h.0)
        ∙ sym (IsFresh.no_push h.0);
    earlier = [];
    latest = ap (λ p. payloads (in_flight p)) (IsFresh.idle h.0) ∙ sym (IsFresh.no_submit h.0);
  },
  fresh-IsFifo cs h.1,
)

-- From queues that were just added, whatever is pushed, with a header or without, whichever requests
-- the kernel takes, whatever comes of them, and whenever watches are removed: each queue's messages
-- are taken by the kernel in the order in which they were pushed, each one once, up to those that are
-- still queued, and what is with the kernel is the last that it has taken. A message that is taken
-- need not be written in full, or at all.
pub Reach-IsFifo : {cs : List Channel} {flows : Flows} → Reach cs flows → All IsFifo cs
Reach-IsFifo (start {cs} h) = fresh-IsFifo cs h
Reach-IsFifo (next r st) = Step-IsFifo st (Reach-IsFifo r)
