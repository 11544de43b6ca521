-- ===== src/Watch/Fifo/Counts.antt =====
-- The counters of router/watch.c against the buffers of all write queues.
use diag.Base.{ℕ, ◌+◌, ◌≤◌, ◌≡◌, refl, sym, ap, ap₂, ◌∙◌, List, [], ◌∷◌, ◌++◌, arith, All}
use diag.World.{Queue, Flows}
use diag.Queue.Flow.{
  owed, owed-append, queue_push_flow-Keeps, queue_push_nhdlc_flow-Keeps, watch_flow_dec-owes,
}
use diag.Watch.{Watch}
use diag.Watch.Aio.{watch_free_write_aio}
use diag.Watch.Events.{no_change, freed, handle_lem}
use diag.Watch.Fifo.{
  Channel, Move, push, push_nhdlc, submit, handle, remove, Step, here, there, Reach, start, next,
  IsFresh, in_flight, submit_lem,
}

-- The buffers that are with the kernel or queued.
abbrev pub held_by : Channel → Queue
held_by c = in_flight c.watch.pending_aio ++ c.queue

-- The buffers of a flow context that are queued, with the kernel, or were with the kernel when
-- their watch was removed, over all queues.
abbrev pub outstanding : ℕ → List Channel → ℕ
outstanding f [] = 0
outstanding f (c ∷ cs) = owed f c.lost + owed f (held_by c) + outstanding f cs

abbrev due : ℕ → Channel → ℕ
due f c = owed f c.lost + owed f (held_by c)

Move-counts :
    {c c' : Channel} {flows flows' : Flows} (f : ℕ)
    → Move c flows c' flows'
    → due f c ≤ flows f
    → flows' f + due f c ≡ flows f + due f c'
unfolding watch_free_write_aio
Move-counts f (push c flows flows' queue alloc msg flow h) v = omega (
  arith,
  queue_push_flow-Keeps alloc c.queue flows msg flow f h,
  owed-append f (in_flight c.watch.pending_aio) queue,
  owed-append f (in_flight c.watch.pending_aio) c.queue,
)
Move-counts f (push_nhdlc c flows flows' queue alloc msg flow h) v = omega (
  arith,
  queue_push_nhdlc_flow-Keeps alloc c.queue flows msg flow f h,
  owed-append f (in_flight c.watch.pending_aio) queue,
  owed-append f (in_flight c.watch.pending_aio) c.queue,
)
Move-counts f (submit c flows taken queue watch h) v =
    let r = submit_lem taken c.queue queue c.watch watch h in
    ap (λ q. flows f + (owed f c.lost + owed f q))
      (ap (λ p. in_flight p ++ c.queue) r.was_idle ∙ sym r.kept)
Move-counts f (handle c cb node ev s s' watch none_set found run after) v =
    elim (handle_lem cb node ev s s' c.watch watch none_set found run after) [
      | no_change same flows_same ↦ omega (
        arith,
        ap (λ (g : Flows). g f) flows_same,
        ap (λ (w : Watch). owed f (in_flight w.pending_aio ++ c.queue)) same,
      )
      | freed m was gone counted ↦ omega (
        arith,
        ap (λ (g : Flows). g f) counted,
        watch_flow_dec-owes s.flows m.flow f,
        ap (λ i. owed f (in_flight i ++ c.queue)) was,
        ap (λ (w : Watch). owed f (in_flight w.pending_aio ++ c.queue)) gone,
      )
    ]
Move-counts f (remove c flows watch idle) v = omega (
  arith,
  owed-append f c.lost (in_flight c.watch.pending_aio),
  owed-append f (in_flight c.watch.pending_aio) c.queue,
  ap (λ i. owed f (in_flight i ++ c.queue)) idle,
)

Step-counts :
    {cs cs' : List Channel} {flows flows' : Flows} (f : ℕ)
    → Step cs flows cs' flows'
    → outstanding f cs ≤ flows f
    → flows' f + outstanding f cs ≡ flows f + outstanding f cs'
Step-counts f (here mv) v = omega (arith, Move-counts f mv)
Step-counts f (there st) v = omega (arith, Step-counts f st)

fresh_due : (f : ℕ) (c : Channel) → IsFresh c → due f c ≡ 0
fresh_due f c h =
    ap₂ (λ l q. owed f l + owed f q) (IsFresh.no_loss h)
      (ap₂ (λ p q. in_flight p ++ q) (IsFresh.idle h) (IsFresh.empty h))

outstanding-fresh : (f : ℕ) (cs : List Channel) → All IsFresh cs → outstanding f cs ≡ 0
outstanding-fresh f [] h = refl
outstanding-fresh f (c ∷ cs) h = omega (arith, fresh_due f c h.0, outstanding-fresh f cs h.1)

-- In every reachable state each flow counter is the number of its buffers that are queued, with the
-- kernel, or were with it when their watch was removed, over all queues together.
pub Reach-counts :
    {cs : List Channel} {flows : Flows} (f : ℕ) → Reach cs flows → flows f ≡ outstanding f cs
Reach-counts f (start {cs} h) = sym (outstanding-fresh f cs h)
Reach-counts f (next r st) = omega (arith, Reach-counts f r, Step-counts f st)
