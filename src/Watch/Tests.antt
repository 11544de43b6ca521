-- ===== src/Watch/Tests.antt =====
-- A queue with two messages, three timers and some watches, and the theorems on the event loop at
-- them.
use diag.Base.{
  ℕ, ◌≡◌, refl, inl, inr, true, false, Option, none, some, List, [], ◌∷◌, arith, leb, length, All,
}
use diag.Bytes.{Bytes}
use diag.World.{Mbuf, Flows, Alloc}
use diag.Queue.{queue_push_flow, watch_flow_inc, flow_watermark}
use diag.Watch.{Timeval, Timer, Watch, Loop, blank_watch}
use diag.Watch.Timers.{next_timeout}
use diag.Watch.Timers.Laws.{IsTimeout, next_timeout-IsLeast}
use diag.Watch.Aio.{
  watch_submit_aio, watch_free_write_aio, complete_aio, IoEvent, bytes, find_watch, update_watch,
}
use diag.Watch.Run.{read_fds, elem}
use diag.Watch.Fifo.{
  Channel, push, submit, handle, here, Reach, start, next, IsFresh, IsFifo, Reach-IsFifo,
}
use diag.Watch.Fifo.Counts.{outstanding}
use diag.Watch.Drain.{read_fds-outstanding}

abbrev grant : Alloc
grant n = true

abbrev no_flows : Flows
no_flows f = 0

abbrev writer : Watch
writer = record (blank_watch 1 5) { is_write = true }

abbrev fresh_channel : Channel
fresh_channel = record { queue = []; watch = writer; pushed = []; submitted = []; lost = [] }

abbrev hello : Bytes
hello = 0x60 ∷ 0x7e ∷ []

abbrev bye : Bytes
bye = 7 ∷ []

abbrev mbuf_of : Bytes → Mbuf
mbuf_of msg = record { size = length msg; offset = length msg; flow = some 7; payload = msg }

abbrev one_push : Channel
one_push = record fresh_channel { queue = mbuf_of hello ∷ []; pushed = hello ∷ [] }

abbrev two_pushes : Channel
two_pushes = record one_push { queue = mbuf_of hello ∷ mbuf_of bye ∷ []; pushed = hello ∷ bye ∷ [] }

abbrev in_kernel : Channel
in_kernel = record two_pushes {
  queue = mbuf_of bye ∷ [];
  watch = record writer { pending_aio = some (mbuf_of hello) };
  submitted = hello ∷ [];
}

abbrev one_flow : Flows
one_flow = watch_flow_inc no_flows (some 7)

abbrev two_flows : Flows
two_flows = watch_flow_inc one_flow (some 7)

fresh : IsFresh fresh_channel
fresh = record { empty = refl; idle = refl; no_push = refl; no_submit = refl; no_loss = refl }

after_one : Reach (one_push ∷ []) one_flow
unfolding queue_push_flow
after_one =
    next (start (fresh, tt))
      (here (push fresh_channel no_flows one_flow (mbuf_of hello ∷ []) grant hello (some 7) refl))

after_two : Reach (two_pushes ∷ []) two_flows
unfolding queue_push_flow
after_two = next after_one (
    here
      (push one_push one_flow two_flows (mbuf_of hello ∷ mbuf_of bye ∷ []) grant bye (some 7) refl))

after_submit : Reach (in_kernel ∷ []) two_flows
unfolding watch_submit_aio
after_submit =
    next after_two (here (submit two_pushes two_flows true (mbuf_of bye ∷ []) in_kernel.watch refl))

-- The event loop with one byte of the two written.
abbrev one_pending : Loop (Unit {0})
one_pending = record {
  timers = [];
  read_watches = [];
  aio_watches = in_kernel.watch ∷ [];
  quit_watches = [];
  do_watch_quit = false;
  queues = λ q. [];
  flows = two_flows;
  fresh = 9;
  rest = tt;
}

abbrev short_write : IoEvent
short_write = record { fildes = 5; res = bytes 1 }

abbrev no_call : ℕ → Mbuf → Loop (Unit {0}) → Option (Loop (Unit {0}))
no_call cb m s = none

abbrev none_pending : Loop (Unit {0})
none_pending = record one_pending {
  aio_watches = writer ∷ [];
  flows = watch_free_write_aio (mbuf_of hello) two_flows;
}

abbrev half_written : Channel
half_written = record in_kernel { watch = writer }

after_event : Reach (half_written ∷ []) none_pending.flows
unfolding complete_aio find_watch update_watch
after_event = next after_submit (
    here
      (handle in_kernel no_call 1 short_write one_pending none_pending writer refl refl refl refl))

Reach-IsFifo_example : All IsFifo (half_written ∷ [])
Reach-IsFifo_example = Reach-IsFifo after_event

abbrev data_watch : Watch
data_watch = record (blank_watch 2 6) { flow = some 7 }

abbrev cntl_watch : Watch
cntl_watch = blank_watch 3 8

read_fds-outstanding_example :
    elem 6 (read_fds two_flows (cntl_watch ∷ data_watch ∷ []))
    ≡ leb (outstanding 7 (in_kernel ∷ [])) flow_watermark
read_fds-outstanding_example =
    read_fds-outstanding 6 7 (cntl_watch ∷ data_watch ∷ []) after_submit
      (inl (λ e. absurd (omega (arith, e))), (inr refl, tt)) (inr (inl refl))

abbrev timer_at : ℕ → ℕ → ℕ → Timer
timer_at node sec usec = record {
  node = node;
  cb = 1;
  interval = 200;
  repeat = false;
  tick = record { tv_sec = sec; tv_usec = usec };
}

abbrev now : Timeval
now = record { tv_sec = 9; tv_usec = 999999 }

abbrev timers : List Timer
timers = timer_at 4 12 5 ∷ timer_at 5 10 7 ∷ timer_at 6 10 8 ∷ []

next_timeout-IsLeast_example : IsTimeout now timers (next_timeout now timers)
next_timeout-IsLeast_example =
    next_timeout-IsLeast now timers (omega arith) (omega arith, (omega arith, (omega arith, tt)))
