-- ===== src/Watch/Run.antt =====
-- `watch_run` of router/watch.c, one turn of its loop at a time.
use diag.Base.{
  ℕ, Bool, true, false, not, ◌||◌, Option, none, some, List, [], ◌∷◌, ◌==◌, if◌then◌else◌, keep_if,
}
use diag.World.{Mbuf, Flows}
use diag.Queue.{◌>>=◌, watch_flow_blocked}
use diag.Watch.{Timeval, Timer, Watch, Loop}
use diag.Watch.Timers.{
  watch_set_timer, watch_get_next_timer, next_timeout, update_timer, watch_free_timer,
}
use diag.Watch.Aio.{IoEvent, find_watch, first_node, submit_all, each_safe, watch_handle_eventfd}

-- What select(2) answers: an error, or the descriptors that it leaves set, none after a timeout.
pub data Selected : Type 0 where
  failed : Selected
  ready : List ℕ → Selected

-- The kernel in one turn: the time, the requests that it takes, the answer of select(2) to the
-- descriptors and the timeout, the events it reports, and the time when a timer is set again.
pub record Kernel : Type 0 where
  pub now : Timeval
  pub takes : ℕ → Bool
  pub select : List ℕ → Option Timeval → Selected
  pub events : List IoEvent
  pub later : Timeval

abbrev pub elem : ℕ → List ℕ → Bool
elem x [] = false
elem x (y ∷ ys) = x == y || elem x ys

-- The descriptors that are waited for, in the order in which they are set.
unfoldable pub read_fds : Flows → List Watch → List ℕ
read_fds flows [] = []
read_fds flows (w ∷ ws) =
    if watch_flow_blocked flows w.flow then read_fds flows ws else w.fd ∷ read_fds flows ws

module _ {ℓ} {S : Type ℓ} where
  unfoldable pub list_del_read : ℕ → Loop S → Loop S
  list_del_read node s = record s {
    read_watches = keep_if (λ w. not (w.node == node)) s.read_watches;
  }

  -- `rounds` bounds the watches that one walk visits. `call` is a watch's callback, given a
  -- descriptor or none for -1, with whether it returned an error; `fire` is a timer's.
  -- `complete` is the call of a read's `aio_complete`.
  module _ (rounds : ℕ) (call : ℕ → Option ℕ → Loop S → Option (Bool × Loop S))
      (fire : ℕ → Loop S → Option (Loop S)) (complete : ℕ → Mbuf → Loop S → Option (Loop S)) where
    -- One read watch; a watch whose callback fails is taken off the list, and it is an access to
    -- freed memory if the callback has already freed it.
    unfoldable pub call_ready : List ℕ → ℕ → Loop S → Option (Loop S)
    call_ready rfds node s = elim (find_watch node s.read_watches) [
      | none ↦ none
      | some w ↦ elim (elem w.fd rfds) [
        | false ↦ some s
        | true ↦ do
          (error, s') ← call w.cb (some w.fd) s
          if error
              then (elim (find_watch node s'.read_watches) [
                | none ↦ none
                | some v ↦ some (list_del_read node s')
              ])
              else some s'
      ]
    ]

    -- The timer that is due; it is an access to freed memory if its callback has freed it.
    unfoldable pub fire_timer : Timeval → Timer → Loop S → Option (Loop S)
    fire_timer now t s = do
      s' ← fire t.cb s
      some (
          if t.repeat
          then record s' { timers = update_timer t.node (watch_set_timer now) s'.timers }
          else watch_free_timer t.node s')

    unfoldable pub call_all : List ℕ → Loop S → Option (Loop S)
    call_all rfds s =
        each_safe rounds (λ t. t.read_watches) (call_ready rfds) (first_node s.read_watches) s

    -- One turn: `none` is a fault; the flag says whether the loop goes on.
    unfoldable pub watch_turn : ℕ → Kernel → Loop S → Option (Bool × Loop S)
    watch_turn evfd k s = do
      (ws, queues) ← submit_all k.takes s.aio_watches s.queues
      let s1 : Loop S = record s { aio_watches = ws; queues = queues }
      elim (k.select (evfd ∷ read_fds s1.flows s1.read_watches) (next_timeout k.now s1.timers)) [
        | failed ↦ some (false, s1)
        | ready rfds ↦ do
          s2 ← (elim rfds [
            | fd ∷ fds ↦ some s1
            | [] ↦ elim (watch_get_next_timer s1.timers) [
              | none ↦ some s1
              | some t ↦ fire_timer k.later t s1
            ]
          ])
          s3 ←
              (if elem evfd rfds then watch_handle_eventfd complete rounds k.events s2 else some s2)
          s4 ← call_all rfds s3
          some (true, s4)
      ]

    -- The turns until a callback asks to quit or select(2) fails, for as long as the kernel's
    -- answers go; what is left is handed to the callbacks of `quit_watches`.
    unfoldable pub watch_turns : ℕ → List Kernel → Loop S → Option (Loop S)
    watch_turns evfd [] s = some s
    watch_turns evfd (k ∷ ks) s = elim s.do_watch_quit [
      | true ↦ some s
      | false ↦ elim (watch_turn evfd k s) [
        | none ↦ none
        | some (false, s') ↦ some s'
        | some (true, s') ↦ watch_turns evfd ks s'
      ]
    ]

    unfoldable pub call_quit : List Watch → Loop S → Option (Loop S)
    call_quit [] s = some s
    call_quit (w ∷ ws) s = do (error, s') ← call w.cb none s; call_quit ws s'

    unfoldable pub watch_run : ℕ → List Kernel → Loop S → Option (Loop S)
    watch_run evfd ks s = do s' ← watch_turns evfd ks s; call_quit s'.quit_watches s'
