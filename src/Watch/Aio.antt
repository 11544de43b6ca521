-- ===== src/Watch/Aio.antt =====
-- The asynchronous reads and writes of router/watch.c: one buffer of a queue at a time is with the
-- kernel.
use diag.Base.{
  ℕ, zero, suc, Bool, true, false, Option, none, some, List, [], ◌∷◌, ◌==◌, if◌then◌else◌,
}
use diag.World.{Mbuf, Queue, Flows}
use diag.Queue.{◌>>=◌, watch_flow_dec}
use diag.Watch.{Watch, Loop}

-- One watch and its queue; `taken` says whether io_submit(2) took the request. `none` is the failed
-- assertion that no buffer is pending.
unfoldable pub watch_submit_aio : Bool → Queue × Watch → Option (Queue × Watch)
watch_submit_aio taken (q, w) = elim w.pending_aio [
  | some m ↦ none
  | none ↦ elim q [
    | [] ↦ some ([], w)
    | m ∷ rest ↦ some (if taken then (rest, record w { pending_aio = some m }) else (m ∷ rest, w))
  ]
]

-- What io_getevents(2) says of a request: its descriptor, and its result or whether it is -EAGAIN
-- or another error.
pub data AioResult : Type 0 where
  again failed : AioResult
  bytes : ℕ → AioResult

pub record IoEvent : Type 0 where
  pub fildes : ℕ
  pub res : AioResult

-- `watch_free_write_aio`; the buffer is freed.
unfoldable pub watch_free_write_aio : Mbuf → Flows → Flows
unfolding watch_flow_dec
watch_free_write_aio m flows = watch_flow_dec flows m.flow

-- The length of a read is stored in the buffer, whose `payload` are the bytes that the kernel put there.
unfoldable pub store_length : Bool → AioResult → Mbuf → Mbuf
store_length is_write (bytes n) m = if is_write then m else record m { offset = n }
store_length is_write _ m = m

-- The watch at an address, changed in its place.
unfoldable pub update_watch : ℕ → (Watch → Watch) → List Watch → List Watch
update_watch node g [] = []
update_watch node g (w ∷ ws) = if w.node == node then g w ∷ ws else w ∷ update_watch node g ws

unfoldable pub find_watch : ℕ → List Watch → Option Watch
find_watch node [] = none
find_watch node (w ∷ ws) = if w.node == node then some w else find_watch node ws

-- The address behind an address; `none` at the end of the list.
unfoldable pub next_node : ℕ → List Watch → Option ℕ
next_node node [] = none
next_node node (w ∷ ws) =
    if w.node == node then (elim ws [ [] ↦ none | v ∷ vs ↦ some v.node ]) else next_node node ws

unfoldable pub first_node : List Watch → Option ℕ
first_node [] = none
first_node (w ∷ ws) = some w.node

-- The `list_for_each_entry` of `watch_run`, over the queues.
unfoldable pub submit_all :
    (ℕ → Bool) → List Watch → (ℕ → Queue) → Option (List Watch × (ℕ → Queue))
submit_all taken [] queues = some ([], queues)
submit_all taken (w ∷ ws) queues = do
  (q, w') ← (elim w.pending_aio [
    | some m ↦ some (queues w.queue, w)
    | none ↦ watch_submit_aio (taken w.node) (queues w.queue, w)
  ])
  (ws', queues') ← submit_all taken ws (λ k. if k == w.queue then q else queues k)
  some (w' ∷ ws', queues')

module _ {ℓ} {S : Type ℓ} where
  -- `list_for_each_entry_safe`: the next address is taken before the body runs, and is followed
  -- even if the body has freed what stands there. `none` is an access to freed memory, or a fault
  -- of the body.
  unfoldable pub each_safe :
      ℕ
      → (Loop S → List Watch)
      → (ℕ → Loop S → Option (Loop S))
      → Option ℕ
      → Loop S
      → Option (Loop S)
  each_safe fuel list body none s = some s
  each_safe zero list body (some node) s = none
  each_safe (suc fuel) list body (some node) s = elim (find_watch node (list s)) [
    | none ↦ none
    | some w ↦ elim (body node s) [
      | none ↦ none
      | some s' ↦ each_safe fuel list body (next_node node (list s)) s'
    ]
  ]

  -- `complete` is the call of a read's `aio_complete`.
  module _ (complete : ℕ → Mbuf → Loop S → Option (Loop S)) where
    -- One event at one watch; `none` is the failed assertion that a buffer is pending, or that the
    -- callback has freed the watch.
    unfoldable pub complete_aio : ℕ → IoEvent → Loop S → Option (Loop S)
    complete_aio node ev s = elim (find_watch node s.aio_watches) [
      | none ↦ none
      | some w ↦ elim (ev.fildes == w.fd) [
        | false ↦ some s
        | true ↦ elim w.pending_aio [
          | none ↦ none
          | some m ↦ elim ev.res [
            | again ↦ some s
            | other ↦ do
              s' ← (elim w.aio_complete [
                | none ↦ some (record s { flows = watch_free_write_aio m s.flows })
                | some cb ↦ complete cb (store_length w.is_write other m) s
              ])
              elim (find_watch node s'.aio_watches) [
                | none ↦ none
                | some v ↦ some (record s' {
                  aio_watches =
                      update_watch node (λ u. record u { pending_aio = none }) s'.aio_watches;
                })
              ]
          ]
        ]
      ]
    ]

    unfoldable pub complete_events : List IoEvent → ℕ → Loop S → Option (Loop S)
    complete_events [] node s = some s
    complete_events (ev ∷ evs) node s = do s' ← complete_aio node ev s; complete_events evs node s'

    -- The events are none where the counter of the event descriptor cannot be read. `rounds` is the
    -- fuel of the walk: a body may add watches, which are visited too.
    unfoldable pub watch_handle_eventfd : ℕ → List IoEvent → Loop S → Option (Loop S)
    watch_handle_eventfd rounds evs s =
        each_safe rounds (λ t. t.aio_watches) (complete_events evs) (first_node s.aio_watches) s
