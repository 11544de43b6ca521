-- ===== src/Queue.antt =====
-- router/mbuf.c, the queues of router/diag.c and the flow counters of router/watch.c.
pub mod Frames
pub mod Flow
use diag.Base.{
  ℕ, ◌+◌, ◌-◌, ◌*◌, Bool, false, Option, none, some, [], ◌∷◌, ◌++◌, ltb, ◌==◌, if◌then◌else◌,
  length,
}
use diag.Bytes.{Bytes, le16, u16}
use diag.World.{Mbuf, Queue, Alloc, Flows}
use diag.Hdlc.{hdlc_encode}

infixl 5 ◌>>=◌
abbrev pub ◌>>=◌ {ℓ κ} : {A : Type ℓ} {B : Type κ} → Option A → (A → Option B) → Option B
none >>= f = none
some a >>= f = f a

-- `sizeof(struct mbuf)`: two list pointers, two sizes and the flow pointer.
abbrev pub sizeof_mbuf : ℕ
sizeof_mbuf = 40

unfoldable pub mbuf_alloc : Alloc → ℕ → Option Mbuf
mbuf_alloc alloc size =
    if alloc (sizeof_mbuf + size)
    then some (record { size = size; offset = 0; flow = none; payload = [] })
    else none

-- The place in `data` that is handed out, and the buffer with it reserved.
unfoldable pub mbuf_put : Mbuf → ℕ → Option (ℕ × Mbuf)
mbuf_put m size =
    if ltb m.size (m.offset + size)
    then none
    else some (m.offset, record m { offset = m.offset + size })

unfoldable pub watch_flow_inc : Flows → Option ℕ → Flows
watch_flow_inc flows none = flows
watch_flow_inc flows (some f) = λ g. if g == f then flows g + 1 else flows g

-- An unbalanced decrement is only reported.
unfoldable pub watch_flow_dec : Flows → Option ℕ → Flows
watch_flow_dec flows none = flows
watch_flow_dec flows (some f) = λ g. if g == f then flows g - 1 else flows g

abbrev pub flow_watermark : ℕ
flow_watermark = 10

unfoldable pub watch_flow_blocked : Flows → Option ℕ → Bool
watch_flow_blocked flows none = false
watch_flow_blocked flows (some f) = ltb flow_watermark (flows f)

-- `none` is the null pointer that the copy would write through.
unfoldable pub queue_push_flow : Alloc → Queue × Flows → Bytes → Option ℕ → Option (Queue × Flows)
unfolding mbuf_alloc mbuf_put watch_flow_inc
queue_push_flow alloc (q, flows) msg flow = do
  mbuf ← mbuf_alloc alloc (length msg)
  (ptr, mbuf') ← mbuf_put mbuf (length msg)
  some (q ++ (record mbuf' { payload = msg; flow = flow } ∷ []), watch_flow_inc flows flow)

unfoldable pub hdlc_enqueue_flow : Alloc → Queue × Flows → Bytes → Option ℕ → Option (Queue × Flows)
unfolding queue_push_flow
hdlc_enqueue_flow alloc (q, flows) msg flow =
    if alloc ((length msg + 2) * 2 + 1)
    then queue_push_flow alloc (q, flows) (hdlc_encode msg) flow
    else none

-- `struct diag_pkt_frame`, the packet and the closing control character.
unfoldable pub nhdlc_frame : Bytes → Bytes
unfolding le16
nhdlc_frame msg = 0x7e ∷ 1 ∷ (le16 (u16 (length msg)) ++ (msg ++ (0x7e ∷ [])))

-- A packet for which there is no memory is dropped.
unfoldable pub queue_push_nhdlc_flow :
    Alloc → Queue × Flows → Bytes → Option ℕ → Option (Queue × Flows)
unfolding mbuf_alloc mbuf_put watch_flow_inc nhdlc_frame
queue_push_nhdlc_flow alloc (q, flows) msg flow = elim (mbuf_alloc alloc (length msg + 5)) [
  | none ↦ some (q, flows)
  | some mbuf ↦ elim (mbuf_put mbuf (length msg + 5)) [
    | none ↦ some (q, flows)
    | some (ptr, mbuf') ↦ some (
      q
          ++ (record {
            size = mbuf'.size;
            offset = length msg + 5;
            flow = flow;
            payload = nhdlc_frame msg;
          }
              ∷ []),
      watch_flow_inc flows flow,
    )
  ]
]
