-- ===== src/Dm/Flow.antt =====
-- The flow counters against the monitors' queues, whatever the encoding and the allocator's answers.
use diag.Base.{ℕ, ◌≡◌, refl, inl, inr, Option, none, some, arith, ◌==◌, Bool-cases, Option-cases}
use diag.Bytes.{Bytes}
use diag.World.{
  Alloc, Flows, DiagClient, Queue, Ret, ok, diag_encode_raw, diag_encode_hdlc, diag_encode_nhdlc,
}
use diag.Queue.{◌>>=◌}
use diag.Queue.Flow.{
  Keeps, queue_push_flow-Keeps, hdlc_enqueue_flow-Keeps, queue_push_nhdlc_flow-Keeps,
}
use diag.Dm.{dm_enqueue, dm_send_flow}

-- What a push returns, with the result behind it.
abbrev with_ok : Queue × Flows → Option (Ret × Queue × Flows)
with_ok (q, flows) = some (ok, q, flows)

then-Keeps :
    (f : ℕ) (q q' : Queue) (flows flows' : Flows) (r : Ret) (m : Option (Queue × Flows))
    → ((out : Queue × Flows) → m ≡ some out → Keeps f (q, flows) out)
    → (m >>= with_ok) ≡ some (r, q', flows')
    → Keeps f (q, flows) (q', flows')
then-Keeps f q q' flows flows' r none k h = absurd (ground arith)
then-Keeps f q q' flows flows' r (some (q'', flows'')) k h = ground (arith, k (q'', flows'') refl)

dm_enqueue-Keeps :
    (alloc : Alloc) (ty : ℕ) (q q' : Queue) (flows flows' : Flows) (msg : Bytes) (flow : Option ℕ)
    (f : ℕ) (r : Ret)
    → dm_enqueue alloc ty (q, flows) msg flow ≡ some (r, q', flows')
    → Keeps f (q, flows) (q', flows')
unfolding dm_enqueue
dm_enqueue-Keeps alloc ty q q' flows flows' msg flow f r h =
    elim (Bool-cases (ty == diag_encode_raw)) [
      | inl raw ↦
          then-Keeps f q q' flows flows' r _
            (λ out. queue_push_flow-Keeps alloc q flows msg flow f {out = out}) (rw raw at h)
      | inr e ↦ elim (Bool-cases (ty == diag_encode_hdlc)) [
        | inl hdlc ↦
            then-Keeps f q q' flows flows' r _
              (λ out. hdlc_enqueue_flow-Keeps alloc q flows msg flow f {out = out})
              (rw (e, hdlc) at h)
        | inr e' ↦ elim (Bool-cases (ty == diag_encode_nhdlc)) [
          | inl nhdlc ↦
              then-Keeps f q q' flows flows' r _
                (λ out. queue_push_nhdlc_flow-Keeps alloc q flows msg flow f {out = out})
                (rw (e, e', nhdlc) at h)
          | inr e'' ↦ ground arith
        ]
      ]
    ]

-- Whatever the encoding is and the allocator says, a send that returns keeps the flow counter less
-- the buffers of that flow context that are queued: each queued buffer is counted once, and a
-- message that is dropped or refused is not counted.
pub dm_send_flow-Keeps :
    (alloc : Alloc) (dm dm' : DiagClient) (flows flows' : Flows) (msg : Bytes) (flow : Option ℕ)
    (f : ℕ) (r : Ret)
    → dm_send_flow alloc (dm, flows) msg flow ≡ some (r, dm', flows')
    → Keeps f (dm.outq, flows) (dm'.outq, flows')
unfolding dm_send_flow
dm_send_flow-Keeps alloc dm dm' flows flows' msg flow f r h = elim (Bool-cases dm.enabled) [
  | inl on ↦ elim (Option-cases (dm_enqueue alloc dm.encode_type (dm.outq, flows) msg flow)) [
    | inl fails ↦ ground arith
    | inr ((r', q, f'), e) ↦
        ground (arith, dm_enqueue-Keeps alloc dm.encode_type dm.outq q flows f' msg flow f r' e)
  ]
  | inr off ↦ ground arith
]
