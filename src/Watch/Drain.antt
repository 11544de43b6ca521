-- ===== src/Watch/Drain.antt =====
-- The descriptors of router/watch.c that are waited for.
use diag.Base.{
  ℕ, ◌≤◌, ◌<◌, ◌≡◌, refl, ◌≢◌, ◌⊎◌, inl, inr, true, false, some, List, [], ◌∷◌, arith, leb,
  Bool-cases, All,
}
use diag.World.{Flows}
use diag.Queue.{watch_flow_blocked, flow_watermark}
use diag.Watch.{Watch}
use diag.Watch.Run.{read_fds, elem}
use diag.Watch.Fifo.{Channel, Reach}
use diag.Watch.Fifo.Counts.{outstanding, Reach-counts}

-- Every watch on a descriptor belongs to a flow context.
abbrev pub Governs : ℕ → ℕ → List Watch → Type 0
Governs f fd = All (λ w. (w.fd ≢ fd) ⊎ (w.flow ≡ some f))

abbrev pub Watches : ℕ → List Watch → Type 0
Watches fd [] = ⊥
Watches fd (w ∷ ws) = (w.fd ≡ fd) ⊎ Watches fd ws

fds_blocked :
    (flows : Flows) (fd f : ℕ) (ws : List Watch)
    → Governs f fd ws
    → flow_watermark < flows f
    → elem fd (read_fds flows ws) ≡ false
unfolding read_fds watch_flow_blocked
fds_blocked flows fd f [] h b = refl
fds_blocked flows fd f (w ∷ ws) h b = ground (arith, h.0, fds_blocked flows fd f ws h.1)

fds_open :
    (flows : Flows) (fd f : ℕ) (ws : List Watch)
    → Governs f fd ws
    → Watches fd ws
    → flows f ≤ flow_watermark
    → elem fd (read_fds flows ws) ≡ true
unfolding read_fds watch_flow_blocked
fds_open flows fd f [] h m b = absurd m
fds_open flows fd f (w ∷ ws) h (inl e) b = ground (arith, h.0)
fds_open flows fd f (w ∷ ws) h (inr m) b = ground (arith, fds_open flows fd f ws h.1 m)

-- After pushes, requests, events and removals of watches in any order over any queues: a descriptor
-- whose watches belong to a flow context is waited for exactly when at most ten of the context's
-- buffers are queued, with the kernel, or were with the kernel when their watch was removed.
pub read_fds-outstanding :
    {cs : List Channel} {flows : Flows} (fd f : ℕ) (ws : List Watch)
    → Reach cs flows
    → Governs f fd ws
    → Watches fd ws
    → elem fd (read_fds flows ws) ≡ leb (outstanding f cs) flow_watermark
read_fds-outstanding {cs} {flows} fd f ws r g m =
    elim (Bool-cases (leb (outstanding f cs) flow_watermark)) [
      | inl few ↦ rw few (fds_open flows fd f ws g m (ground (arith, Reach-counts f r)))
      | inr many ↦ rw many (fds_blocked flows fd f ws g (ground (arith, Reach-counts f r)))
    ]
