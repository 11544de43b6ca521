-- ===== src/Daemon/Closed.antt =====
-- A monitor of router/dm.c whose connection is closed.
use diag.Base.{
  ℕ, subst, suc, ◌<◌, ◌≡◌, refl, sym, ap, ◌≢◌, ◌⊎◌, inl, inr, true, not, Option, none, some, List,
  [], ◌∷◌, arith, ◌==◌, Bool-cases, length, keep_if, All,
}
use diag.Bytes.{Bytes}
use diag.CircBuf.{Kernel, got}
use diag.World.{DiagClient, ok, diag_encode_raw}
use diag.Queue.{watch_flow_blocked, flow_watermark}
use diag.Dm.{update_client}
use diag.Dm.Send.{Generous, AllKnown, IsKnown}
use diag.Dm.Read.{returned, dm_recv, dm_recv_raw}
use diag.Watch.{Watch, Timeval, watch_remove_fd}
use diag.Daemon.{State, on_world, outq_of}
use diag.Daemon.Client.{find_client, recv_for}
use diag.Daemon.Counts.{broadcast_all, KeepsKind, Piled, broadcast_all-Piled}

AllKnown-update :
    (addr : ℕ) (g : DiagClient → DiagClient) (clients : List DiagClient)
    → KeepsKind g
    → AllKnown clients
    → AllKnown (update_client addr g clients)
unfolding update_client
AllKnown-update addr g [] keeps k = k
AllKnown-update addr g (dm ∷ clients) keeps k = elim (Bool-cases (dm.id == addr)) [
  | inl here ↦ rw (here, update_client) (subst IsKnown (sym (keeps dm).1) k.0, k.1)
  | inr there ↦ rw (there, update_client) (k.0, AllKnown-update addr g clients keeps k.1)
]

pub removed : (fd : ℕ) (ws : List Watch) → All (λ w. w.fd ≢ fd) (keep_if (λ w. not (w.fd == fd)) ws)
removed fd [] = tt
removed fd (w ∷ ws) = elim (Bool-cases (w.fd == fd)) [
  | inl same ↦ rw same (removed fd ws)
  | inr other ↦ rw other (ground arith, removed fd ws)
]

closed_state : ℕ → ℕ → DiagClient → State → State
unfolding watch_remove_fd update_client
closed_state addr fd dm s =
    on_world
      (λ w. record w {
        clients = update_client addr (λ old. record old { recv_buf = dm.recv_buf }) w.clients;
      })
      (watch_remove_fd fd s)

recv_for-closed_state :
    (now : Timeval) (fuel : ℕ) (read : Kernel) (addr fd : ℕ) (dm : DiagClient) (s : State)
    → find_client addr s.rest.world.clients ≡ some dm
    → dm.encode_type ≡ diag_encode_raw
    → dm.in_fd ≡ some fd
    → read 0 4096 ≡ got []
    → recv_for now (suc fuel) read addr s ≡ some (returned ok, closed_state addr fd dm s)
unfolding recv_for dm_recv dm_recv_raw closed_state
recv_for-closed_state now fuel read addr fd dm s found raw given ends =
    rw (found, recv_for, raw, dm_recv_raw, ends, given) refl

client_or : DiagClient → Option DiagClient → DiagClient
client_or d none = d
client_or d (some e) = e

with_ring_of : DiagClient → DiagClient → DiagClient
with_ring_of dm x = record x { recv_buf = dm.recv_buf }

-- A ring that is put back.
found-ring :
    (addr : ℕ) (clients : List DiagClient) (dm : DiagClient)
    → find_client addr clients ≡ some dm
    → find_client addr (update_client addr (λ old. record old { recv_buf = dm.recv_buf }) clients)
      ≡ some dm
unfolding find_client update_client client_or with_ring_of
found-ring addr [] dm h = absurd (ground (arith, h))
found-ring addr (d ∷ clients) dm h = elim (Bool-cases (d.id == addr)) [
  | inl here ↦
      let same : d ≡ dm = ap (client_or d) (rw here at h) in
      rw (here, update_client, here) (ap (λ x. some (with_ring_of dm x)) same)
  | inr there ↦ rw (there, update_client, there) (found-ring addr clients dm (rw there at h))
]

-- A watch of a monitor's queue is on the descriptor.
abbrev pub WritesTo : ℕ → ℕ → Watch → Type 0
WritesTo queue fd w = (w.queue ≢ queue) ⊎ (w.fd ≡ fd)

no_writer :
    (queue fd : ℕ) (ws : List Watch)
    → All (WritesTo queue fd) ws
    → All (λ w. w.queue ≢ queue) (keep_if (λ w. not (w.fd == fd)) ws)
no_writer queue fd [] h = tt
no_writer queue fd (w ∷ ws) h = elim (Bool-cases (w.fd == fd)) [
  | inl same ↦ rw same (no_writer queue fd ws h.1)
  | inr other ↦ rw other (ground (arith, h.0), no_writer queue fd ws h.1)
]

-- A monitor with no encoding, whose queue is written to the descriptor that it reads, comes to its
-- end of file: the watches on the descriptor are gone, and so is that of its queue, but the monitor
-- itself stays as it was. With memory granted, broadcasts of a peripheral's data go on to add a buffer
-- each to its queue if it is enabled, while still no watch is on the queue that could write them; once
-- more than ten have been made the peripheral's flow is blocked.
pub recv_for_closed :
    (now : Timeval) (fuel : ℕ) (read : Kernel) (addr fd f : ℕ) (dm : DiagClient) (ms : List Bytes)
    (s : State)
    → find_client addr s.rest.world.clients ≡ some dm
    → dm.encode_type ≡ diag_encode_raw
    → dm.in_fd ≡ some fd
    → All (WritesTo (outq_of addr) fd) s.aio_watches
    → read 0 4096 ≡ got []
    → Generous s.rest.world.alloc
    → AllKnown s.rest.world.clients
    → dm.enabled ≡ true
    → flow_watermark < length ms
    → (s1 s2 : State) × (recv_for now (suc fuel) read addr s ≡ some (returned ok, s1))
      × (find_client addr s1.rest.world.clients ≡ some dm)
      × All (λ w. w.fd ≢ fd) s1.read_watches
      × All (λ w. w.fd ≢ fd) s1.aio_watches
      × (broadcast_all ms (some f) s1 ≡ some s2)
      × Piled addr f (length ms) dm s1 s2
      × All (λ w. w.queue ≢ outq_of addr) s2.aio_watches
      × (watch_flow_blocked s2.flows (some f) ≡ true)
unfolding watch_flow_blocked closed_state watch_remove_fd
recv_for_closed now fuel read addr fd f dm ms s found raw given writes ends g k on l =
    let s1 = closed_state addr fd dm s in
    let still = found-ring addr s.rest.world.clients dm found in
    let later =
      broadcast_all-Piled ms addr f dm s1 g
        (AllKnown-update addr (λ old. record old { recv_buf = dm.recv_buf }) s.rest.world.clients
          (λ old. (refl, refl)) k)
        still on in
    (
      s1,
      later.0,
      recv_for-closed_state now fuel read addr fd dm s found raw given ends,
      still,
      removed fd s.read_watches,
      removed fd s.aio_watches,
      later.1,
      later.2,
      subst (All (λ w. w.queue ≢ outq_of addr)) (sym (later.2).watches)
          (no_writer (outq_of addr) fd s.aio_watches writes),
      ground (arith, (later.2).counted, l),
    )
