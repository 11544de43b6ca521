-- ===== src/Perif/Qrtr/Laws.antt =====
-- The write watch of a peripheral's data socket in router/peripheral-qrtr.c.
use diag.Base.{
  ℕ, subst, ◌+◌, ◌≡◌, refl, sym, ap, ◌∙◌, inl, inr, Bool, true, false, not, Option, none, some,
  List, [], ◌∷◌, ◌++◌, arith, ◌==◌, if◌then◌else◌, Bool-cases, length, keep_if,
}
use diag.Bytes.{Bytes}
use diag.Dm.{dm_broadcast}
use diag.Queue.{◌>>=◌}
use diag.Perif.Frame.{
  NonHdlcPkt, packet, invalid, truncated, unterminated, outside, check_frame, broadcast_frame,
}
use diag.World.{Peripheral, DiagClient, Flows}
use diag.Watch.{Watch, blank_watch, watch_add_writeq, watch_remove_writeq}
use diag.Daemon.{State, on_world, broadcast, find_peripheral, update_peripheral, the_peripheral}
use diag.Perif.{dataq_of}
use diag.Perif.Qrtr.{
  qrtr_type_data, qrtr_type_bye, qrtr_type_new_server, qrtr_type_del_server, qrtr_type_del_client,
  qrtr_type_other, QrtrRead, refused, decoded, open_data, qrtr_data_recv,
}

-- How many asynchronous watches a descriptor has.
abbrev pub watches_on : ℕ → List Watch → ℕ
watches_on fd [] = 0
watches_on fd (w ∷ ws) = (if w.fd == fd then 1 else 0) + watches_on fd ws

-- The data socket has one watch once it is connected, and none before.
abbrev pub HasWriter : ℕ → ℕ → State → Type 0
HasWriter fd addr s =
    (p : Peripheral) × (the_peripheral addr s ≡ some p)
    × (watches_on fd s.aio_watches ≡ (if p.data_open then 1 else 0))

watches_on-append :
    (fd : ℕ) (w : Watch) (ws : List Watch)
    → w.fd ≡ fd
    → watches_on fd (ws ++ (w ∷ [])) ≡ watches_on fd ws + 1
watches_on-append fd w [] e = ground (arith, e)
watches_on-append fd w (v ∷ ws) e = omega (arith, watches_on-append fd w ws e)

watches_on-removed :
    (fd : ℕ) (ws : List Watch) → watches_on fd (keep_if (λ w. not (w.fd == fd)) ws) ≡ 0
watches_on-removed fd [] = refl
watches_on-removed fd (w ∷ ws) = elim (Bool-cases (w.fd == fd)) [
  | inl same ↦ rw same (watches_on-removed fd ws)
  | inr other ↦ rw (other, other) (omega (arith, watches_on-removed fd ws))
]

find_first :
    (addr : ℕ) (q : Peripheral) (ps : List Peripheral)
    → (q.id == addr) ≡ true
    → find_peripheral addr (q ∷ ps) ≡ some q
unfolding find_peripheral
find_first addr q ps e = rw e refl

find_later :
    (addr : ℕ) (q : Peripheral) (ps : List Peripheral)
    → (q.id == addr) ≡ false
    → find_peripheral addr (q ∷ ps) ≡ find_peripheral addr ps
unfolding find_peripheral
find_later addr q ps e = rw e refl

abbrev changed : (Peripheral → Peripheral) → Option Peripheral → Option Peripheral
changed g none = none
changed g (some p) = some (g p)

-- A change that keeps a peripheral's address.
find-update :
    (addr : ℕ) (g : Peripheral → Peripheral) (ps : List Peripheral)
    → ((q : Peripheral) → (g q).id ≡ q.id)
    → find_peripheral addr (update_peripheral addr g ps) ≡ changed g (find_peripheral addr ps)
unfolding update_peripheral
find-update addr g [] keeps = unfold find_peripheral in refl
find-update addr g (q ∷ ps) keeps = elim (Bool-cases (q.id == addr)) [
  | inl here ↦
      rw (here, update_peripheral)
        (find_first addr (g q) ps (ap (λ i. i == addr) (keeps q) ∙ here)
          ∙ ap (changed g) (sym (find_first addr q ps here)))
  | inr there ↦
      rw (there, update_peripheral)
        (find_later addr q (update_peripheral addr g ps) there
          ∙ find-update addr g ps keeps
          ∙ ap (changed g) (sym (find_later addr q ps there)))
]

-- What a broadcast leaves alone.
abbrev SameBut : State → State → Type 0
SameBut s s' =
    (s'.aio_watches ≡ s.aio_watches) × (s'.rest.world.peripherals ≡ s.rest.world.peripherals)

abbrev or_else : State → Option State → State
or_else s none = s
or_else s (some t) = t

after_broadcast :
    (s s' : State) (r : Option (List DiagClient × Flows))
    → (r >>= λ t. some (record (on_world (λ w. record w { clients = t.0 }) s) { flows = t.1 }))
      ≡ some s'
    → SameBut s s'
after_broadcast s s' none h = absurd (ground (arith, h))
after_broadcast s s' (some t) h = (
  ap (λ o. (or_else s o).aio_watches) (sym h),
  ap (λ o. (or_else s o).rest.world.peripherals) (sym h),
)

unchanged : (s s' : State) → some s ≡ some s' → SameBut s s'
unchanged s s' h = (
  ap (λ o. (or_else s o).aio_watches) (sym h),
  ap (λ o. (or_else s o).rest.world.peripherals) (sym h),
)

frame-SameBut :
    (mem : Bytes) (len : ℕ) (flow : Option ℕ) (s s' : State)
    → broadcast_frame mem len flow s ≡ some s'
    → SameBut s s'
unfolding broadcast_frame broadcast
frame-SameBut mem len flow s s' h = by_kind (check_frame mem len) h
  where
    by_kind :
        (k : NonHdlcPkt)
        → elim k [ packet msg ↦ broadcast msg flow s | outside ↦ none | _ ↦ some s ] ≡ some s'
        → SameBut s s'
    by_kind (packet msg) e =
        after_broadcast s s' (dm_broadcast s.rest.world.alloc s.rest.world.clients s.flows msg flow)
          e
    by_kind outside e = absurd (ground (arith, e))
    by_kind invalid e = unchanged s s' e
    by_kind truncated e = unchanged s s' e
    by_kind unterminated e = unchanged s s' e

carries : (fd addr : ℕ) (s s' : State) → SameBut s s' → HasWriter fd addr s → HasWriter fd addr s'
carries fd addr s s' same v =
    (v.0, ap (find_peripheral addr) same.1 ∙ v.1, ap (watches_on fd) same.0 ∙ v.2)

opened :
    (fd addr : ℕ) (p : Peripheral) (s : State)
    → the_peripheral addr s ≡ some p
    → watches_on fd s.aio_watches ≡ (if p.data_open then 1 else 0)
    → HasWriter fd addr (open_data addr p fd s)
unfolding open_data watch_add_writeq
opened fd addr p s found n = elim (Bool-cases p.data_open) [
  | inl already ↦ rw (already, open_data) (p, found, n)
  | inr not_yet ↦
      rw (not_yet, open_data)
        (
          record p { data_open = true },
          find-update addr (λ q. record q { data_open = true }) s.rest.world.peripherals (λ q. refl)
              ∙ ap (changed (λ q. record q { data_open = true })) found,
          (watches_on-append fd
                (record (blank_watch s.fresh fd) { queue = dataq_of addr; is_write = true })
                s.aio_watches refl
              ∙ ap (λ k. k + 1) (n ∙ ap (λ t. if t then 1 else 0) not_yet)),
        )
]

abbrev state_or : State → Option (Bool × State) → State
state_or s none = s
state_or s (some (b, t)) = t

abbrev calmed : Option State → Option (Bool × State)
calmed r = r >>= λ t. some (false, t)

uncalm : (s s' : State) (b : Bool) (r : Option State) → calmed r ≡ some (b, s') → r ≡ some s'
uncalm s s' b none h = absurd (ground (arith, h))
uncalm s s' b (some t) h = ap some (ap (state_or s) h)

-- Whatever comes on a data socket, it keeps one asynchronous watch if it is connected, and none if it
-- is not: a connection is never written by two watches.
pub qrtr_data_recv-HasWriter :
    (r : QrtrRead) (fd addr : ℕ) (s s' : State) (negative : Bool)
    → HasWriter fd addr s
    → qrtr_data_recv r fd addr s ≡ some (negative, s')
    → HasWriter fd addr s'
unfolding qrtr_data_recv watch_remove_writeq
qrtr_data_recv-HasWriter (refused e) fd addr s s' b v h =
    subst (HasWriter fd addr) (ap (state_or s) h) v
qrtr_data_recv-HasWriter (decoded qrtr_type_data node port pkt) fd addr s s' b v h =
    let run : calmed (broadcast_frame pkt (length pkt) v.0.flow (open_data addr v.0 fd s))
        ≡ some (b, s') =
      sym (
        ap
          (λ o. o >>= λ p. calmed (broadcast_frame pkt (length pkt) p.flow (open_data addr p fd s)))
          v.1)
      ∙ h in
    carries fd addr (open_data addr v.0 fd s) s'
      (frame-SameBut pkt (length pkt) v.0.flow (open_data addr v.0 fd s) s'
        (uncalm s s' b (broadcast_frame pkt (length pkt) v.0.flow (open_data addr v.0 fd s)) run))
      (opened fd addr v.0 s v.1 v.2)
qrtr_data_recv-HasWriter (decoded qrtr_type_bye node port pkt) fd addr s s' b v h =
    subst (HasWriter fd addr) (ap (state_or s) h) (
      record (v.0) { data_open = false },
      find-update addr (λ q. record q { data_open = false }) s.rest.world.peripherals (λ q. refl)
          ∙ ap (changed (λ q. record q { data_open = false })) v.1,
      watches_on-removed fd s.aio_watches,
    )
qrtr_data_recv-HasWriter (decoded qrtr_type_new_server node port pkt) fd addr s s' b v h =
    subst (HasWriter fd addr) (ap (state_or s) h) v
qrtr_data_recv-HasWriter (decoded qrtr_type_del_server node port pkt) fd addr s s' b v h =
    subst (HasWriter fd addr) (ap (state_or s) h) v
qrtr_data_recv-HasWriter (decoded qrtr_type_del_client node port pkt) fd addr s s' b v h =
    subst (HasWriter fd addr) (ap (state_or s) h) v
qrtr_data_recv-HasWriter (decoded qrtr_type_other node port pkt) fd addr s s' b v h =
    subst (HasWriter fd addr) (ap (state_or s) h) v
