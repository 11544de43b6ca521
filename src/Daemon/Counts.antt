-- ===== src/Daemon/Counts.antt =====
-- Broadcasts of router/dm.c, one after the other, and the flow counter that they raise.
use diag.Base.{
  ℕ, subst, ◌+◌, ◌≤◌, ◌<◌, ◌≡◌, refl, sym, ap, ◌∙◌, ◌⊎◌, inl, inr, Bool, true, false, Option, none,
  some, List, [], ◌∷◌, map, arith, ◌==◌, if◌then◌else◌, ==_refl, Bool-cases, length,
}
use diag.Bytes.{Bytes}
use diag.World.{DiagClient, Flows}
use diag.Queue.{◌>>=◌, watch_flow_inc}
use diag.Dm.Send.{
  Generous, AllKnown, IsKnown, deliver, count_flow, dm_broadcast-deliver, full_mbuf, frame_for,
}
use diag.Queue.Flow.{owed, owed-append}
use diag.Daemon.{State, on_world, broadcast}
use diag.Daemon.Client.{find_client}

unfoldable pub broadcast_all : List Bytes → Option ℕ → State → Option State
broadcast_all [] flow s = some s
broadcast_all (m ∷ ms) flow s = broadcast m flow s >>= broadcast_all ms flow

abbrev pub HasEnabled : List DiagClient → Type 0
HasEnabled [] = ⊥
HasEnabled (dm ∷ clients) = (dm.enabled ≡ true) ⊎ HasEnabled clients

abbrev counted : ℕ → DiagClient → Flows → Flows
counted f dm flows = if dm.enabled then watch_flow_inc flows (some f) else flows

counted_more : (f : ℕ) (dm : DiagClient) (flows : Flows) → flows f ≤ counted f dm flows f
unfolding watch_flow_inc
counted_more f dm flows = elim (Bool-cases dm.enabled) [
  | inl on ↦ rw (on, ==_refl f) (omega arith)
  | inr off ↦ rw off (omega arith)
]

counted_enabled :
    (f : ℕ) (dm : DiagClient) (flows : Flows)
    → dm.enabled ≡ true
    → counted f dm flows f ≡ flows f + 1
unfolding watch_flow_inc
counted_enabled f dm flows on = rw (on, ==_refl f) refl

count_flow-ge :
    (f : ℕ) (clients : List DiagClient) (flows : Flows)
    → flows f ≤ count_flow (some f) clients flows f
count_flow-ge f [] flows = omega arith
count_flow-ge f (dm ∷ clients) flows =
    omega (arith, counted_more f dm flows, count_flow-ge f clients (counted f dm flows))

count_flow-lt :
    (f : ℕ) (clients : List DiagClient) (flows : Flows)
    → HasEnabled clients
    → flows f < count_flow (some f) clients flows f
count_flow-lt f [] flows h = absurd h
count_flow-lt f (dm ∷ clients) flows (inl on) =
    omega (arith, counted_enabled f dm flows on, count_flow-ge f clients (counted f dm flows))
count_flow-lt f (dm ∷ clients) flows (inr h) =
    omega (arith, counted_more f dm flows, count_flow-lt f clients (counted f dm flows) h)

-- A change of the monitors that keeps whether they are enabled, and their encodings.
abbrev pub KeepsKind : (DiagClient → DiagClient) → Type 0
KeepsKind g =
    (dm : DiagClient) → ((g dm).enabled ≡ dm.enabled) × ((g dm).encode_type ≡ dm.encode_type)

deliver-KeepsKind : (msg : Bytes) (flow : Option ℕ) → KeepsKind (deliver msg flow)
deliver-KeepsKind msg flow dm = elim (Bool-cases dm.enabled) [
  | inl on ↦ rw on (refl, refl)
  | inr off ↦ rw off (refl, refl)
]

AllKnown-map :
    (g : DiagClient → DiagClient) (clients : List DiagClient)
    → KeepsKind g
    → AllKnown clients
    → AllKnown (map g clients)
AllKnown-map g [] keeps k = k
AllKnown-map g (dm ∷ clients) keeps k =
    (subst IsKnown (sym (keeps dm).1) k.0, AllKnown-map g clients keeps k.1)

found-HasEnabled :
    (addr : ℕ) (clients : List DiagClient) (dm : DiagClient)
    → find_client addr clients ≡ some dm
    → dm.enabled ≡ true
    → HasEnabled clients
unfolding find_client
found-HasEnabled addr [] dm h on = absurd (ground (arith, h))
found-HasEnabled addr (d ∷ clients) dm h on = elim (Bool-cases (d.id == addr)) [
  | inl here ↦ inl (ap (λ o. enabled_in o) (rw here at h) ∙ on)
  | inr there ↦ inr (found-HasEnabled addr clients dm (rw there at h) on)
]
  where
    enabled_in : Option DiagClient → Bool
    enabled_in none = false
    enabled_in (some d) = d.enabled

deliver-owed :
    (msg : Bytes) (f : ℕ) (dm : DiagClient)
    → dm.enabled ≡ true
    → (owed f (deliver msg (some f) dm).outq ≡ owed f dm.outq + 1)
      × ((deliver msg (some f) dm).enabled ≡ true)
deliver-owed msg f dm on = rw on (
  owed-append f dm.outq (full_mbuf (frame_for dm.encode_type msg) (some f) ∷ [])
      ∙ ap (λ n. owed f dm.outq + n) (rw (==_refl f) refl),
  refl,
)

find_client-map :
    (msg : Bytes) (flow : Option ℕ) (addr : ℕ) (clients : List DiagClient) (dm : DiagClient)
    → find_client addr clients ≡ some dm
    → find_client addr (map (deliver msg flow) clients) ≡ some (deliver msg flow dm)
unfolding find_client
find_client-map msg flow addr [] dm h = absurd (ground (arith, h))
find_client-map msg flow addr (d ∷ clients) dm h = elim (Bool-cases (d.id == addr)) [
  | inl here ↦ rw (same_id, here) (ap (λ o. delivered o) (rw here at h))
  | inr there ↦ rw (same_id, there) (find_client-map msg flow addr clients dm (rw there at h))
]
  where
    same_id : (deliver msg flow d).id ≡ d.id
    same_id = elim (Bool-cases d.enabled) [ inl on ↦ rw on refl | inr off ↦ rw off refl ]

    delivered : Option DiagClient → Option DiagClient
    delivered none = none
    delivered (some d) = some (deliver msg flow d)

-- What broadcasts leave of an enabled monitor, of the watches and of the flow's counter: the
-- monitor's queue has one more buffer of the flow for each message.
pub record Piled (addr f n : ℕ) (dm : DiagClient) (s t : State) : Type 0 where
  pub dm' : DiagClient
  pub found : find_client addr t.rest.world.clients ≡ some dm'
  pub on : dm'.enabled ≡ true
  pub piled : owed f dm'.outq ≡ owed f dm.outq + n
  pub watches : t.aio_watches ≡ s.aio_watches
  pub counted : s.flows f + n ≤ t.flows f

broadcast-Piled :
    (msg : Bytes) (addr f : ℕ) (dm : DiagClient) (s : State)
    → Generous s.rest.world.alloc
    → AllKnown s.rest.world.clients
    → find_client addr s.rest.world.clients ≡ some dm
    → dm.enabled ≡ true
    → (s' : State) × (broadcast msg (some f) s ≡ some s')
      × Generous s'.rest.world.alloc
      × AllKnown s'.rest.world.clients
      × Piled addr f 1 dm s s'
unfolding broadcast
broadcast-Piled msg addr f dm s g k found on =
    let w = s.rest.world in
    (
      record (on_world (λ v. record v { clients = map (deliver msg (some f)) w.clients }) s) {
        flows = count_flow (some f) w.clients s.flows;
      },
      rw (dm_broadcast-deliver w.alloc w.clients s.flows msg (some f) g k) refl,
      g,
      AllKnown-map (deliver msg (some f)) w.clients (deliver-KeepsKind msg (some f)) k,
      record {
        dm' = deliver msg (some f) dm;
        found = find_client-map msg (some f) addr w.clients dm found;
        on = (deliver-owed msg f dm on).1;
        piled = (deliver-owed msg f dm on).0;
        watches = refl;
        counted = omega (
          arith,
          count_flow-lt f w.clients s.flows (found-HasEnabled addr w.clients dm found on),
        );
      },
    )

pub broadcast_all-Piled :
    (ms : List Bytes) (addr f : ℕ) (dm : DiagClient) (s : State)
    → Generous s.rest.world.alloc
    → AllKnown s.rest.world.clients
    → find_client addr s.rest.world.clients ≡ some dm
    → dm.enabled ≡ true
    → (s' : State) × (broadcast_all ms (some f) s ≡ some s') × Piled addr f (length ms) dm s s'
unfolding broadcast_all
broadcast_all-Piled [] addr f dm s g k found on = (
  s,
  refl,
  record {
    dm' = dm;
    found = found;
    on = on;
    piled = omega arith;
    watches = refl;
    counted = omega arith;
  },
)
broadcast_all-Piled (m ∷ ms) addr f dm s g k found on =
    let first = broadcast-Piled m addr f dm s g k found on in
    let r = first.4 in
    let later = broadcast_all-Piled ms addr f r.dm' first.0 first.2 first.3 r.found r.on in
    let t = later.2 in
    (
      later.0,
      rw first.1 later.1,
      record {
        dm' = t.dm';
        found = t.found;
        on = t.on;
        piled = omega (arith, t.piled, r.piled);
        watches = t.watches ∙ r.watches;
        counted = omega (arith, t.counted, r.counted);
      },
    )
