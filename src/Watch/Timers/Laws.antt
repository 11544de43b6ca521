-- ===== src/Watch/Timers/Laws.antt =====
-- What the timers of router/watch.c count, in microseconds.
use diag.Base.{
  ℕ, subst, ◌+◌, ◌-◌, ◌*◌, ◌≤◌, ◌<◌, ◌≡◌, refl, sym, ◌⊎◌, inl, inr, true, false, Option, none, some,
  List, [], ◌∷◌, arith, Bool-cases, All,
}
use diag.Watch.{Timeval, Timer}
use diag.Watch.Timers.{
  timeradd, earlier, time_left, watch_set_timer, select_timer, watch_get_next_timer, next_timeout,
}

abbrev pub in_usec : Timeval → ℕ
in_usec t = t.tv_sec * 1000000 + t.tv_usec

abbrev pub IsNormal : Timeval → Type 0
IsNormal t = t.tv_usec < 1000000

-- A timer that is set is due its interval of milliseconds after the present, as a normal time.
pub watch_set_timer_lem :
    (now : Timeval) (t : Timer)
    → IsNormal now
    → (in_usec (watch_set_timer now t).tick ≡ in_usec now + t.interval * 1000)
      × IsNormal (watch_set_timer now t).tick
unfolding watch_set_timer timeradd
watch_set_timer_lem now t n = (ground arith, ground arith)

earlier-lt : (a b : Timeval) → IsNormal a → IsNormal b → earlier a b ≡ true → in_usec a < in_usec b
unfolding earlier
earlier-lt a b na nb h = ground arith

earlier-ge : (a b : Timeval) → IsNormal a → IsNormal b → earlier a b ≡ false → in_usec b ≤ in_usec a
unfolding earlier
earlier-ge a b na nb h = ground arith

time_left_lem :
    (tick now : Timeval)
    → IsNormal tick
    → IsNormal now
    → (in_usec (time_left tick now) ≡ in_usec tick - in_usec now) × IsNormal (time_left tick now)
unfolding time_left
time_left_lem tick now nt nn = (ground arith, ground arith)

abbrev pub AllNormal : List Timer → Type 0
AllNormal = All (λ t. IsNormal t.tick)

abbrev pub Among : Timer → List Timer → Type 0
Among t [] = ⊥
Among t (u ∷ us) = (t ≡ u) ⊎ Among t us

-- The selected timer is among the timers, and none is due before it.
pub record IsLeast (t : Timer) (ts : List Timer) : Type 0 where
  pub among : Among t ts
  pub normal : IsNormal t.tick
  pub least : All (λ u. in_usec t.tick ≤ in_usec u.tick) ts

later-IsLeast :
    (due t u : Timer) (ts : List Timer)
    → in_usec t.tick ≤ in_usec u.tick
    → IsLeast due (t ∷ ts)
    → IsLeast due (t ∷ u ∷ ts)
later-IsLeast due t u ts h r = record {
  among = skipped r.among;
  normal = r.normal;
  least = (r.least.0, (omega (arith, r.least.0), r.least.1));
}
  where
    skipped : Among due (t ∷ ts) → Among due (t ∷ u ∷ ts)
    skipped (inl e) = inl e
    skipped (inr m) = inr (inr m)

sooner-IsLeast :
    (due t u : Timer) (ts : List Timer)
    → in_usec u.tick ≤ in_usec t.tick
    → IsLeast due (u ∷ ts)
    → IsLeast due (t ∷ u ∷ ts)
sooner-IsLeast due t u ts h r = record {
  among = inr r.among;
  normal = r.normal;
  least = (omega (arith, r.least.0), r.least);
}

select_timer-IsLeast :
    (t : Timer) (ts : List Timer)
    → IsNormal t.tick
    → AllNormal ts
    → IsLeast (select_timer t ts) (t ∷ ts)
unfolding select_timer
select_timer-IsLeast t [] n h = record { among = inl refl; normal = n; least = (omega arith, tt) }
select_timer-IsLeast t (u ∷ ts) n h = elim (Bool-cases (earlier u.tick t.tick)) [
  | inl before ↦
      rw (before, select_timer)
        (sooner-IsLeast (select_timer u ts) t u ts
          (omega (arith, earlier-lt u.tick t.tick h.0 n before))
          (select_timer-IsLeast u ts h.0 h.1))
  | inr after ↦
      rw (after, select_timer)
        (later-IsLeast (select_timer t ts) t u ts (earlier-ge u.tick t.tick h.0 n after)
          (select_timer-IsLeast t ts n h.1))
]

earlier_irrefl : (a : Timeval) → earlier a a ≡ false
unfolding earlier
earlier_irrefl a = ground arith

starts_anew : (t : Timer) (ts : List Timer) → select_timer t (t ∷ ts) ≡ select_timer t ts
unfolding select_timer
starts_anew t ts = rw (earlier_irrefl t.tick, select_timer) refl

-- Some timer's: the time left to it, or none.
next_timeout-due :
    (now : Timeval) (t : Timer) (ts : List Timer)
    → IsNormal now
    → AllNormal (t ∷ ts)
    → (due : Timer) × (tv : Timeval) × IsLeast due (t ∷ ts)
      × (next_timeout now (t ∷ ts) ≡ some tv)
      × (in_usec tv ≡ in_usec due.tick - in_usec now)
      × IsNormal tv
unfolding next_timeout watch_get_next_timer
next_timeout-due now t ts n h =
    let due : Timer = select_timer t ts in
    let r = select_timer-IsLeast t ts h.0 h.1 in
    let left = time_left_lem due.tick now r.normal n in
    (due, time_left due.tick now, r, rw (starts_anew t ts) refl, left.0, left.1)

-- What the timeout of select(2) is for some timers: none where there is no timer; else the time left,
-- or zero where it is over, to an earliest one of them.
pub data IsTimeout (now : Timeval) (ts : List Timer) : Option Timeval → Type 0 where
  never : ts ≡ [] → IsTimeout now ts none
  left_to :
      (due : Timer) (tv : Timeval)
      → IsLeast due ts
      → in_usec tv ≡ in_usec due.tick - in_usec now
      → IsNormal tv
      → IsTimeout now ts (some tv)

-- With no timer select(2) is given no timeout; else it is given the time left, or zero where that is
-- over, to the earliest timer, which is one of the timers. The times are those of gettimeofday, with
-- less than a million microseconds.
pub next_timeout-IsLeast :
    (now : Timeval) (ts : List Timer)
    → IsNormal now
    → AllNormal ts
    → IsTimeout now ts (next_timeout now ts)
unfolding next_timeout watch_get_next_timer
next_timeout-IsLeast now [] n h = never refl
next_timeout-IsLeast now (t ∷ ts) n h =
    let r = next_timeout-due now t ts n h in
    subst (IsTimeout now (t ∷ ts)) (sym r.3) (left_to r.0 r.1 r.2 r.4 r.5)
