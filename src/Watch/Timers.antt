-- ===== src/Watch/Timers.antt =====
-- The timers of router/watch.c. `now` is what gettimeofday(2) answers.
pub mod Laws
use diag.Base.{
  ℕ, ◌+◌, ◌-◌, ◌*◌, ◌/◌, ◌%◌, Bool, not, Option, none, some, List, [], ◌∷◌, ◌++◌, ltb, leb, ◌==◌,
  if◌then◌else◌, keep_if,
}
use diag.Watch.{Timeval, Timer, Loop}

-- `timeradd`
unfoldable pub timeradd : Timeval → Timeval → Timeval
timeradd a b =
    let carry : Bool = leb 1000000 (a.tv_usec + b.tv_usec) in
    record {
      tv_sec = a.tv_sec + b.tv_sec + (if carry then 1 else 0);
      tv_usec = a.tv_usec + b.tv_usec - (if carry then 1000000 else 0);
    }

-- `timercmp(a, b, <)`
unfoldable pub earlier : Timeval → Timeval → Bool
earlier a b = if a.tv_sec == b.tv_sec then ltb a.tv_usec b.tv_usec else ltb a.tv_sec b.tv_sec

-- `timersub(tick, now, &tv)`, and zero in place of a negative result.
unfoldable pub time_left : Timeval → Timeval → Timeval
time_left tick now =
    let borrow : ℕ = if ltb tick.tv_usec now.tv_usec then 1 else 0 in
    if ltb tick.tv_sec (now.tv_sec + borrow) then record { tv_sec = 0; tv_usec = 0 } else record {
      tv_sec = tick.tv_sec - now.tv_sec - borrow;
      tv_usec = tick.tv_usec + borrow * 1000000 - now.tv_usec;
    }

unfoldable pub watch_set_timer : Timeval → Timer → Timer
unfolding timeradd
watch_set_timer now t = record t {
  tick = timeradd now (record { tv_sec = t.interval / 1000; tv_usec = t.interval % 1000 * 1000 });
}

-- The `list_for_each_entry` of `watch_get_next_timer`.
unfoldable pub select_timer : Timer → List Timer → Timer
select_timer selected [] = selected
select_timer selected (t ∷ ts) =
    select_timer (if earlier t.tick selected.tick then t else selected) ts

unfoldable pub watch_get_next_timer : List Timer → Option Timer
watch_get_next_timer [] = none
watch_get_next_timer (t ∷ ts) = some (select_timer t (t ∷ ts))

-- The timeout of select(2); `none` waits for ever.
unfoldable pub next_timeout : Timeval → List Timer → Option Timeval
next_timeout now timers = elim (watch_get_next_timer timers) [
  | none ↦ none
  | some t ↦ some (time_left t.tick now)
]

-- The timer at an address, changed in its place.
unfoldable pub update_timer : ℕ → (Timer → Timer) → List Timer → List Timer
update_timer node g [] = []
update_timer node g (t ∷ ts) = if t.node == node then g t ∷ ts else t ∷ update_timer node g ts

module _ {ℓ} {S : Type ℓ} where
  unfoldable pub watch_add_timer : ℕ → ℕ → Bool → Timeval → Loop S → Loop S
  unfolding watch_set_timer
  watch_add_timer cb interval repeat now s = record s {
    timers =
        s.timers
        ++ (watch_set_timer now (record {
          node = s.fresh;
          cb = cb;
          interval = interval;
          repeat = repeat;
          tick = record { tv_sec = 0; tv_usec = 0 };
        })
            ∷ []);
    fresh = s.fresh + 1;
  }

  unfoldable pub watch_free_timer : ℕ → Loop S → Loop S
  watch_free_timer node s = record s { timers = keep_if (λ t. not (t.node == node)) s.timers }
