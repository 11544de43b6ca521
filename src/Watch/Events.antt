-- ===== src/Watch/Events.antt =====
-- What the handling of an event in router/watch.c leaves of a write watch and of the counters.
use diag.Base.{
  ℕ, ◌≡◌, refl, sym, ap, ◌∙◌, inl, inr, true, false, Option, none, some, List, [], ◌∷◌, arith, ◌==◌,
  Bool-cases, Option-cases,
}
use diag.World.{Mbuf, Flows}
use diag.Queue.{◌>>=◌}
use diag.Watch.{Watch, Loop}
use diag.Watch.Aio.{
  watch_free_write_aio, complete_aio, IoEvent, find_watch, update_watch, AioResult, again, failed,
  bytes,
}

find-update :
    (node : ℕ) (ws : List Watch) (w : Watch)
    → find_watch node ws ≡ some w
    → find_watch node (update_watch node (λ u. record u { pending_aio = none }) ws)
      ≡ some (record w { pending_aio = none })
unfolding find_watch update_watch
find-update node [] w h = ground arith
find-update node (u ∷ ws) w h = ground (arith, find-update node ws w)

-- An event leaves the watch and the counters, or its buffer is freed.
pub data Handled (w w' : Watch) (flows flows' : Flows) : Type 0 where
  no_change : w' ≡ w → flows' ≡ flows → Handled w w' flows flows'
  freed :
      (m : Mbuf)
      → w.pending_aio ≡ some m
      → w' ≡ record w { pending_aio = none }
      → flows' ≡ watch_free_write_aio m flows
      → Handled w w' flows flows'

abbrev State : Type 0
State = Loop (Unit {0})

abbrev state_or : State → Option State → State
state_or s none = s
state_or s (some s') = s'

abbrev watch_or : Watch → Option Watch → Watch
watch_or w none = w
watch_or w (some w') = w'

-- The state behind a write's event that is not EAGAIN.
abbrev released : ℕ → Mbuf → State → State
released node m s = record s {
  flows = watch_free_write_aio m s.flows;
  aio_watches = update_watch node (λ u. record u { pending_aio = none }) s.aio_watches;
}

stays-Handled :
    (node : ℕ) (s s' : State) (w w' : Watch)
    → find_watch node s.aio_watches ≡ some w
    → some s ≡ some s'
    → find_watch node s'.aio_watches ≡ some w'
    → Handled w w' s.flows s'.flows
stays-Handled node s s' w w' found run after =
    let same : s ≡ s' = ap (state_or s) run in
    no_change
      (ap (watch_or w)
        (sym after ∙ ap (λ (t : State). find_watch node t.aio_watches) (sym same) ∙ found))
      (ap (λ (t : State). t.flows) (sym same))

released-Handled :
    (node : ℕ) (m : Mbuf) (s s' : State) (w w' : Watch)
    → w.pending_aio ≡ some m
    → find_watch node s.aio_watches ≡ some w
    → some (released node m s) ≡ some s'
    → find_watch node s'.aio_watches ≡ some w'
    → Handled w w' s.flows s'.flows
released-Handled node m s s' w w' was found run after =
    let same : released node m s ≡ s' = ap (state_or s) run in
    freed m was
      (ap (watch_or w) (
        sym after
        ∙ ap (λ (t : State). find_watch node t.aio_watches) (sym same)
        ∙ find-update node s.aio_watches w found))
      (ap (λ (t : State). t.flows) (sym same))

module _ (cb : ℕ → Mbuf → State → Option State) (node : ℕ) (ev : IoEvent) (s s' : State)
    (w w' : Watch) (none_set : w.aio_complete ≡ none)
    (found : find_watch node s.aio_watches ≡ some w) (run : complete_aio cb node ev s ≡ some s')
    (after : find_watch node s'.aio_watches ≡ some w') where
  other_fd : (ev.fildes == w.fd) ≡ false → complete_aio cb node ev s ≡ some s
  unfolding complete_aio
  other_fd other = rw (found, complete_aio, other) refl

  nothing_pending :
      (ev.fildes == w.fd) ≡ true → w.pending_aio ≡ none → complete_aio cb node ev s ≡ none
  unfolding complete_aio
  nothing_pending same_fd idle = rw (found, complete_aio, same_fd, idle) refl

  at_result :
      (r : AioResult) (m : Mbuf)
      → ev.res ≡ r
      → (ev.fildes == w.fd) ≡ true
      → w.pending_aio ≡ some m
      → Handled w w' s.flows s'.flows
  unfolding complete_aio
  at_result again m is same_fd was =
      let stays : complete_aio cb node ev s ≡ some s =
        rw (found, complete_aio, same_fd, was, is) refl in
      stays-Handled node s s' w w' found (sym stays ∙ run) after
  at_result failed m is same_fd was =
      let done : complete_aio cb node ev s ≡ some (released node m s) =
        rw (found, complete_aio, same_fd, was, is, none_set, ◌>>=◌, found) refl in
      released-Handled node m s s' w w' was found (sym done ∙ run) after
  at_result (bytes n) m is same_fd was =
      let done : complete_aio cb node ev s ≡ some (released node m s) =
        rw (found, complete_aio, same_fd, was, is, none_set, ◌>>=◌, found) refl in
      released-Handled node m s s' w w' was found (sym done ∙ run) after

  pub handle_lem : Handled w w' s.flows s'.flows
  handle_lem = elim (Bool-cases (ev.fildes == w.fd)) [
    | inr other ↦ stays-Handled node s s' w w' found (sym (other_fd other) ∙ run) after
    | inl same_fd ↦ elim (Option-cases w.pending_aio) [
      | inl idle ↦ absurd (ground (arith, sym (nothing_pending same_fd idle) ∙ run))
      | inr (m, was) ↦ at_result ev.res m refl same_fd was
    ]
  ]
