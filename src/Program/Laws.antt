-- ===== src/Program/Laws.antt =====
-- The router's callbacks under the event loop of router/watch.c.
use diag.Base.{
  ℕ, subst, suc, ◌+◌, ◌/◌, ◌%◌, ◌≡◌, refl, sym, ap, ◌∙◌, ◌≢◌, inl, inr, true, false, not, none,
  some, List, [], ◌∷◌, ◌++◌, append_assoc, arith, ◌==◌, ==_refl, Bool-cases, length, set, keep_if,
  All,
}
use diag.CircBuf.{failed}
use diag.World.{Peripheral}
use diag.Dm.Read.{eagain}
use diag.Queue.{◌>>=◌}
use diag.Watch.{Watch}
use diag.Watch.Aio.{find_watch}
use diag.Watch.Run.{elem, call_all}
use diag.Watch.Walk.{Apart, Distinct, Distinct-right, Apart-of, call_all_missing}
use diag.Daemon.{State, the_peripheral}
use diag.Perif.{rpmsg_perif_cntl_recv_of}
use diag.Perif.Rpmsg.{peripheral_close, perif_rpmsg_close, rpmsg_perif_cntl_recv}
use diag.Perif.Rpmsg.Close.{perif_rpmsg_close-All}
use diag.Program.{Outside, call, fire, complete}

no_watch : (n : ℕ) (ws : List Watch) → All (λ u. u.node ≢ n) ws → find_watch n ws ≡ none
unfolding find_watch
no_watch n [] h = refl
no_watch n (w ∷ ws) h = ground (arith, h.0, no_watch n ws h.1)

others_stay :
    (n d : ℕ) (ws : List Watch)
    → All (λ u. u.node ≢ n) ws
    → All (λ u. u.node ≢ n) (keep_if (λ u. not (u.fd == d)) ws)
others_stay n d [] h = tt
others_stay n d (w ∷ ws) h = elim (Bool-cases (w.fd == d)) [
  | inl same ↦ rw same (others_stay n d ws h.1)
  | inr other ↦ rw other (h.0, others_stay n d ws h.1)
]

-- What stands behind a watch with the same descriptor removed.
behind_goes :
    (v : Watch) (p ws : List Watch)
    → Apart p v
    → All (λ u. v.node ≢ u.node) ws
    → All (λ u. u.node ≢ v.node) (keep_if (λ u. not (u.fd == v.fd)) (p ++ (v ∷ ws)))
behind_goes v [] ws h k = rw (==_refl v.fd) (others_stay v.node v.fd ws (turned ws k))
  where
    turned : (us : List Watch) → All (λ u. v.node ≢ u.node) us → All (λ u. u.node ≢ v.node) us
    turned [] t = tt
    turned (u ∷ us) t = ((λ e. t.0 (sym e)), turned us t.1)
behind_goes v (u ∷ p) ws h k = elim (Bool-cases (u.fd == v.fd)) [
  | inl same ↦ rw same (behind_goes v p ws h.1 k)
  | inr other ↦ rw other (h.0, behind_goes v p ws h.1 k)
]

call_of_kind :
    (o : Outside) (cb addr fd : ℕ) (s : State)
    → cb % 16 ≡ 4
    → cb / 16 ≡ addr
    → call o cb (some fd) s
      ≡ (rpmsg_perif_cntl_recv (o.reads fd 0 0 4096) addr s >>= λ t. some (false, t))
unfolding call
call_of_kind o cb addr fd s kind object = rw (kind, call, object) refl

cntl_call :
    (o : Outside) (addr fd : ℕ) (s : State)
    → call o (rpmsg_perif_cntl_recv_of addr) (some fd) s
      ≡ (rpmsg_perif_cntl_recv (o.reads fd 0 0 4096) addr s >>= λ t. some (false, t))
cntl_call o addr fd s =
    call_of_kind o (rpmsg_perif_cntl_recv_of addr) addr fd s (omega arith) (omega arith)

cntl_closes :
    (e addr : ℕ) (p : Peripheral) (s : State)
    → (e == eagain) ≡ false
    → the_peripheral addr s ≡ some p
    → p.sockets ≡ false
    → rpmsg_perif_cntl_recv (failed e) addr s ≡ perif_rpmsg_close addr s
unfolding rpmsg_perif_cntl_recv peripheral_close
cntl_closes e addr p s not_again found rpmsg = rw (not_again, found, rpmsg) refl

-- Where the control channel of a peripheral fails, no watch before its own is ready, and the watch
-- behind it is that of the peripheral's data channel, as the peripheral's opening adds the two, the
-- walk over the read watches faults: the close has freed the watch that it goes on to. The addresses
-- of the watches are different, and the walk's fuel is at least two above the watches before.
pub call_all_cntl_fails :
    (o : Outside) (total rounds e addr : ℕ) (rfds : List ℕ) (p : Peripheral) (before : List Watch)
    (w v : Watch) (ws : List Watch) (s : State)
    → the_peripheral addr s ≡ some p
    → p.sockets ≡ false
    → p.data_fd ≡ some v.fd
    → s.read_watches ≡ before ++ (w ∷ (v ∷ ws))
    → Distinct (before ++ (w ∷ (v ∷ ws)))
    → All (λ u. elem u.fd rfds ≡ false) before
    → total ≡ length before + suc (suc rounds)
    → w.cb ≡ rpmsg_perif_cntl_recv_of addr
    → elem w.fd rfds ≡ true
    → o.reads w.fd 0 0 4096 ≡ failed e
    → (e == eagain) ≡ false
    → call_all total (call o) (fire o) (complete o) rfds s ≡ none
call_all_cntl_fails o total rounds e addr rfds p before w v ws s found rpmsg data_is order d idle
      enough cb set fails not_again =
    let regroup = append_assoc before (w ∷ []) (v ∷ ws) in
    let distinct = subst Distinct (sym regroup) d in
    let closed =
      perif_rpmsg_close-All (λ u. u.node ≢ v.node) addr v.fd p s found data_is
        (subst (λ l. All (λ u. u.node ≢ v.node) (keep_if (λ u. not (u.fd == v.fd)) l))
          (sym (order ∙ sym regroup))
          (behind_goes v (before ++ (w ∷ [])) ws (Apart-of (before ++ (w ∷ [])) (v ∷ ws) distinct).0
            (Distinct-right (before ++ (w ∷ [])) (v ∷ ws) distinct).0)) in
    call_all_missing (call o) (fire o) (complete o) total rounds rfds before w v ws s closed.0 order
      d idle enough set
      (ap (λ c. call o c (some w.fd) s) cb
        ∙ cntl_call o addr w.fd s
        ∙ ap (λ r. rpmsg_perif_cntl_recv r addr s >>= λ t. some (false, t)) fails
        ∙ ap (λ r. r >>= λ t. some (false, t))
            (cntl_closes e addr p s not_again found rpmsg ∙ closed.1))
      (no_watch v.node closed.0.read_watches closed.2)
