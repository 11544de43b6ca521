-- ===== src/Watch/Walk.antt =====
-- `list_for_each_entry_safe` over the watches of router/watch.c, with bodies that free the next watch.
use diag.Base.{
  ℕ, subst, zero, suc, ◌+◌, ◌≡◌, refl, sym, ap, ◌∙◌, ◌≢◌, Bool, true, false, Option, none, some,
  List, [], ◌∷◌, ◌++◌, append_assoc, arith, ==_refl, length, set, All,
}
use diag.World.{Mbuf}
use diag.Watch.{Watch, Loop}
use diag.Watch.Aio.{find_watch, next_node, first_node, each_safe}
use diag.Watch.Run.{elem, call_ready, call_all}

-- The addresses in a list are different.
abbrev pub Distinct : List Watch → Type 0
Distinct [] = Unit {0}
Distinct (w ∷ ws) = All (λ v. w.node ≢ v.node) ws × Distinct ws

abbrev pub Apart : List Watch → Watch → Type 0
Apart p w = All (λ u. u.node ≢ w.node) p

find_watch-append :
    (p q : List Watch) (w : Watch) → Apart p w → find_watch w.node (p ++ (w ∷ q)) ≡ some w
unfolding find_watch
find_watch-append [] q w h = rw (==_refl w.node) refl
find_watch-append (u ∷ p) q w h = ground (arith, h.0, find_watch-append p q w h.1)

next_node-append :
    (p q : List Watch) (w : Watch) → Apart p w → next_node w.node (p ++ (w ∷ q)) ≡ first_node q
unfolding next_node first_node
next_node-append [] [] w h = rw (==_refl w.node) refl
next_node-append [] (v ∷ q) w h = rw (==_refl w.node) refl
next_node-append (u ∷ p) q w h = ground (arith, h.0, next_node-append p q w h.1)

none_before : (ws : List Watch) → All (Apart []) ws
none_before [] = tt
none_before (w ∷ ws) = (tt, none_before ws)

right_of : (P : Watch → Type 0) (p q : List Watch) → All P (p ++ q) → All P q
right_of P [] q h = h
right_of P (u ∷ p) q h = right_of P p q h.1

Apart-cons :
    (u : Watch) (p q : List Watch)
    → All (λ v. u.node ≢ v.node) q
    → All (Apart p) q
    → All (Apart (u ∷ p)) q
Apart-cons u p [] h k = tt
Apart-cons u p (v ∷ q) h k = ((h.0, k.0), Apart-cons u p q h.1 k.1)

pub Apart-of : (p q : List Watch) → Distinct (p ++ q) → All (Apart p) q
Apart-of [] q d = none_before q
Apart-of (u ∷ p) q d = Apart-cons u p q (right_of (λ v. u.node ≢ v.node) p q d.0) (Apart-of p q d.1)

pub Distinct-right : (p q : List Watch) → Distinct (p ++ q) → Distinct q
Distinct-right [] q d = d
Distinct-right (u ∷ p) q d = Distinct-right p q d.1

module _ {ℓ} {S : Type ℓ} (list : Loop S → List Watch) (body : ℕ → Loop S → Option (Loop S)) where
  -- Watches at which the body changes nothing are passed over.
  skips :
      (total fuel : ℕ) (p r q : List Watch) (w : Watch) (s : Loop S)
      → list s ≡ p ++ (r ++ (w ∷ q))
      → Distinct (p ++ (r ++ (w ∷ q)))
      → All (λ u. find_watch u.node (list s) ≡ some u → body u.node s ≡ some s) r
      → total ≡ length r + fuel
      → each_safe total list body (first_node (r ++ (w ∷ q))) s
        ≡ each_safe fuel list body (some w.node) s
  unfolding each_safe first_node
  skips total fuel p [] q w s e d same l =
      ap (λ n. each_safe n list body (some w.node) s) (omega (arith, l))
  skips zero fuel p (u ∷ r) q w s e d same l = absurd (omega (arith, l))
  skips (suc total) fuel p (u ∷ r) q w s e d same l =
      let apart : Apart p u = (Apart-of p (u ∷ (r ++ (w ∷ q))) d).0 in
      let found : find_watch u.node (list s) ≡ some u =
        ap (find_watch u.node) e ∙ find_watch-append p (r ++ (w ∷ q)) u apart in
      let behind : next_node u.node (list s) ≡ first_node (r ++ (w ∷ q)) =
        ap (next_node u.node) e ∙ next_node-append p (r ++ (w ∷ q)) u apart in
      let regroup = sym (append_assoc p (u ∷ []) (r ++ (w ∷ q))) in
      rw (found, each_safe, same.0 found, behind)
        (skips total fuel (p ++ (u ∷ [])) r q w s (e ∙ regroup) (subst Distinct regroup d) same.1
          (omega (arith, l)))

each_safe_missing {ℓ} :
    {S : Type ℓ} (list : Loop S → List Watch) (body : ℕ → Loop S → Option (Loop S)) (fuel node : ℕ)
    (s : Loop S)
    → find_watch node (list s) ≡ none
    → each_safe (suc fuel) list body (some node) s ≡ none
unfolding each_safe
each_safe_missing list body fuel node s d = rw (d, each_safe) refl

each_safe_freed {ℓ} :
    {S : Type ℓ} (list : Loop S → List Watch) (body : ℕ → Loop S → Option (Loop S))
    (fuel node next : ℕ) (w : Watch) (s s' : Loop S)
    → find_watch node (list s) ≡ some w
    → next_node node (list s) ≡ some next
    → body node s ≡ some s'
    → find_watch next (list s') ≡ none
    → each_safe (suc (suc fuel)) list body (some node) s ≡ none
unfolding each_safe
each_safe_freed list body fuel node next w s s' a b c d =
    rw (a, each_safe, c, b) (each_safe_missing list body fuel next s' d)

module _ {ℓ} {S : Type ℓ} (call : ℕ → Option ℕ → Loop S → Option (Bool × Loop S))
    (fire : ℕ → Loop S → Option (Loop S)) (complete : ℕ → Mbuf → Loop S → Option (Loop S)) where
  call_ready_fine :
      (rounds : ℕ) (rfds : List ℕ) (node : ℕ) (w : Watch) (s s' : Loop S)
      → find_watch node s.read_watches ≡ some w
      → elem w.fd rfds ≡ true
      → call w.cb (some w.fd) s ≡ some (false, s')
      → call_ready rounds call fire complete rfds node s ≡ some s'
  unfolding call_ready
  call_ready_fine rounds rfds node w s s' a b c = rw (a, call_ready, b, c) refl

  idle_watches :
      (rounds : ℕ) (rfds : List ℕ) (s : Loop S) (ws : List Watch)
      → All (λ u. elem u.fd rfds ≡ false) ws
      → All
          (λ u.
            find_watch u.node s.read_watches ≡ some u
            → call_ready rounds call fire complete rfds u.node s ≡ some s)
          ws
  unfolding call_ready
  idle_watches rounds rfds s [] h = tt
  idle_watches rounds rfds s (u ∷ ws) h =
      ((λ found. rw (found, call_ready, h.0) refl), idle_watches rounds rfds s ws h.1)

  -- If after a callback the watch behind its own is gone, the walk faults; no watch before its own is
  -- ready.
  pub call_all_missing :
      (total rounds : ℕ) (rfds : List ℕ) (p : List Watch) (w v : Watch) (ws : List Watch)
      (s s' : Loop S)
      → s.read_watches ≡ p ++ (w ∷ (v ∷ ws))
      → Distinct (p ++ (w ∷ (v ∷ ws)))
      → All (λ u. elem u.fd rfds ≡ false) p
      → total ≡ length p + suc (suc rounds)
      → elem w.fd rfds ≡ true
      → call w.cb (some w.fd) s ≡ some (false, s')
      → find_watch v.node s'.read_watches ≡ none
      → call_all total call fire complete rfds s ≡ none
  unfolding call_all first_node
  call_all_missing total rounds rfds p w v ws s s' e d idle enough set c gone =
      let list : Loop S → List Watch = λ t. t.read_watches in
      let body : ℕ → Loop S → Option (Loop S) = call_ready total call fire complete rfds in
      let apart : Apart p w = (Apart-of p (w ∷ (v ∷ ws)) d).0 in
      let found : find_watch w.node s.read_watches ≡ some w =
        ap (find_watch w.node) e ∙ find_watch-append p (v ∷ ws) w apart in
      ap (λ l. each_safe total list body (first_node l) s) e
      ∙ skips list body total (suc (suc rounds)) [] p (v ∷ ws) w s e d
          (idle_watches total rfds s p idle) enough
      ∙ each_safe_freed list body rounds w.node v.node w s s' found
          (ap (next_node w.node) e ∙ next_node-append p (v ∷ ws) w apart)
          (call_ready_fine total rfds w.node w s s' found set c) gone
