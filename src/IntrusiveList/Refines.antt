-- ===== src/IntrusiveList/Refines.antt =====
-- The rings of router/list.h as lists.
use diag.Base.{ℕ, ◌+◌, ◌<◌, ◌≡◌, ◌≢◌, List, [], ◌∷◌, ◌++◌, arith, length, length-append}
use diag.IntrusiveList.{Store, list_init, list_add, list_del, list_for_each}
use diag.IntrusiveList.Links.{Links, Apart, AreDistinct, IsRing, put-same}
use diag.IntrusiveList.Laws.{list_add-IsRing, list_for_each-nodes}
use diag.IntrusiveList.Removal.{list_del-IsRing}

-- The nodes that a walk from the head visits, with fuel for at most so many.
abbrev pub nodes : ℕ → ℕ → Store → List ℕ
nodes fuel list h = list_for_each fuel list (h.next list) h

nodes-IsRing :
    (h : Store) (list : ℕ) (xs : List ℕ) (fuel : ℕ)
    → IsRing h list xs
    → length xs < fuel
    → nodes fuel list h ≡ xs
unfolding AreDistinct
nodes-IsRing h list xs fuel r f = list_for_each-nodes h list list xs fuel r.links r.distinct.0 f

-- In a ring of different nodes, list_del takes the node out of what a walk visits and list_add puts a
-- node that is not in it at the end, and the others keep their order; both leave a ring of different
-- nodes.
pub list_operations-nodes :
    (h : Store) (list item new : ℕ) (xs ys : List ℕ) (fuel : ℕ)
    → IsRing h list (xs ++ (item ∷ ys))
    → new ≢ list
    → Apart new (xs ++ (item ∷ ys))
    → length (xs ++ (item ∷ ys)) + 1 < fuel
    → (nodes fuel list h ≡ xs ++ (item ∷ ys))
      × (nodes fuel list (list_del item h) ≡ xs ++ ys)
      × (nodes fuel list (list_add list new h) ≡ (xs ++ (item ∷ ys)) ++ (new ∷ []))
      × IsRing (list_del item h) list (xs ++ ys)
      × IsRing (list_add list new h) list ((xs ++ (item ∷ ys)) ++ (new ∷ []))
list_operations-nodes h list item new xs ys fuel r nl apart f =
    let taken = list_del-IsRing h list item xs ys r in
    let added = list_add-IsRing h list new (xs ++ (item ∷ ys)) r nl apart in
    (
      nodes-IsRing h list (xs ++ (item ∷ ys)) fuel r (omega (arith, f)),
      nodes-IsRing (list_del item h) list (xs ++ ys) fuel taken
          (omega (arith, f, length-append xs (item ∷ ys), length-append xs ys)),
      nodes-IsRing (list_add list new h) list ((xs ++ (item ∷ ys)) ++ (new ∷ [])) fuel added
          (omega (arith, f, length-append (xs ++ (item ∷ ys)) (new ∷ []))),
      taken,
      added,
    )

-- list_init makes a ring of no nodes.
pub list_init-IsRing : (h : Store) (list : ℕ) → IsRing (list_init list h) list []
unfolding list_init Links AreDistinct
list_init-IsRing h list = record {
  links = (put-same list list h.next, put-same list list h.prev);
  distinct = (tt, tt);
}
