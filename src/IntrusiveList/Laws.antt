-- ===== src/IntrusiveList/Laws.antt =====
-- The operations of router/list.h on the nodes of a ring.
use diag.Base.{
  ℕ, zero, suc, ◌<◌, ◌≡◌, refl, sym, ap, ◌∙◌, ◌≢◌, false, List, [], ◌∷◌, ◌++◌, arith, ◌==◌, ==_refl,
  length,
}
use diag.IntrusiveList.{Store, put, list_add, list_for_each}
use diag.IntrusiveList.Links.{Links, Apart, AreDistinct, IsRing, put-same, put-other, last-All}

-- The links of an addition, from any node of the ring on.
add-Links :
    (h : Store) (list item a : ℕ) (xs : List ℕ)
    → Links h a xs list
    → item ≢ list
    → item ≢ a
    → Apart item xs
    → Apart list xs
    → AreDistinct (a ∷ xs)
    → Links (list_add list item h) a (xs ++ (item ∷ [])) list
unfolding Links list_add AreDistinct
add-Links h list item a [] l il ia ix lx d = (
  ap (λ q. put q item (put item list h.next) a) l.1 ∙ put-same a item (put item list h.next),
  put-other list item item (put item (h.prev list) h.prev) il
      ∙ put-same item (h.prev list) h.prev
      ∙ l.1,
  (
    put-other (h.prev list) item item (put item list h.next) (λ e. ia (e ∙ l.1))
        ∙ put-same item list h.next,
    put-same list item (put item (h.prev list) h.prev),
  ),
)
add-Links h list item a (x ∷ xs) l il ia ix lx d = (
  put-other (h.prev list) item a (put item list h.next)
        (λ e. last-All (λ n. n ≢ a) h a x list xs l d.0 (sym e))
      ∙ put-other item list a h.next (λ e. ia (sym e))
      ∙ l.0,
  put-other list item x (put item (h.prev list) h.prev) lx.0
      ∙ put-other item (h.prev list) x h.prev ix.0
      ∙ l.1,
  add-Links h list item x xs l.2 il (λ e. ix.0 (sym e)) ix.1 lx.1 d.1,
)

Apart-append : (n item : ℕ) (xs : List ℕ) → Apart n xs → item ≢ n → Apart n (xs ++ (item ∷ []))
Apart-append n item [] h ne = (ne, tt)
Apart-append n item (x ∷ xs) h ne = (h.0, Apart-append n item xs h.1 ne)

AreDistinct-append :
    (item : ℕ) (xs : List ℕ) → AreDistinct xs → Apart item xs → AreDistinct (xs ++ (item ∷ []))
unfolding AreDistinct
AreDistinct-append item [] d h = (tt, tt)
AreDistinct-append item (x ∷ xs) d h =
    (Apart-append x item xs d.0 (λ e. h.0 (sym e)), AreDistinct-append item xs d.1 h.1)

-- A node that is not in a ring is added as its last.
pub list_add-IsRing :
    (h : Store) (list item : ℕ) (xs : List ℕ)
    → IsRing h list xs
    → item ≢ list
    → Apart item xs
    → IsRing (list_add list item h) list (xs ++ (item ∷ []))
unfolding AreDistinct
list_add-IsRing h list item xs r il ix = record {
  links = add-Links h list item list xs r.links il il ix r.distinct.0 r.distinct;
  distinct = AreDistinct-append item (list ∷ xs) r.distinct ((λ e. il (sym e)), ix);
}

-- The walk visits the nodes of a ring in their order.
pub list_for_each-nodes :
    (h : Store) (list a : ℕ) (xs : List ℕ) (fuel : ℕ)
    → Links h a xs list
    → Apart list xs
    → length xs < fuel
    → list_for_each fuel list (h.next a) h ≡ xs
unfolding list_for_each Links
list_for_each-nodes h list a xs zero l ap f = absurd (omega (arith, f))
list_for_each-nodes h list a [] (suc fuel) l apart f =
    ap (λ n. list_for_each (suc fuel) list n h) l.0 ∙ rw (==_refl list) refl
list_for_each-nodes h list a (x ∷ xs) (suc fuel) l apart f =
    ap (λ n. list_for_each (suc fuel) list n h) l.0
    ∙ rw (differs x list apart.0)
        (ap (λ t. x ∷ t) (list_for_each-nodes h list x xs fuel l.2 apart.1 (omega (arith, f))))
  where
    differs : (a b : ℕ) → a ≢ b → (a == b) ≡ false
    differs a b ne = ground (arith, ne)
