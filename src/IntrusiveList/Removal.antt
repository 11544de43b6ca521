-- ===== src/IntrusiveList/Removal.antt =====
-- list_del of router/list.h on the nodes of a ring.
use diag.Base.{ℕ, subst, ◌≡◌, sym, ap, ◌∙◌, ◌≢◌, List, [], ◌∷◌, ◌++◌, All}
use diag.IntrusiveList.{Store, put, list_del}
use diag.IntrusiveList.Links.{Links, Apart, AreDistinct, IsRing, put-same, put-other}

-- What holds of the nodes behind the first and before an item holds of the item's predecessor.
before-All :
    (P : ℕ → Type 0) (h : Store) (a x item b : ℕ) (xs ys : List ℕ)
    → Links h a (x ∷ xs ++ (item ∷ ys)) b
    → All P (x ∷ xs)
    → P (h.prev item)
unfolding Links
before-All P h a x item b [] ys l p = subst P (sym l.2.1) p.0
before-All P h a x item b (y ∷ xs) ys l p = before-All P h x y item b xs ys l.2 p.1

-- What holds of the last node and of those behind an item holds of the item's successor.
behind-All :
    (P : ℕ → Type 0) (h : Store) (a item b : ℕ) (xs ys : List ℕ)
    → Links h a (xs ++ (item ∷ ys)) b
    → All P ys
    → P b
    → P (h.next item)
unfolding Links
behind-All P h a item b [] [] l p q = subst P (sym l.2.0) q
behind-All P h a item b [] (y ∷ ys) l p q = subst P (sym l.2.0) p.0
behind-All P h a item b (x ∷ xs) ys l p q = behind-All P h x item b xs ys l.2 p q

-- Links that a change of two members leaves alone.
frame-Links :
    (h h' : Store) (a b : ℕ) (xs : List ℕ)
    → Links h a xs b
    → All (λ n. h'.next n ≡ h.next n) (a ∷ xs)
    → All (λ n. h'.prev n ≡ h.prev n) xs
    → h'.prev b ≡ h.prev b
    → Links h' a xs b
unfolding Links
frame-Links h h' a b [] l next prev last = (next.0 ∙ l.0, last ∙ l.1)
frame-Links h h' a b (x ∷ xs) l next prev last =
    (next.0 ∙ l.0, prev.0 ∙ l.1, frame-Links h h' x b xs l.2 next.1 prev.1 last)

-- The new members at a node that is not the predecessor, or not the successor.
next-stays : (h : Store) (item n : ℕ) → n ≢ h.prev item → (list_del item h).next n ≡ h.next n
unfolding list_del
next-stays h item n ne = put-other (h.prev item) (h.next item) n h.next ne

prev-stays :
    (h : Store) (item n : ℕ)
    → item ≢ h.prev item
    → n ≢ h.next item
    → (list_del item h).prev n ≡ h.prev n
unfolding list_del
prev-stays h item n apart ne =
    put-other (put (h.prev item) (h.next item) h.next item) (h.prev item) n h.prev
      (λ e. ne (e ∙ put-other (h.prev item) (h.next item) item h.next apart))

next-set : (h : Store) (item : ℕ) → (list_del item h).next (h.prev item) ≡ h.next item
unfolding list_del
next-set h item = put-same (h.prev item) (h.next item) h.next

prev-set :
    (h : Store) (item : ℕ) → item ≢ h.prev item → (list_del item h).prev (h.next item) ≡ h.prev item
unfolding list_del
prev-set h item apart =
    ap (put (put (h.prev item) (h.next item) h.next item) (h.prev item) h.prev)
      (sym (put-other (h.prev item) (h.next item) item h.next apart))
    ∙ put-same (put (h.prev item) (h.next item) h.next item) (h.prev item) h.prev

nexts-stay :
    (h : Store) (item : ℕ) (ns : List ℕ)
    → Apart (h.prev item) ns
    → All (λ n. (list_del item h).next n ≡ h.next n) ns
nexts-stay h item [] d = tt
nexts-stay h item (n ∷ ns) d = (next-stays h item n d.0, nexts-stay h item ns d.1)

prevs-stay :
    (h : Store) (item : ℕ) (ns : List ℕ)
    → item ≢ h.prev item
    → Apart (h.next item) ns
    → All (λ n. (list_del item h).prev n ≡ h.prev n) ns
prevs-stay h item [] apart d = tt
prevs-stay h item (n ∷ ns) apart d = (prev-stays h item n apart d.0, prevs-stay h item ns apart d.1)

Apart-prefix : (n : ℕ) (xs ys : List ℕ) → Apart n (xs ++ ys) → Apart n xs
Apart-prefix n [] ys h = tt
Apart-prefix n (x ∷ xs) ys h = (h.0, Apart-prefix n xs ys h.1)

Apart-suffix : (n item : ℕ) (xs ys : List ℕ) → Apart n (xs ++ (item ∷ ys)) → Apart n ys
Apart-suffix n item [] ys h = h.1
Apart-suffix n item (x ∷ xs) ys h = Apart-suffix n item xs ys h.1

Apart-without : (n item : ℕ) (xs ys : List ℕ) → Apart n (xs ++ (item ∷ ys)) → Apart n (xs ++ ys)
Apart-without n item [] ys h = h.1
Apart-without n item (x ∷ xs) ys h = (h.0, Apart-without n item xs ys h.1)

AreDistinct-without :
    (item : ℕ) (xs ys : List ℕ) → AreDistinct (xs ++ (item ∷ ys)) → AreDistinct (xs ++ ys)
unfolding AreDistinct
AreDistinct-without item [] ys d = d.1
AreDistinct-without item (x ∷ xs) ys d =
    (Apart-without x item xs ys d.0, AreDistinct-without item xs ys d.1)

-- The item is in a ring, so it is not its own predecessor.
item-apart :
    (h : Store) (list item : ℕ) (xs ys : List ℕ)
    → IsRing h list (xs ++ (item ∷ ys))
    → item ≢ h.prev item
unfolding AreDistinct Links
item-apart h list item [] ys r = λ e. r.distinct.0.0 (e ∙ r.links.1)
item-apart h list item (x ∷ xs) ys r = λ e.
    before-All (λ n. n ≢ item) h list x item list xs ys r.links (all_apart (x ∷ xs) r.distinct.1)
      (sym e)
  where
    of_item : (n : ℕ) (ns : List ℕ) → Apart n (ns ++ (item ∷ ys)) → n ≢ item
    of_item n [] h = λ e. h.0 (sym e)
    of_item n (m ∷ ns) h = of_item n ns h.1

    all_apart : (ns : List ℕ) → AreDistinct (ns ++ (item ∷ ys)) → Apart item ns
    all_apart [] d = tt
    all_apart (n ∷ ns) d = (of_item n ns d.0, all_apart ns d.1)

-- The links of a removal, from any node before the item on.
del-Links :
    (h : Store) (list item a : ℕ) (xs ys : List ℕ)
    → Links h a (xs ++ (item ∷ ys)) list
    → item ≢ h.prev item
    → Apart list (xs ++ (item ∷ ys))
    → AreDistinct (a ∷ (xs ++ (item ∷ ys)))
    → Links (list_del item h) a (xs ++ ys) list
unfolding Links AreDistinct
del-Links h list item a [] [] l apart lx d = (
  ap (list_del item h).next (sym l.1) ∙ next-set h item ∙ l.2.0,
  ap (list_del item h).prev (sym l.2.0) ∙ prev-set h item apart ∙ l.1,
)
del-Links h list item a [] (y ∷ ys) l apart lx d = (
  ap (list_del item h).next (sym l.1) ∙ next-set h item ∙ l.2.0,
  ap (list_del item h).prev (sym l.2.0) ∙ prev-set h item apart ∙ l.1,
  frame-Links h (list_del item h) y list ys l.2.2
      (nexts-stay h item (y ∷ ys) (subst (λ n. Apart n (y ∷ ys)) (sym l.1) d.0.1))
      (prevs-stay h item ys apart (subst (λ n. Apart n ys) (sym l.2.0) d.1.1.0))
      (prev-stays h item list apart (λ e. lx.1.0 (sym (e ∙ l.2.0)))),
)
del-Links h list item a (x ∷ xs) ys l apart lx d = (
  next-stays h item a (λ e.
        before-All (λ n. n ≢ a) h a x item list xs ys l (Apart-prefix a (x ∷ xs) (item ∷ ys) d.0)
          (sym e))
      ∙ l.0,
  prev-stays h item x apart (λ e.
        behind-All (λ n. n ≢ x) h x item list xs ys l.2 (Apart-suffix x item xs ys d.1.0)
          (λ f. lx.0 (sym f)) (sym e))
      ∙ l.1,
  del-Links h list item x xs ys l.2 apart lx.1 d.1,
)

-- A node of a ring is taken out of it, and the others keep their order.
pub list_del-IsRing :
    (h : Store) (list item : ℕ) (xs ys : List ℕ)
    → IsRing h list (xs ++ (item ∷ ys))
    → IsRing (list_del item h) list (xs ++ ys)
unfolding AreDistinct
list_del-IsRing h list item xs ys r = record {
  links =
      del-Links h list item list xs ys r.links (item-apart h list item xs ys r) r.distinct.0
        r.distinct;
  distinct = AreDistinct-without item (list ∷ xs) ys r.distinct;
}
