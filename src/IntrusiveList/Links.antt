-- ===== src/IntrusiveList/Links.antt =====
-- The nodes of a ring in their order.
use diag.Base.{ℕ, subst, ◌≡◌, refl, sym, ◌≢◌, false, List, [], ◌∷◌, arith, ◌==◌, ==_refl, All}
use diag.IntrusiveList.{Store, put}

-- The links from a node over others to a last one, both ways.
unfoldable pub Links : Store → ℕ → List ℕ → ℕ → Type 0
Links h a [] b = (h.next a ≡ b) × (h.prev b ≡ a)
Links h a (x ∷ xs) b = (h.next a ≡ x) × (h.prev x ≡ a) × Links h x xs b

abbrev pub Apart : ℕ → List ℕ → Type 0
Apart n = All (λ x. x ≢ n)

unfoldable pub AreDistinct : List ℕ → Type 0
AreDistinct [] = Unit
AreDistinct (x ∷ xs) = Apart x xs × AreDistinct xs

-- The ring of a list's head and its nodes, all of them different.
pub record IsRing (h : Store) (list : ℕ) (xs : List ℕ) : Type 0 where
  pub links : Links h list xs list
  pub distinct : AreDistinct (list ∷ xs)

pub put-same : (node value : ℕ) (old : ℕ → ℕ) → put node value old node ≡ value
unfolding put
put-same node value old = rw (==_refl node) refl

pub put-other : (node value n : ℕ) (old : ℕ → ℕ) → n ≢ node → put node value old n ≡ old n
unfolding put
put-other node value n old ne = rw (apart n node ne) refl
  where
    apart : (a b : ℕ) → a ≢ b → (a == b) ≡ false
    apart a b ne = ground (arith, ne)

-- What holds of the nodes behind the first holds of the one before the last.
pub last-All :
    (P : ℕ → Type 0) (h : Store) (a x b : ℕ) (xs : List ℕ)
    → Links h a (x ∷ xs) b
    → All P (x ∷ xs)
    → P (h.prev b)
unfolding Links
last-All P h a x b [] l p = subst P (sym l.2.1) p.0
last-All P h a x b (y ∷ ys) l p = last-All P h x y b ys l.2 p.1
