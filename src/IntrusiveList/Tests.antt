-- ===== src/IntrusiveList/Tests.antt =====
-- A ring of three nodes.
use diag.Base.{◌≡◌, refl, true, false, [], ◌∷◌, arith}
use diag.IntrusiveList.{Store, put, list_init, list_empty, list_add, list_del}
use diag.IntrusiveList.Links.{IsRing}
use diag.IntrusiveList.Laws.{list_add-IsRing}
use diag.IntrusiveList.Refines.{nodes, list_init-IsRing, list_operations-nodes}

abbrev nowhere : Store
nowhere = record { prev = λ n. 0; next = λ n. 0 }

abbrev empty : Store
empty = list_init 10 nowhere

abbrev three : Store
three = list_add 10 3 (list_add 10 2 (list_add 10 1 empty))

three-IsRing : IsRing three 10 (1 ∷ 2 ∷ 3 ∷ [])
three-IsRing =
    list_add-IsRing (list_add 10 2 (list_add 10 1 empty)) 10 3 (1 ∷ 2 ∷ [])
      (list_add-IsRing (list_add 10 1 empty) 10 2 (1 ∷ [])
        (list_add-IsRing empty 10 1 [] (list_init-IsRing nowhere 10)
          (λ e. absurd (omega (arith, e))) tt)
        (λ e. absurd (omega (arith, e))) ((λ e. absurd (omega (arith, e))), tt))
      (λ e. absurd (omega (arith, e)))
      ((λ e. absurd (omega (arith, e))), ((λ e. absurd (omega (arith, e))), tt))

starts_empty : (list_empty 10 empty ≡ true) × (list_empty 10 three ≡ false)
unfolding list_empty list_init list_add put
starts_empty = (refl, refl)

list_operations-nodes_example :
    (nodes 6 10 three ≡ 1 ∷ 2 ∷ 3 ∷ [])
    × (nodes 6 10 (list_del 2 three) ≡ 1 ∷ 3 ∷ [])
    × (nodes 6 10 (list_add 10 4 three) ≡ 1 ∷ 2 ∷ 3 ∷ 4 ∷ [])
    × IsRing (list_del 2 three) 10 (1 ∷ 3 ∷ [])
    × IsRing (list_add 10 4 three) 10 (1 ∷ 2 ∷ 3 ∷ 4 ∷ [])
list_operations-nodes_example =
    list_operations-nodes three 10 2 4 (1 ∷ []) (3 ∷ []) 6 three-IsRing
      (λ e. absurd (omega (arith, e)))
      (
        (λ e. absurd (omega (arith, e))),
        ((λ e. absurd (omega (arith, e))), ((λ e. absurd (omega (arith, e))), tt)),
      )
      (omega arith)
