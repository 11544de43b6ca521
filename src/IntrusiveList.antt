-- ===== src/IntrusiveList.antt =====
-- router/list.h: the nodes of doubly linked rings as numbers, and their links as a store that the
-- operations change. The walk that is safe against removal is in Watch/Walk.
pub mod Links
pub mod Laws
pub mod Removal
pub mod Refines
mod Tests
use diag.Base.{
  ℕ, subst, zero, suc, ◌+◌, ◌-◌, ◌*◌, ◌/◌, ◌%◌, ◌^◌, ◌≤◌, ◌<◌, min, bit_and, bit_or, bit_xor, ◌≡◌,
  refl, sym, ap, ap₂, ◌∙◌, ◌≢◌, ◌↔◌, ◌⊎◌, inl, inr, Bool, true, false, not, ◌&&◌, ◌||◌, Option,
  none, some, List, [], ◌∷◌, ◌++◌, map, append-nil, append_assoc, arith, ltb, leb, ◌==◌,
  if◌then◌else◌, ltb→lt, ==_iff, ==_refl, Bool-cases, Option-cases, length, get_elem?, get_or, set,
  take, drop, replicate, keep_if, length-append, length-set, length-take, length-drop,
  length-replicate, get_or-set_self, get_or-set_ne, take-append, drop-append, All, All-append,
  passes_below, passes_below-lt, bit_xor_step, bit_xor-zero, bit_xor_fields, bit_xor-lt,
}

-- The members of every `struct list_head`.
pub record Store : Type 0 where
  pub prev : ℕ → ℕ
  pub next : ℕ → ℕ

-- One member of one node, written.
unfoldable pub put : ℕ → ℕ → (ℕ → ℕ) → ℕ → ℕ
put node value old n = if n == node then value else old n

unfoldable pub list_init : ℕ → Store → Store
unfolding put
list_init list h = record { prev = put list list h.prev; next = put list list h.next }

unfoldable pub list_empty : ℕ → Store → Bool
list_empty list h = h.next list == list

unfoldable pub list_add : ℕ → ℕ → Store → Store
unfolding put
list_add list item h =
    let prev = h.prev list in
    record {
      prev = put list item (put item prev h.prev);
      next = put prev item (put item list h.next);
    }

-- The second write reads what the first has left.
unfoldable pub list_del : ℕ → Store → Store
unfolding put
list_del item h =
    let next1 = put (h.prev item) (h.next item) h.next in
    record { prev = put (next1 item) (h.prev item) h.prev; next = next1 }

-- The nodes that `list_for_each` visits from one on, with fuel for the number of them.
unfoldable pub list_for_each : ℕ → ℕ → ℕ → Store → List ℕ
list_for_each zero list item h = []
list_for_each (suc fuel) list item h =
    let rest = list_for_each fuel list (h.next item) h in if item == list then [] else item ∷ rest
