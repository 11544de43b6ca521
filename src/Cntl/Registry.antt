-- ===== src/Cntl/Registry.antt =====
-- The table of registered commands: which entries a peripheral's packets add and take out.
use diag.Base.{
  ℕ, zero, suc, ◌+◌, ◌<◌, ◌≡◌, refl, ◌∙◌, ◌≢◌, inl, inr, Bool, true, false, not, ◌&&◌, none, some,
  List, [], ◌∷◌, ◌++◌, append-nil, arith, ◌==◌, if◌then◌else◌, ==_refl, Bool-cases, keep_if, All,
}
use native.Mathlib.Nat.{zero-add}
use diag.Bytes.{Bytes, get16}
use diag.World.{DiagCmd, Alloc}
use diag.Cntl.{
  CmdRange, packet_range, register_from, diag_cntl_register, is_owned, deregister_range,
  deregister_from, diag_cntl_deregister, diag_cntl_close, sizeof_diag_cmd,
}

-- The commands of other peripherals, and those of none.
abbrev pub others : ℕ → List DiagCmd → List DiagCmd
others perif = keep_if (λ dc. not (is_owned perif dc))

abbrev pub count_owned : ℕ → List DiagCmd → ℕ
count_owned perif [] = 0
count_owned perif (dc ∷ cmds) = (if is_owned perif dc then 1 else 0) + count_owned perif cmds

others-append :
    (perif : ℕ) (p q : List DiagCmd) → others perif (p ++ q) ≡ others perif p ++ others perif q
others-append perif [] q = refl
others-append perif (dc ∷ p) q = ground (arith, others-append perif p q)

count_owned-append :
    (perif : ℕ) (p q : List DiagCmd)
    → count_owned perif (p ++ q) ≡ count_owned perif p + count_owned perif q
count_owned-append perif [] q = omega arith
count_owned-append perif (dc ∷ p) q = omega (arith, count_owned-append perif p q)

pub register_from_lem :
    (alloc : Alloc) (perif : ℕ) (pkt : Bytes) (left i : ℕ) (cmds : List DiagCmd)
    → alloc sizeof_diag_cmd ≡ true
    → (others perif (register_from alloc perif pkt left i cmds) ≡ others perif cmds)
      × (count_owned perif (register_from alloc perif pkt left i cmds)
          ≡ count_owned perif cmds + left)
unfolding register_from is_owned
register_from_lem alloc perif pkt zero i cmds g = (refl, omega arith)
register_from_lem alloc perif pkt (suc left) i cmds g =
    let later = register_from_lem alloc perif pkt left (i + 1) (cmds ++ (entry ∷ [])) g in
    (
      rw g (later.0 ∙ others-append perif cmds (entry ∷ []) ∙ rw (own, append-nil)),
      rw g (omega (arith, later.1, count_owned-append perif cmds (entry ∷ []), counted)),
    )
  where
    entry : DiagCmd
    entry = record {
      first = (packet_range pkt 20 8 i).first;
      last = (packet_range pkt 20 8 i).last;
      peripheral = some perif;
      cb = none;
    }

    own : is_owned perif entry ≡ true
    own = ==_refl perif

    counted : count_owned perif (entry ∷ []) ≡ 1
    counted = rw own (omega arith)

-- With memory granted, a registration adds as many commands as the packet counts, all of the
-- peripheral's own, and leaves every other command in its place.
pub diag_cntl_register-adds :
    (alloc : Alloc) (perif : ℕ) (pkt : Bytes) (cmds : List DiagCmd)
    → alloc sizeof_diag_cmd ≡ true
    → (others perif (diag_cntl_register alloc perif pkt cmds) ≡ others perif cmds)
      × (count_owned perif (diag_cntl_register alloc perif pkt cmds)
          ≡ count_owned perif cmds + get16 pkt 16)
unfolding diag_cntl_register
diag_cntl_register-adds alloc perif pkt cmds g =
    register_from_lem alloc perif pkt (get16 pkt 16) 0 cmds g

close_own : (perif : ℕ) (cmds : List DiagCmd) → count_owned perif (diag_cntl_close perif cmds) ≡ 0
unfolding diag_cntl_close
close_own perif [] = omega arith
close_own perif (dc ∷ cmds) = elim (Bool-cases (is_owned perif dc)) [
  | inl own ↦ rw own (close_own perif cmds)
  | inr other ↦ rw (other, other) (omega (arith, close_own perif cmds))
]

not_both :
    (perif other : ℕ) (dc : DiagCmd)
    → other ≢ perif
    → is_owned perif dc ≡ true
    → is_owned other dc ≡ false
unfolding is_owned
not_both perif other dc ne own = ground arith

close_other :
    (perif other : ℕ) (cmds : List DiagCmd)
    → other ≢ perif
    → count_owned other (diag_cntl_close perif cmds) ≡ count_owned other cmds
unfolding diag_cntl_close
close_other perif other [] ne = refl
close_other perif other (dc ∷ cmds) ne = elim (Bool-cases (is_owned perif dc)) [
  | inl own ↦
      rw (own, not_both perif other dc ne own) (omega (arith, close_other perif other cmds ne))
  | inr not_own ↦ rw not_own (omega (arith, close_other perif other cmds ne))
]

-- Closing a peripheral leaves none of its commands, and as many commands of any other peripheral
-- as there were.
pub diag_cntl_close_lem :
    (perif other : ℕ) (cmds : List DiagCmd)
    → other ≢ perif
    → (count_owned perif (diag_cntl_close perif cmds) ≡ 0)
      × (count_owned other (diag_cntl_close perif cmds) ≡ count_owned other cmds)
diag_cntl_close_lem perif other cmds ne = (close_own perif cmds, close_other perif other cmds ne)

deregister_range-others :
    (perif : ℕ) (r : CmdRange) (cmds : List DiagCmd)
    → others perif (deregister_range perif r cmds) ≡ others perif cmds
unfolding deregister_range
deregister_range-others perif r [] = refl
deregister_range-others perif r (dc ∷ cmds) = ground (arith, deregister_range-others perif r cmds)

deregister_from-others :
    (perif : ℕ) (pkt : Bytes) (left i : ℕ) (cmds : List DiagCmd)
    → others perif (deregister_from perif pkt left i cmds) ≡ others perif cmds
unfolding deregister_from
deregister_from-others perif pkt zero i cmds = refl
deregister_from-others perif pkt (suc left) i cmds =
    deregister_from-others perif pkt left (i + 1)
      (deregister_range perif (packet_range pkt 18 4 i) cmds)
    ∙ deregister_range-others perif (packet_range pkt 18 4 i) cmds

abbrev pub IsAbsent : ℕ → CmdRange → DiagCmd → Type 0
IsAbsent perif r dc = is_owned perif dc && (dc.first == r.first && dc.last == r.last) ≡ false

deregister_range_gone :
    (perif : ℕ) (r : CmdRange) (cmds : List DiagCmd)
    → All (IsAbsent perif r) (deregister_range perif r cmds)
unfolding deregister_range
deregister_range_gone perif r [] = tt
deregister_range_gone perif r (dc ∷ cmds) =
    elim (Bool-cases (is_owned perif dc && (dc.first == r.first && dc.last == r.last))) [
      | inl match ↦ rw match (deregister_range_gone perif r cmds)
      | inr none_such ↦ rw none_such (none_such, deregister_range_gone perif r cmds)
    ]

keep_if-All :
    (P : DiagCmd → Type 0) (p : DiagCmd → Bool) (cmds : List DiagCmd)
    → All P cmds
    → All P (keep_if p cmds)
keep_if-All P p [] h = tt
keep_if-All P p (dc ∷ cmds) h = elim (Bool-cases (p dc)) [
  | inl kept ↦ rw kept (h.0, keep_if-All P p cmds h.1)
  | inr dropped ↦ rw dropped (keep_if-All P p cmds h.1)
]

deregister_from-All :
    (P : DiagCmd → Type 0) (perif : ℕ) (pkt : Bytes) (left i : ℕ) (cmds : List DiagCmd)
    → All P cmds
    → All P (deregister_from perif pkt left i cmds)
unfolding deregister_from deregister_range
deregister_from-All P perif pkt zero i cmds h = h
deregister_from-All P perif pkt (suc left) i cmds h =
    deregister_from-All P perif pkt left (i + 1)
      (deregister_range perif (packet_range pkt 18 4 i) cmds) (keep_if-All P _ cmds h)

deregister_from_gone :
    (perif : ℕ) (pkt : Bytes) (left i k : ℕ) (cmds : List DiagCmd)
    → k < left
    → All (IsAbsent perif (packet_range pkt 18 4 (i + k))) (deregister_from perif pkt left i cmds)
unfolding deregister_from
deregister_from_gone perif pkt zero i k cmds h = absurd (omega arith)
deregister_from_gone perif pkt (suc left) i zero cmds h = rw same (
    deregister_from-All (IsAbsent perif (packet_range pkt 18 4 i)) perif pkt left (i + 1)
      (deregister_range perif (packet_range pkt 18 4 i) cmds)
      (deregister_range_gone perif (packet_range pkt 18 4 i) cmds))
  where
    same : i + 0 ≡ i
    same = omega arith
deregister_from_gone perif pkt (suc left) i (suc k) cmds h = rw same (
    deregister_from_gone perif pkt left (i + 1) k
      (deregister_range perif (packet_range pkt 18 4 i) cmds) (omega arith))
  where
    same : i + suc k ≡ i + 1 + k
    same = omega arith

pub others-diag_cntl_deregister :
    (perif : ℕ) (pkt : Bytes) (cmds : List DiagCmd)
    → others perif (diag_cntl_deregister perif pkt cmds) ≡ others perif cmds
unfolding diag_cntl_deregister
others-diag_cntl_deregister perif pkt cmds = deregister_from-others perif pkt (get16 pkt 16) 0 cmds

-- A deregistration leaves no command of the peripheral with a range that the packet lists, and
-- leaves every other peripheral's command in its place.
pub diag_cntl_deregister_lem :
    (perif : ℕ) (pkt : Bytes) (cmds : List DiagCmd) (k : ℕ)
    → k < get16 pkt 16
    → All (IsAbsent perif (packet_range pkt 18 4 k)) (diag_cntl_deregister perif pkt cmds)
      × (others perif (diag_cntl_deregister perif pkt cmds) ≡ others perif cmds)
unfolding diag_cntl_deregister
diag_cntl_deregister_lem perif pkt cmds k h = (
  rw (zero-add k) at (deregister_from_gone perif pkt (get16 pkt 16) 0 k cmds h),
  deregister_from-others perif pkt (get16 pkt 16) 0 cmds,
)
