-- ===== src/Cntl/Layout/Restore.antt =====
-- A registration of router/diag_cntl.c that is taken back.
use diag.Base.{
  ℕ, subst, ◌<◌, ◌≡◌, refl, ap, ◌∙◌, inl, inr, Bool, true, false, ◌&&◌, ◌||◌, List, [], ◌∷◌, ◌++◌,
  append-nil, arith, ◌==◌, ==_refl, Bool-cases, length, All,
}
use diag.World.{DiagCmd, Alloc}
use diag.Cntl.{
  CmdRange, cmd_key, packet_cmd, sizeof_diag_cmd, diag_cntl_register, is_owned, deregister_range,
  diag_cntl_deregister,
}
use diag.Cntl.Layout.Register.{
  Range, registration, commands_of, AreHalves, diag_cntl_register-packet,
}
use diag.Cntl.Layout.Deregister.{
  deregistration, keys_of, deregister_all, diag_cntl_deregister-packet,
}

-- A range names a command of the peripheral.
abbrev pub names : ℕ → CmdRange → DiagCmd → Bool
names perif r dc = is_owned perif dc && (dc.first == r.first && dc.last == r.last)

named : ℕ → List CmdRange → DiagCmd → Bool
named perif [] dc = false
named perif (r ∷ rs) dc = names perif r dc || named perif rs dc

deregister_range-append :
    (perif : ℕ) (r : CmdRange) (p q : List DiagCmd)
    → deregister_range perif r (p ++ q) ≡ deregister_range perif r p ++ deregister_range perif r q
unfolding deregister_range
deregister_range-append perif r [] q = refl
deregister_range-append perif r (dc ∷ p) q = elim (Bool-cases (names perif r dc)) [
  | inl goes ↦ rw goes (deregister_range-append perif r p q)
  | inr stays ↦ rw stays (ap (λ t. dc ∷ t) (deregister_range-append perif r p q))
]

deregister_range-other :
    (perif : ℕ) (r : CmdRange) (cmds : List DiagCmd)
    → All (λ dc. names perif r dc ≡ false) cmds
    → deregister_range perif r cmds ≡ cmds
unfolding deregister_range
deregister_range-other perif r [] h = refl
deregister_range-other perif r (dc ∷ cmds) h =
    rw (h.0) (ap (λ t. dc ∷ t) (deregister_range-other perif r cmds h.1))

-- What is left of named commands is named by the other ranges.
deregister_range-named :
    (perif : ℕ) (r : CmdRange) (rs : List CmdRange) (cmds : List DiagCmd)
    → All (λ dc. named perif (r ∷ rs) dc ≡ true) cmds
    → All (λ dc. named perif rs dc ≡ true) (deregister_range perif r cmds)
unfolding deregister_range named
deregister_range-named perif r rs [] h = tt
deregister_range-named perif r rs (dc ∷ cmds) h = elim (Bool-cases (names perif r dc)) [
  | inl goes ↦ rw goes (deregister_range-named perif r rs cmds h.1)
  | inr stays ↦ rw stays (
    subst (λ b. b || named perif rs dc ≡ true) stays h.0,
    deregister_range-named perif r rs cmds h.1,
  )
]

deregister_all-named :
    (perif : ℕ) (rs : List CmdRange) (cmds : List DiagCmd)
    → All (λ dc. named perif rs dc ≡ true) cmds
    → deregister_all perif rs cmds ≡ []
unfolding deregister_all named
deregister_all-named perif [] [] h = refl
deregister_all-named perif [] (dc ∷ cmds) h = absurd (ground (arith, h.0))
deregister_all-named perif (r ∷ rs) cmds h =
    deregister_all-named perif rs (deregister_range perif r cmds)
      (deregister_range-named perif r rs cmds h)

-- No range names any of the commands.
abbrev pub Unnamed : ℕ → List CmdRange → List DiagCmd → Type 0
Unnamed perif rs cmds = All (λ r. All (λ dc. names perif r dc ≡ false) cmds) rs

deregister_all-append :
    (perif : ℕ) (rs : List CmdRange) (cmds added : List DiagCmd)
    → Unnamed perif rs cmds
    → deregister_all perif rs (cmds ++ added) ≡ cmds ++ deregister_all perif rs added
unfolding deregister_all
deregister_all-append perif [] cmds added h = refl
deregister_all-append perif (r ∷ rs) cmds added h =
    ap (deregister_all perif rs) (
      deregister_range-append perif r cmds added
      ∙ ap (λ t. t ++ deregister_range perif r added) (deregister_range-other perif r cmds h.0))
    ∙ deregister_all-append perif rs cmds (deregister_range perif r added) h.1

or_true : (b : Bool) → b || true ≡ true
or_true true = refl
or_true false = refl

named-more :
    (perif : ℕ) (r : CmdRange) (rs : List CmdRange) (cmds : List DiagCmd)
    → All (λ dc. named perif rs dc ≡ true) cmds
    → All (λ dc. named perif (r ∷ rs) dc ≡ true) cmds
unfolding named
named-more perif r rs [] h = tt
named-more perif r rs (dc ∷ cmds) h =
    (rw h.0 (or_true (names perif r dc)), named-more perif r rs cmds h.1)

commands-named :
    (perif cmd subsys : ℕ) (ranges : List Range)
    → All
        (λ dc. named perif (keys_of cmd subsys ranges) dc ≡ true)
        (commands_of perif cmd subsys ranges)
unfolding named is_owned
commands-named perif cmd subsys [] = tt
commands-named perif cmd subsys ((first, last, content) ∷ ranges) = (
  rw
      (
        ==_refl perif,
        ==_refl (cmd_key (packet_cmd cmd subsys) subsys first),
        ==_refl (cmd_key (packet_cmd cmd subsys) subsys last),
      )
      refl,
  named-more perif _ (keys_of cmd subsys ranges) (commands_of perif cmd subsys ranges)
      (commands-named perif cmd subsys ranges),
)

-- With memory granted, the deregistration packet of the ranges that a registration packet brought takes
-- the table back to what it was, where no range names a command of the peripheral that was there
-- before; both packets have at most 65535 ranges of 16-bit codes.
pub diag_cntl_deregister-register :
    (alloc : Alloc) (perif version cmd subsys port : ℕ) (ranges : List Range) (cmds : List DiagCmd)
    → alloc sizeof_diag_cmd ≡ true
    → cmd < 65536
    → subsys < 65536
    → length ranges < 65536
    → AreHalves ranges
    → Unnamed perif (keys_of cmd subsys ranges) cmds
    → diag_cntl_deregister perif
        (deregistration version cmd subsys ranges)
        (diag_cntl_register alloc perif (registration version cmd subsys port ranges) cmds)
      ≡ cmds
diag_cntl_deregister-register alloc perif version cmd subsys port ranges cmds g hc hs hl h free =
    let rs = keys_of cmd subsys ranges in
    let added = commands_of perif cmd subsys ranges in
    ap (diag_cntl_deregister perif (deregistration version cmd subsys ranges))
      (diag_cntl_register-packet alloc perif version cmd subsys port ranges cmds g hc hs hl h)
    ∙ diag_cntl_deregister-packet perif version cmd subsys ranges (cmds ++ added) hc hs hl h
    ∙ deregister_all-append perif rs cmds added free
    ∙ ap (λ t. cmds ++ t)
        (deregister_all-named perif rs added (commands-named perif cmd subsys ranges))
    ∙ append-nil cmds
