-- ===== src/Opens/Laws.antt =====
-- What is open behind ffs_diag_init of router/usb.c.
use diag.Base.{
  ℕ, subst, ◌≡◌, refl, ap, ◌∙◌, ◌≢◌, ◌⊎◌, inl, inr, true, false, not, Option, none, some, List, [],
  ◌∷◌, ◌++◌, arith, ◌==◌, ==_refl, keep_if, All,
}
use diag.Bytes.{Bytes}
use diag.Syscalls.{
  socket, SysCall, openat, open_path, close, write, Answer, gives, fails, Process, SysKernel,
  Opening, ◌>>=◌, ask, close_all, or_close, released, give, opened_by, open_fds, opens,
}
use diag.Opens.{ffs_diag_init}

-- A kernel that gives a descriptor that is not open, where it gives a new one.
abbrev pub HasFresh : SysKernel → Type 0
HasFresh k =
    (log : List (SysCall × Answer)) (c : SysCall) (fd : ℕ)
    → opens c ≡ true
    → k.answers log c ≡ gives fd
    → All (λ d. d ≢ fd) (open_fds log)

-- The descriptors of a function, the newest first, that differ from each other and from those that
-- were open before.
IsStack : List ℕ → List ℕ → Type 0
IsStack base [] = Unit
IsStack base (fd ∷ fds) = All (λ d. d ≢ fd) (fds ++ base) × IsStack base fds

Holds : List ℕ → List ℕ → Process → Type 0
Holds base fds p = (open_fds p.log ≡ fds ++ base) × IsStack base fds

-- A part that fails leaves open what was open before; where it does not fail, `Q` holds.
Ends {ℓ} : {A : Type ℓ} → List ℕ → (A → Process → Type 0) → Option A × Process → Type 0
Ends base Q (none, q) = open_fds q.log ≡ base
Ends base Q (some a, q) = Q a q

keep_apart :
    (fd : ℕ) (fds : List ℕ) → All (λ d. d ≢ fd) fds → keep_if (λ d. not (d == fd)) fds ≡ fds
keep_apart fd [] h = refl
keep_apart fd (d ∷ fds) h = ground (arith, h.0, keep_apart fd fds h.1)

pub Answer-cases : (a : Answer) → ((n : ℕ) × (a ≡ gives n)) ⊎ ((n : ℕ) × (a ≡ fails n))
Answer-cases (gives n) = inl (n, refl)
Answer-cases (fails n) = inr (n, refl)

pub ask-fds :
    (k : SysKernel) (c : SysCall) (p : Process)
    → open_fds (ask k c p).1.log ≡ opened_by c (k.answers p.log c) (open_fds p.log)
unfolding ask open_fds
ask-fds k c p = elim (Answer-cases (k.answers p.log c)) [
  | inl (n, e) ↦ rw (ask, e) refl
  | inr (n, e) ↦ rw (ask, e) refl
]

close-newest :
    (k : SysKernel) (base fds : List ℕ) (fd : ℕ) (p : Process)
    → Holds base (fd ∷ fds) p
    → Holds base fds (ask k (close fd) p).1
unfolding Holds IsStack opened_by
close-newest k base fds fd p h = (
  ask-fds k (close fd) p
      ∙ ap (keep_if (λ d. not (d == fd))) h.0
      ∙ rw (==_refl fd) (keep_apart fd (fds ++ base) h.1.0),
  h.1.1,
)

close_all-Holds :
    (k : SysKernel) (base fds : List ℕ) (p : Process)
    → Holds base fds p
    → open_fds (close_all k fds p).log ≡ base
unfolding Holds close_all
close_all-Holds k base [] p h = h.0
close_all-Holds k base (fd ∷ fds) p h =
    close_all-Holds k base fds (ask k (close fd) p).1 (close-newest k base fds fd p h)

-- A part goes on from what another leaves.
bind-Ends {ℓ κ} :
    {A : Type ℓ} {B : Type κ} (base : List ℕ) (Q : A → Process → Type 0) (R : B → Process → Type 0)
    (m : Opening A) (f : A → Opening B) (p : Process)
    → Ends base Q (m p)
    → ((a : A) (q : Process) → Q a q → Ends base R (f a q))
    → Ends base R ((m >>= f) p)
unfolding ◌>>=◌ Ends
bind-Ends {A = A} {B = B} base Q R m f p h g = bound (m p) h
  where
    bound :
        (x : Option A × Process)
        → Ends base Q x
        → Ends base R (elim x.0 [ none ↦ (none, x.1) | some a ↦ f a x.1 ])
    bound (none, q) h = h
    bound (some a, q) h = g a q h

opened_by-gives :
    (c : SysCall) (fd : ℕ) (fds : List ℕ) → opens c ≡ true → opened_by c (gives fd) fds ≡ fd ∷ fds
unfolding opens opened_by
opened_by-gives (open_path path flags) fd fds h = refl
opened_by-gives (openat dir path flags) fd fds h = refl
opened_by-gives (socket domain type) fd fds h = refl
opened_by-gives _ fd fds h = absurd (ground (arith, h))

opened_by-fails :
    (c : SysCall) (n : ℕ) (fds : List ℕ) → opens c ≡ true → opened_by c (fails n) fds ≡ fds
unfolding opens opened_by
opened_by-fails (open_path path flags) n fds h = refl
opened_by-fails (openat dir path flags) n fds h = refl
opened_by-fails (socket domain type) n fds h = refl
opened_by-fails _ n fds h = absurd (ground (arith, h))

-- A call that opens a descriptor, with the closes of its label.
or_close-opens :
    (k : SysKernel) (base fds : List ℕ) (c : SysCall) (p : Process)
    → HasFresh k
    → opens c ≡ true
    → Holds base fds p
    → Ends base (λ fd q. Holds base (fd ∷ fds) q) (or_close k c fds p)
unfolding Holds IsStack Ends or_close
or_close-opens k base fds c p fresh o h = elim (Answer-cases (k.answers p.log c)) [
  | inl (fd, e) ↦
      rw (Ends, or_close, e)
        (
          ask-fds k c p
              ∙ ap (λ a. opened_by c a (open_fds p.log)) e
              ∙ opened_by-gives c fd (open_fds p.log) o
              ∙ ap (λ fds. fd ∷ fds) h.0,
          (subst (All (λ d. d ≢ fd)) h.0 (fresh p.log c fd o e), h.1),
        )
  | inr (n, e) ↦
      rw (Ends, or_close, e)
        (close_all-Holds k base fds (ask k c p).1 (
          ask-fds k c p
              ∙ ap (λ a. opened_by c a (open_fds p.log)) e
              ∙ opened_by-fails c n (open_fds p.log) o
              ∙ h.0,
          h.1,
        ))
]

-- A write, with the closes of its label.
or_close-write :
    (k : SysKernel) (base fds : List ℕ) (fd : ℕ) (bytes : Bytes) (p : Process)
    → Holds base fds p
    → Ends base (λ n q. Holds base fds q) (or_close k (write fd bytes) fds p)
unfolding Holds opened_by Ends or_close
or_close-write k base fds fd bytes p h = elim (Answer-cases (k.answers p.log (write fd bytes))) [
  | inl (n, e) ↦ rw (Ends, or_close, e) (ask-fds k (write fd bytes) p ∙ h.0, h.1)
  | inr (n, e) ↦
      rw (Ends, or_close, e)
        (close_all-Holds k base fds (ask k (write fd bytes) p).1
          (ask-fds k (write fd bytes) p ∙ h.0, h.1))
]

others : (fd d : ℕ) → fd ≢ d → (d == fd) ≡ false
others fd d ne = ground (arith, ne)

-- The endpoints stand behind the function's directory, which it closes.
close-directory :
    (k : SysKernel) (base : List ℕ) (bulk_in bulk_out ep0 fd : ℕ) (p : Process)
    → Holds base (bulk_in ∷ bulk_out ∷ ep0 ∷ fd ∷ []) p
    → open_fds (ask k (close fd) p).1.log ≡ bulk_in ∷ bulk_out ∷ ep0 ∷ base
unfolding Holds IsStack opened_by
close-directory k base bulk_in bulk_out ep0 fd p h =
    let (h0, ((a0, (a1, (a2, a))), ((b0, (b1, b)), ((c0, c), (d, e))))) = h in
    ask-fds k (close fd) p
    ∙ ap (keep_if (λ d. not (d == fd))) h0
    ∙ rw
        (
          others fd bulk_in a2,
          others fd bulk_out b1,
          others fd ep0 c0,
          ==_refl fd,
          keep_apart fd base d,
        )
        refl

-- What comes behind a call that opens a descriptor, and behind a write.
then-opens {ℓ} :
    {B : Type ℓ} (k : SysKernel) (base fds : List ℕ) (c : SysCall) (R : B → Process → Type 0)
    (f : ℕ → Opening B) (p : Process)
    → HasFresh k
    → opens c ≡ true
    → Holds base fds p
    → ((fd : ℕ) (q : Process) → Holds base (fd ∷ fds) q → Ends base R (f fd q))
    → Ends base R ((or_close k c fds >>= f) p)
then-opens k base fds c R f p fresh o h g =
    bind-Ends base (λ fd q. Holds base (fd ∷ fds) q) R (or_close k c fds) f p
      (or_close-opens k base fds c p fresh o h) g

then-writes {ℓ} :
    {B : Type ℓ} (k : SysKernel) (base fds : List ℕ) (fd : ℕ) (bytes : Bytes)
    (R : B → Process → Type 0) (f : ℕ → Opening B) (p : Process)
    → Holds base fds p
    → ((n : ℕ) (q : Process) → Holds base fds q → Ends base R (f n q))
    → Ends base R ((or_close k (write fd bytes) fds >>= f) p)
then-writes k base fds fd bytes R f p h g =
    bind-Ends base (λ n q. Holds base fds q) R (or_close k (write fd bytes) fds) f p
      (or_close-write k base fds fd bytes p h) g

-- The endpoints that a successful run gives are what it leaves open.
AreOpen : List ℕ → (ℕ × ℕ × ℕ) → Process → Type 0
AreOpen base (ep0, bulk_out, bulk_in) q = open_fds q.log ≡ bulk_in ∷ bulk_out ∷ ep0 ∷ base

then-closes :
    (k : SysKernel) (base : List ℕ) (bulk_in bulk_out ep0 fd : ℕ) (p : Process)
    → Holds base (bulk_in ∷ bulk_out ∷ ep0 ∷ fd ∷ []) p
    → Ends base (AreOpen base) ((released k fd >>= λ closed. give (ep0, bulk_out, bulk_in)) p)
unfolding ◌>>=◌ released give Ends AreOpen
then-closes k base bulk_in bulk_out ep0 fd p h = close-directory k base bulk_in bulk_out ep0 fd p h

-- Where the kernel gives descriptors that are not open, ffs_diag_init either fails, and the descriptors
-- that are open are those from before, or it gives three endpoints, and these are open besides: the
-- directory is closed again on every path, and an endpoint on every path that fails behind it.
pub ffs_diag_init-open_fds :
    (k : SysKernel) (ffs_name : Bytes) (p : Process)
    → HasFresh k
    → (((ffs_diag_init k ffs_name p).0 ≡ none)
        × (open_fds (ffs_diag_init k ffs_name p).1.log ≡ open_fds p.log))
      ⊎ ((ep0 bulk_out bulk_in : ℕ) × ((ffs_diag_init k ffs_name p).0
            ≡ some (ep0, bulk_out, bulk_in))
          × (open_fds (ffs_diag_init k ffs_name p).1.log
              ≡ bulk_in ∷ bulk_out ∷ ep0 ∷ open_fds p.log))
unfolding ffs_diag_init AreOpen Ends Holds IsStack opens released give
ffs_diag_init-open_fds k ffs_name p fresh = outcome (ffs_diag_init k ffs_name p) ends
  where
    base : List ℕ
    base = open_fds p.log

    ends : Ends base (AreOpen base) (ffs_diag_init k ffs_name p)
    ends =
        then-opens k base [] _ (AreOpen base) _ p fresh refl (refl, tt)
          (λ fd q1 h1. then-opens k base (fd ∷ []) _ (AreOpen base) _ q1 fresh refl h1 (λ ep0 q2 h2.
            then-writes k base (ep0 ∷ fd ∷ []) ep0 _ (AreOpen base) _ q2 h2 (λ n q3 h3.
              then-writes k base (ep0 ∷ fd ∷ []) ep0 _ (AreOpen base) _ q3 h3 (λ m q4 h4.
                then-opens k base (ep0 ∷ fd ∷ []) _ (AreOpen base) _ q4 fresh refl h4
                  (λ bulk_out q5 h5.
                    then-opens k base (bulk_out ∷ ep0 ∷ fd ∷ []) _ (AreOpen base) _ q5 fresh refl h5
                      (λ bulk_in q6 h6. then-closes k base bulk_in bulk_out ep0 fd q6 h6))))))

    outcome :
        (x : Option (ℕ × ℕ × ℕ) × Process)
        → Ends base (AreOpen base) x
        → ((x.0 ≡ none) × (open_fds x.1.log ≡ base))
          ⊎ ((ep0 bulk_out bulk_in : ℕ) × (x.0 ≡ some (ep0, bulk_out, bulk_in))
              × (open_fds x.1.log ≡ bulk_in ∷ bulk_out ∷ ep0 ∷ base))
    outcome (none, q) h = inl (refl, h)
    outcome (some (ep0, bulk_out, bulk_in), q) h = inr (ep0, bulk_out, bulk_in, refl, h)
