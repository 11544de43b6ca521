-- ===== src/Opens/Steps.antt =====
-- One call of a row, and what the row is behind it.
use diag.Base.{ℕ, ◌≡◌, refl, ap, none, some, List, [], ◌∷◌}
use diag.Syscalls.{
  SysCall, gives, fails, Process, SysKernel, Opening, ◌>>=◌, ask, close_all, or_close,
}

pub or_close-gives :
    (k : SysKernel) (c : SysCall) (fds : List ℕ) (n : ℕ) (p : Process)
    → k.answers p.log c ≡ gives n
    → or_close k c fds p ≡ (some n, record p { log = (c, gives n) ∷ p.log })
unfolding or_close ask
or_close-gives k c fds n p e = rw (or_close, ask, e, ask, e) refl

pub bind-some {ℓ κ} :
    {A : Type ℓ} {B : Type κ} (m : Opening A) (f : A → Opening B) (a : A) (p q : Process)
    → m p ≡ (some a, q)
    → (m >>= f) p ≡ f a q
unfolding ◌>>=◌
bind-some m f a p q e = ap (λ r. elim r.0 [ none ↦ (none, r.1) | some a ↦ f a r.1 ]) e

pub or_close-fails :
    (k : SysKernel) (c : SysCall) (e : ℕ) (p : Process)
    → k.answers p.log c ≡ fails e
    → or_close k c [] p ≡ (none, record { log = (c, fails e) ∷ p.log; errno = e })
unfolding or_close ask close_all
or_close-fails k c e p a = rw (or_close, ask, a, ask, a) refl

pub bind-none {ℓ κ} :
    {A : Type ℓ} {B : Type κ} (m : Opening A) (f : A → Opening B) (p q : Process)
    → m p ≡ (none, q)
    → (m >>= f) p ≡ (none, q)
unfolding ◌>>=◌
bind-none m f p q e = ap (λ r. elim r.0 [ none ↦ (none, r.1) | some a ↦ f a r.1 ]) e
