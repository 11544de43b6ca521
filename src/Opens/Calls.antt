-- ===== src/Opens/Calls.antt =====
-- A row of system calls, one behind the other, that ends where a call fails: the shape of the openings
-- of router/uart.c and router/socket.c behind their first call.
use diag.Base.{
  ℕ, subst, ◌≡◌, refl, sym, ap, ◌∙◌, inl, inr, Option, none, some, List, [], ◌∷◌, ◌++◌, All,
}
use diag.Syscalls.{
  SysCall, Answer, gives, fails, Process, SysKernel, Opening, ◌>>=◌, or_close, give, opened_by,
  open_fds,
}
use diag.Opens.Laws.{Answer-cases}
use diag.Opens.Steps.{or_close-gives, or_close-fails, bind-some, bind-none}

-- Each of the calls gives a number.
pub data Calls : List SysCall → List (SysCall × Answer) → List (SysCall × Answer) → Type 0 where
  no_more : (log : List (SysCall × Answer)) → Calls [] log log
  then_call :
      (c : SysCall) (cs : List SysCall) (n : ℕ) (log log' : List (SysCall × Answer))
      → Calls cs ((c, gives n) ∷ log) log'
      → Calls (c ∷ cs) log log'

-- The first calls give numbers, and the next fails with `e`, so that no more are made.
pub record BreaksOff (cs : List SysCall) (log log' : List (SysCall × Answer)) (e : ℕ) : Type 0 where
  pub before : List SysCall
  pub call : SysCall
  pub behind : List SysCall
  pub mid : List (SysCall × Answer)
  pub order : before ++ (call ∷ behind) ≡ cs
  pub made : Calls before log mid
  pub ends : log' ≡ (call, fails e) ∷ mid

-- The calls in a row, which give a descriptor in the end.
unfoldable pub steps : SysKernel → List SysCall → ℕ → Opening ℕ
steps k [] fd = give fd
steps k (c ∷ cs) fd = or_close k c [] >>= λ n. steps k cs fd

pub data Steps (cs : List SysCall) (fd : ℕ) (log : List (SysCall × Answer))
    : Option ℕ × Process → Type 0 where
  went : (q : Process) → Calls cs log q.log → Steps cs fd log (some fd, q)
  broke : (q : Process) → BreaksOff cs log q.log q.errno → Steps cs fd log (none, q)

later_Steps :
    (c : SysCall) (cs : List SysCall) (fd n : ℕ) (log : List (SysCall × Answer))
    (r : Option ℕ × Process)
    → Steps cs fd ((c, gives n) ∷ log) r
    → Steps (c ∷ cs) fd log r
later_Steps c cs fd n log _ (went q h) = went q (then_call c cs n log q.log h)
later_Steps c cs fd n log _ (broke q b) = broke q (record {
  before = c ∷ b.before;
  call = b.call;
  behind = b.behind;
  mid = b.mid;
  order = ap (λ l. c ∷ l) b.order;
  made = then_call c b.before n log b.mid b.made;
  ends = b.ends;
})

pub steps_lem :
    (k : SysKernel) (cs : List SysCall) (fd : ℕ) (p : Process) → Steps cs fd p.log (steps k cs fd p)
unfolding steps give
steps_lem k [] fd p = went p (no_more p.log)
steps_lem k (c ∷ cs) fd p = elim (Answer-cases (k.answers p.log c)) [
  | inl (n, a) ↦
      let run : steps k (c ∷ cs) fd p ≡ steps k cs fd (record p { log = (c, gives n) ∷ p.log }) =
        bind-some (or_close k c []) _ n p _ (or_close-gives k c [] n p a) in
      subst (Steps (c ∷ cs) fd p.log) (sym run) (
        later_Steps c cs fd n p.log _ (steps_lem k cs fd (record p { log = (c, gives n) ∷ p.log })))
  | inr (e, a) ↦
      let run : steps k (c ∷ cs) fd p ≡ (none, record { log = (c, fails e) ∷ p.log; errno = e }) =
        bind-none (or_close k c []) _ p _ (or_close-fails k c e p a) in
      subst (Steps (c ∷ cs) fd p.log) (sym run) (
        broke (record { log = (c, fails e) ∷ p.log; errno = e })
          (record {
            before = [];
            call = c;
            behind = cs;
            mid = p.log;
            order = refl;
            made = no_more p.log;
            ends = refl;
          }))
]

-- A call that opens and closes nothing.
abbrev pub Plain : SysCall → Type 0
Plain c = (a : Answer) (fds : List ℕ) → opened_by c a fds ≡ fds

pub Calls-open_fds :
    {cs : List SysCall} {log log' : List (SysCall × Answer)}
    → Calls cs log log'
    → All Plain cs
    → open_fds log' ≡ open_fds log
unfolding open_fds
Calls-open_fds (no_more log) h = refl
Calls-open_fds (then_call c cs n log log' r) h = Calls-open_fds r h.1 ∙ h.0 (gives n) (open_fds log)

All-before :
    (P : SysCall → Type 0) (xs : List SysCall) (c : SysCall) (ys : List SysCall)
    → All P (xs ++ (c ∷ ys))
    → All P xs × P c
All-before P [] c ys h = (tt, h.0)
All-before P (x ∷ xs) c ys h = let later = All-before P xs c ys h.1 in ((h.0, later.0), later.1)

pub BreaksOff-open_fds :
    (cs : List SysCall) (log log' : List (SysCall × Answer)) (e : ℕ)
    → BreaksOff cs log log' e
    → All Plain cs
    → open_fds log' ≡ open_fds log
unfolding open_fds
BreaksOff-open_fds cs log log' e b h =
    let parts = All-before Plain b.before b.call b.behind (subst (All Plain) (sym b.order) h) in
    ap open_fds b.ends ∙ parts.1 (fails e) (open_fds b.mid) ∙ Calls-open_fds b.made parts.0
