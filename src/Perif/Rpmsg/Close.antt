-- ===== src/Perif/Rpmsg/Close.antt =====
-- The close of a peripheral in router/peripheral-rpmsg.c.
use diag.Base.{
  ℕ, subst, ◌≡◌, refl, sym, ◌∙◌, ◌≢◌, inl, inr, Bool, false, not, Option, none, some, List, [], ◌∷◌,
  ◌==◌, Bool-cases, keep_if, All,
}
use diag.World.{Peripheral, DiagCmd}
use diag.Cntl.{is_owned, diag_cntl_close}
use diag.Watch.{Watch, watch_remove_fd}
use diag.Daemon.{on_world, State, find_peripheral, the_peripheral}
use diag.Daemon.Closed.{removed}
use diag.Perif.Rpmsg.{remove_watches, perif_rpmsg_close}

-- No watch has the descriptor, if there is one.
abbrev pub Unwatched : Option ℕ → List Watch → Type 0
Unwatched none ws = Unit {0}
Unwatched (some fd) ws = All (λ w. w.fd ≢ fd) ws

keep-All {ℓ} :
    {A : Type ℓ} (P : A → Type 0) (f : A → Bool) (l : List A) → All P l → All P (keep_if f l)
keep-All P f [] h = tt
keep-All P f (a ∷ l) h = elim (Bool-cases (f a)) [
  | inl stays ↦ rw stays (h.0, keep-All P f l h.1)
  | inr goes ↦ rw goes (keep-All P f l h.1)
]

-- The watches of a descriptor, in both lists.
abbrev Gone : Option ℕ → State → Type 0
Gone fd s = Unwatched fd s.read_watches × Unwatched fd s.aio_watches

removed-Gone : (fd : Option ℕ) (s : State) → Gone fd (remove_watches fd s)
unfolding watch_remove_fd
removed-Gone none s = (tt, tt)
removed-Gone (some fd) s = (removed fd s.read_watches, removed fd s.aio_watches)

removal-keeps : (fd old : Option ℕ) (s : State) → Gone old s → Gone old (remove_watches fd s)
unfolding watch_remove_fd
removal-keeps none old s h = h
removal-keeps (some fd) none s h = (tt, tt)
removal-keeps (some fd) (some k) s h = (
  keep-All (λ w. w.fd ≢ k) (λ w. not (w.fd == fd)) s.read_watches h.0,
  keep-All (λ w. w.fd ≢ k) (λ w. not (w.fd == fd)) s.aio_watches h.1,
)

removal-world : (fd : Option ℕ) (s : State) → (remove_watches fd s).rest ≡ s.rest
unfolding watch_remove_fd
removal-world none s = refl
removal-world (some fd) s = refl

-- What is left of a peripheral: no watch of its channels, no command, and not itself.
pub record IsClosed (addr : ℕ) (p : Peripheral) (s : State) : Type 0 where
  pub data_gone : Unwatched p.data_fd s.read_watches × Unwatched p.data_fd s.aio_watches
  pub cntl_gone : Unwatched p.cntl_fd s.read_watches × Unwatched p.cntl_fd s.aio_watches
  pub cmd_gone : Unwatched p.cmd_fd s.read_watches × Unwatched p.cmd_fd s.aio_watches
  pub commands : All (λ dc. is_owned addr dc ≡ false) s.rest.world.diag_cmds
  pub absent : find_peripheral addr s.rest.world.peripherals ≡ none

absent_lem :
    (addr : ℕ) (ps : List Peripheral)
    → find_peripheral addr (keep_if (λ q. not (q.id == addr)) ps) ≡ none
unfolding find_peripheral
absent_lem addr [] = refl
absent_lem addr (p ∷ ps) = elim (Bool-cases (p.id == addr)) [
  | inl here ↦ rw here (absent_lem addr ps)
  | inr there ↦ rw (there, find_peripheral, there) (absent_lem addr ps)
]

none_owned :
    (addr : ℕ) (cmds : List DiagCmd)
    → All (λ dc. is_owned addr dc ≡ false) (diag_cntl_close addr cmds)
unfolding diag_cntl_close
none_owned addr [] = tt
none_owned addr (dc ∷ cmds) = elim (Bool-cases (is_owned addr dc)) [
  | inl own ↦ rw own (none_owned addr cmds)
  | inr other ↦ rw other (other, none_owned addr cmds)
]

-- The close of a peripheral that is there succeeds: its commands and every watch of its three
-- channels go, and it is no more among the peripherals.
pub perif_rpmsg_close-IsClosed :
    (addr : ℕ) (p : Peripheral) (s : State)
    → the_peripheral addr s ≡ some p
    → (s' : State) × (perif_rpmsg_close addr s ≡ some s') × IsClosed addr p s'
unfolding perif_rpmsg_close
perif_rpmsg_close-IsClosed addr p s found =
    let s1 : State = on_world (λ w. record w { diag_cmds = diag_cntl_close addr w.diag_cmds }) s in
    let s2 : State = remove_watches p.data_fd s1 in
    let s3 : State = remove_watches p.cntl_fd s2 in
    let s4 : State = remove_watches p.cmd_fd s3 in
    let same =
      removal-world p.cmd_fd s3 ∙ removal-world p.cntl_fd s2 ∙ removal-world p.data_fd s1 in
    (
      on_world (λ w. record w { peripherals = keep_if (λ q. not (q.id == addr)) w.peripherals }) s4,
      rw (found, perif_rpmsg_close) refl,
      record {
        data_gone =
            removal-keeps p.cmd_fd p.data_fd s3
              (removal-keeps p.cntl_fd p.data_fd s2 (removed-Gone p.data_fd s1));
        cntl_gone = removal-keeps p.cmd_fd p.cntl_fd s3 (removed-Gone p.cntl_fd s2);
        cmd_gone = removed-Gone p.cmd_fd s3;
        commands =
            subst (λ r. All (λ dc. is_owned addr dc ≡ false) r.world.diag_cmds) (sym same)
              (none_owned addr s.rest.world.diag_cmds);
        absent = absent_lem addr s4.rest.world.peripherals;
      },
    )

removal-All :
    (P : Watch → Type 0) (fd : Option ℕ) (s : State)
    → All P s.read_watches
    → All P (remove_watches fd s).read_watches
unfolding watch_remove_fd
removal-All P none s h = h
removal-All P (some fd) s h = keep-All P (λ w. not (w.fd == fd)) s.read_watches h

data_removed :
    (P : Watch → Type 0) (fd : Option ℕ) (d : ℕ) (s : State)
    → fd ≡ some d
    → All P (keep_if (λ w. not (w.fd == d)) s.read_watches)
    → All P (remove_watches fd s).read_watches
unfolding watch_remove_fd
data_removed P fd d s e h = rw e h

-- What holds of the read watches off the data channel holds of all read watches after the close.
pub perif_rpmsg_close-All :
    (P : Watch → Type 0) (addr d : ℕ) (p : Peripheral) (s : State)
    → the_peripheral addr s ≡ some p
    → p.data_fd ≡ some d
    → All P (keep_if (λ w. not (w.fd == d)) s.read_watches)
    → (s' : State) × (perif_rpmsg_close addr s ≡ some s') × All P s'.read_watches
unfolding perif_rpmsg_close
perif_rpmsg_close-All P addr d p s found e h =
    let s1 : State = on_world (λ w. record w { diag_cmds = diag_cntl_close addr w.diag_cmds }) s in
    let s2 : State = remove_watches p.data_fd s1 in
    let s3 : State = remove_watches p.cntl_fd s2 in
    let s4 : State = remove_watches p.cmd_fd s3 in
    (
      on_world (λ w. record w { peripherals = keep_if (λ q. not (q.id == addr)) w.peripherals }) s4,
      rw (found, perif_rpmsg_close) refl,
      removal-All P p.cmd_fd s3 (removal-All P p.cntl_fd s2 (data_removed P p.data_fd d s1 e h)),
    )
