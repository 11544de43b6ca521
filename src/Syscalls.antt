-- ===== src/Syscalls.antt =====
-- The system calls that open and set up descriptors, in the order in which they are made, and the
-- descriptors that are open behind them. The kernel is a parameter.
use diag.Base.{ℕ, Bool, true, false, not, Option, none, some, List, [], ◌∷◌, ◌==◌, keep_if}
use diag.Bytes.{Bytes}

-- `struct termios` of the kernel's headers.
pub record Termios : Type 0 where
  pub c_iflag : ℕ
  pub c_oflag : ℕ
  pub c_cflag : ℕ
  pub c_lflag : ℕ
  pub c_cc : List ℕ

-- The calls with what the code gives them; an address of a Unix socket is its name, and that of a
-- host its bytes and its port.
pub data SysCall : Type 0 where
  open_path : Bytes → ℕ → SysCall
  openat : ℕ → Bytes → ℕ → SysCall
  socket : ℕ → ℕ → SysCall
  close : ℕ → SysCall
  write : ℕ → Bytes → SysCall
  tcflush : ℕ → ℕ → SysCall
  fcntl_setfl : ℕ → ℕ → SysCall
  ioctl_tcgets : ℕ → SysCall
  ioctl_tcsets : ℕ → Termios → SysCall
  connect_host : ℕ → Bytes → ℕ → SysCall
  connect_unix : ℕ → Bytes → SysCall
  bind_unix : ℕ → Bytes → SysCall
  listen : ℕ → ℕ → SysCall

-- A call gives a number, or fails with an errno.
pub data Answer : Type 0 where
  gives : ℕ → Answer
  fails : ℕ → Answer

-- The calls of the process and their answers, the newest first, and errno.
pub record Process : Type 0 where
  pub log : List (SysCall × Answer)
  pub errno : ℕ

-- The kernel's answer to a call, behind the calls before it. `settings` are those of a serial line,
-- and `hosts` is what gethostbyname(3) gives for a name; its failure is told by h_errno, and
-- `errno_behind` is what errno is then, for what it was before.
pub record SysKernel : Type 0 where
  pub answers : List (SysCall × Answer) → SysCall → Answer
  pub settings : ℕ → Termios
  pub hosts : Bytes → Option Bytes
  pub errno_behind : Bytes → ℕ → ℕ

-- A call: the number it gives, if it does not fail.
unfoldable pub ask : SysKernel → SysCall → Process → Option ℕ × Process
ask k c p = elim (k.answers p.log c) [
  | gives n ↦ (some n, record p { log = (c, gives n) ∷ p.log })
  | fails e ↦ (none, record { log = (c, fails e) ∷ p.log; errno = e })
]

-- What a function returns: a number that is not negative, or the negation of one.
pub data CInt : Type 0 where
  plus : ℕ → CInt
  minus : ℕ → CInt

-- `ret < 0`, where `minus 0` is 0.
unfoldable pub is_negative : CInt → Bool
is_negative (plus n) = false
is_negative (minus n) = not (n == 0)

-- The descriptors that the answer to a call leaves open; close(2) releases its descriptor whatever
-- it answers.
unfoldable pub opened_by : SysCall → Answer → List ℕ → List ℕ
opened_by (close fd) a fds = keep_if (λ d. not (d == fd)) fds
opened_by (open_path path flags) (gives fd) fds = fd ∷ fds
opened_by (openat dir path flags) (gives fd) fds = fd ∷ fds
opened_by (socket domain type) (gives fd) fds = fd ∷ fds
opened_by _ _ fds = fds

unfoldable pub open_fds : List (SysCall × Answer) → List ℕ
unfolding opened_by
open_fds [] = []
open_fds ((c, a) ∷ log) = opened_by c a (open_fds log)

-- open(2), openat(2) and socket(2) give a descriptor that is not open.
unfoldable pub opens : SysCall → Bool
opens (open_path path flags) = true
opens (openat dir path flags) = true
opens (socket domain type) = true
opens _ = false

-- A part of a function that returns early where a call fails.
abbrev pub Opening {ℓ} : Type ℓ → Type ℓ
Opening A = Process → Option A × Process

infixl 5 ◌>>=◌
unfoldable pub ◌>>=◌ {ℓ κ} : {A : Type ℓ} {B : Type κ} → Opening A → (A → Opening B) → Opening B
(m >>= f) p = let (r, q) = m p in elim r [ none ↦ (none, q) | some a ↦ f a q ]

-- `return` of a value, at the end of such a part.
unfoldable pub give {ℓ} : {A : Type ℓ} → A → Opening A
give a p = (some a, p)

-- close(2) of descriptors, the first first.
unfoldable pub close_all : SysKernel → List ℕ → Process → Process
unfolding ask
close_all k [] p = p
close_all k (fd ∷ fds) p = close_all k fds (ask k (close fd) p).1

-- A call, and where it fails the closes at the label that the code goes to.
unfoldable pub or_close : SysKernel → SysCall → List ℕ → Opening ℕ
unfolding ask close_all
or_close k c fds p =
    let (r, q) = ask k c p in elim r [ none ↦ (none, close_all k fds q) | some n ↦ (some n, q) ]

-- gethostbyname(3), which may change errno.
unfoldable pub gethostbyname : SysKernel → Bytes → Opening Bytes
gethostbyname k name p = (k.hosts name, record p { errno = k.errno_behind name p.errno })

-- A close(2) whose answer is not looked at.
unfoldable pub released : SysKernel → ℕ → Opening {0} Unit
unfolding ask
released k fd p = (some tt, (ask k (close fd) p).1)
