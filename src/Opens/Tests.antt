-- ===== src/Opens/Tests.antt =====
-- The bytes of the descriptors, and a kernel that gives numbers above all that are open.
use diag.Base.{
  ℕ, subst, suc, ◌+◌, ◌<◌, ◌≡◌, refl, ◌≢◌, ◌⊎◌, none, some, List, [], ◌∷◌, arith, length, replicate,
  All,
}
use diag.Bytes.{get32}
use diag.Syscalls.{gives, Process, SysKernel, open_fds}
use diag.Opens.{ffs_diag_init, check_baudrate}
use diag.Opens.Usb.{descriptors, strings}
use diag.Opens.Laws.{HasFresh, ffs_diag_init-open_fds}

-- The lengths in the headers are those of the tables.
descriptors_size : (length descriptors ≡ 105) × (get32 descriptors 4 ≡ 105)
unfolding descriptors get32
descriptors_size = (refl, refl)

strings_size : (length strings ≡ 33) × (get32 strings 4 ≡ 33)
unfolding strings get32
strings_size = (refl, refl)

baudrates : (check_baudrate 115200 ≡ 4098) × (check_baudrate 57600 ≡ 0)
unfolding check_baudrate
baudrates = (refl, refl)

abbrev total : List ℕ → ℕ
total [] = 0
total (d ∷ ds) = d + total ds

abbrev pub counting : SysKernel
counting = record {
  answers = λ log c. gives (suc (total (open_fds log)));
  settings = λ fd. record {
    c_iflag = 0;
    c_oflag = 0;
    c_cflag = 0xdbf;
    c_lflag = 0;
    c_cc = replicate 19 0;
  };
  hosts = λ name. none;
  errno_behind = λ name errno. errno;
}

below : (n : ℕ) (ds : List ℕ) → total ds < n → All (λ d. d ≢ n) ds
below n [] h = tt
below n (d ∷ ds) h = ((λ e. absurd (omega (arith, h, e))), below n ds (omega (arith, h)))

given : (n m : ℕ) → gives n ≡ gives m → n ≡ m
given n m e = ground (arith, e)

counting-HasFresh : HasFresh counting
counting-HasFresh log c fd o e =
    subst (λ n. All (λ d. d ≢ n) (open_fds log)) (given (suc (total (open_fds log))) fd e)
      (below (suc (total (open_fds log))) (open_fds log) (omega arith))

abbrev pub fresh_process : Process
fresh_process = record { log = []; errno = 0 }

ffs_diag_init-open_fds_example :
    (((ffs_diag_init counting (47 ∷ []) fresh_process).0 ≡ none)
      × (open_fds (ffs_diag_init counting (47 ∷ []) fresh_process).1.log ≡ open_fds []))
    ⊎ ((ep0 bulk_out bulk_in : ℕ) × ((ffs_diag_init counting (47 ∷ []) fresh_process).0
          ≡ some (ep0, bulk_out, bulk_in))
        × (open_fds (ffs_diag_init counting (47 ∷ []) fresh_process).1.log
            ≡ bulk_in ∷ bulk_out ∷ ep0 ∷ open_fds []))
ffs_diag_init-open_fds_example =
    ffs_diag_init-open_fds counting (47 ∷ []) fresh_process counting-HasFresh
