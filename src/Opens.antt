-- ===== src/Opens.antt =====
-- The descriptors that the transports open: ffs_diag_init of router/usb.c, and router/uart.c, socket.c
-- and unix.c up to the monitor that they add. The numbers of flags and requests are those of the
-- kernel's generic headers.
pub mod Usb
pub mod Laws
pub mod Steps
pub mod Calls
pub mod Tests
use diag.Base.{
  ℕ, subst, zero, suc, ◌+◌, ◌-◌, ◌*◌, ◌/◌, ◌%◌, ◌^◌, ◌≤◌, ◌<◌, min, bit_and, bit_or, bit_xor, ◌≡◌,
  refl, sym, ap, ap₂, ◌∙◌, ◌≢◌, ◌↔◌, ◌⊎◌, inl, inr, Bool, true, false, not, ◌&&◌, ◌||◌, Option,
  none, some, List, [], ◌∷◌, ◌++◌, map, append-nil, append_assoc, arith, ltb, leb, ◌==◌,
  if◌then◌else◌, ltb→lt, ==_iff, ==_refl, Bool-cases, Option-cases, length, get_elem?, get_or, set,
  take, drop, replicate, keep_if, length-append, length-set, length-take, length-drop,
  length-replicate, get_or-set_self, get_or-set_ne, take-append, drop-append, All, All-append,
  passes_below, passes_below-lt, bit_xor_step, bit_xor-zero, bit_xor_fields, bit_xor-lt,
}
use diag.Bytes.{Bytes, zeros}
use diag.Syscalls.{
  Termios, open_path, openat, socket, write, tcflush, fcntl_setfl, ioctl_tcgets, ioctl_tcsets,
  connect_host, bind_unix, listen, SysKernel, Opening, ◌>>=◌, give, or_close, released,
  gethostbyname,
}
use diag.Opens.Usb.{descriptors, strings}

abbrev pub o_rdwr : ℕ
o_rdwr = 2

abbrev pub o_noctty : ℕ
o_noctty = 256

abbrev pub o_nonblock : ℕ
o_nonblock = 2048

abbrev pub o_directory : ℕ
o_directory = 65536

-- "ep0", "ep1" and "ep2"
abbrev pub usb_ffs_ep0_name : Bytes
usb_ffs_ep0_name = 101 ∷ 112 ∷ 48 ∷ []

abbrev pub usb_ffs_out_name : Bytes
usb_ffs_out_name = 101 ∷ 112 ∷ 49 ∷ []

abbrev pub usb_ffs_in_name : Bytes
usb_ffs_in_name = 101 ∷ 112 ∷ 50 ∷ []

-- The three endpoints, control, bulk-out and bulk-in, that the handle gets. A failure returns -1,
-- after the closes at its label.
unfoldable pub ffs_diag_init : SysKernel → Bytes → Opening (ℕ × ℕ × ℕ)
unfolding or_close descriptors strings released give
ffs_diag_init k ffs_name = do
  ffs_fd ← or_close k (open_path ffs_name o_directory) []
  ep0 ← or_close k (openat ffs_fd usb_ffs_ep0_name o_rdwr) (ffs_fd ∷ [])
  n ← or_close k (write ep0 descriptors) (ep0 ∷ ffs_fd ∷ [])
  m ← or_close k (write ep0 strings) (ep0 ∷ ffs_fd ∷ [])
  bulk_out ←
      or_close k (openat ffs_fd usb_ffs_out_name (bit_or o_rdwr (bit_or o_noctty o_nonblock)))
        (ep0 ∷ ffs_fd ∷ [])
  bulk_in ← or_close k (openat ffs_fd usb_ffs_in_name o_rdwr) (bulk_out ∷ ep0 ∷ ffs_fd ∷ [])
  closed ← released k ffs_fd
  give (ep0, bulk_out, bulk_in)

-- B9600, B19200, B38400 and B115200; 0 for another rate.
unfoldable pub check_baudrate : ℕ → ℕ
check_baudrate baudrate =
    if baudrate == 9600
    then 13
    else if baudrate == 19200
    then 14
    else if baudrate == 38400
    then 15
    else if baudrate == 115200
    then 4098
    else 0

abbrev pub parenb : ℕ
parenb = 256

abbrev pub cstopb : ℕ
cstopb = 64

abbrev pub csize : ℕ
csize = 48

abbrev pub cs8 : ℕ
cs8 = 48

abbrev pub clocal : ℕ
clocal = 2048

abbrev pub cread : ℕ
cread = 128

abbrev pub cbaud : ℕ
cbaud = 4111

-- `flags & ~mask` on 32 bits.
abbrev pub without : ℕ → ℕ → ℕ
without flags mask = bit_and flags (bit_xor mask 0xffffffff)

-- `options` of `diag_uart_open` from `options_save`; VTIME is 5 and VMIN is 6.
unfoldable pub uart_options : ℕ → Termios → Termios
uart_options baudrate options_save = record {
  c_iflag = 0;
  c_oflag = 0;
  c_cflag =
      bit_or
        (without
          (bit_or (without (without (without options_save.c_cflag parenb) cstopb) csize)
            (bit_or cs8 (bit_or clocal cread)))
          cbaud)
        (bit_and baudrate cbaud);
  c_lflag = 0;
  c_cc = set (set options_save.c_cc 5 0) 6 4;
}

-- `diag_uart_open` from the open line up to the monitor. TCIOFLUSH is 2.
unfoldable pub uart_settings : SysKernel → ℕ → ℕ → Opening ℕ
unfolding or_close uart_options give
uart_settings k fd baudrate = do
  flushed ← or_close k (tcflush fd 2) []
  blocks ← or_close k (fcntl_setfl fd 0) []
  got ← or_close k (ioctl_tcgets fd) []
  done ← or_close k (ioctl_tcsets fd (uart_options baudrate (k.settings fd))) []
  give fd

-- The flags of the line's open(2).
abbrev pub uart_flags : ℕ
uart_flags = bit_or o_rdwr (bit_or o_noctty o_nonblock)

-- `diag_uart_open` once the rate is known, up to the monitor.
unfoldable pub uart_open : SysKernel → Bytes → ℕ → Opening ℕ
unfolding or_close uart_settings
uart_open k uartname baudrate = do
  fd ← or_close k (open_path uartname uart_flags) []
  uart_settings k fd baudrate

-- `diag_sock_connect` up to the monitor. AF_INET is 2 and SOCK_STREAM | SOCK_CLOEXEC is 0x80001.
unfoldable pub sock_open : SysKernel → Bytes → ℕ → Opening ℕ
unfolding or_close gethostbyname give
sock_open k hostname port = do
  fd ← or_close k (socket 2 0x80001) []
  host ← gethostbyname k hostname
  connected ← or_close k (connect_host fd host port) []
  set_up ← or_close k (fcntl_setfl fd o_nonblock) []
  give fd

-- `sun_path`: a zero, "diag", and the rest of its 108 bytes cleared.
unfoldable pub sun_path : Bytes
unfolding zeros
sun_path = (0 ∷ 100 ∷ 105 ∷ 97 ∷ 103 ∷ []) ++ zeros 103

-- `diag_unix_open` up to the watch. AF_UNIX is 1 and SOCK_SEQPACKET is 5.
unfoldable pub unix_open : SysKernel → Opening ℕ
unfolding or_close sun_path give
unix_open k = do
  fd ← or_close k (socket 1 5) []
  bound ← or_close k (bind_unix fd sun_path) []
  listens ← or_close k (listen fd 2) []
  give fd
