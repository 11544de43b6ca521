-- ===== src/Transport/Tests.antt =====
-- A transfer with two frames, and the theorems on transfers.
use diag.Base.{◌<◌, ◌≡◌, refl, none, some, List, [], ◌∷◌, ◌++◌, arith, length, length-append}
use diag.Bytes.{Bytes}
use diag.World.{Mbuf, diag_encode_hdlc}
use diag.Hdlc.{hdlc_encode}
use diag.Hdlc.Encode.{length-hdlc_encode}
use diag.Queue.{◌>>=◌}
use diag.Watch.{Timeval}
use diag.Daemon.{handle_command}
use diag.Daemon.Client.{find_client}
use diag.Daemon.Tests.{site, client}
use diag.Dm.Recv.{frames, handle_all}
use diag.Transport.{UsbHandle, diag_ffs_recv}
use diag.CircBuf.Tests.{empty_ring}
use diag.Daemon.{State}
use diag.Syscalls.{gives, open_path, open_fds}
use diag.Opens.{check_baudrate, uart_flags}
use diag.Opens.Tests.{counting, fresh_process}
use diag.Transport.{diag_uart_open, diag_sock_connect}
use diag.Transport.Failures.{
  Opened, SockOpened, uart_calls, diag_uart_open-leaves, diag_sock_connect-leaves,
}
use diag.Transport.Laws.{requeued, diag_ffs_recv-frames}

abbrev usb : UsbHandle
usb = record { ep0 = 30; bulk_out = 31; bulk_in = 32; dm = 1; outq = 33; node = 34 }

abbrev requests : List Bytes
requests = (0 ∷ []) ∷ (0x7e ∷ 1 ∷ []) ∷ []

abbrev part : Bytes
part = 5 ∷ 6 ∷ []

abbrev transfer : Mbuf
transfer = record {
  size = 16384;
  offset = length (frames requests ++ part);
  flow = none;
  payload = frames requests ++ part;
}

short : transfer.offset < 16384
unfolding frames
short = omega (
  arith,
  length-append {0} (frames requests) part,
  length-append {0} (hdlc_encode (0 ∷ [])) (hdlc_encode (0x7e ∷ 1 ∷ []) ++ []),
  length-append {0} (hdlc_encode (0x7e ∷ 1 ∷ [])) [],
  length-hdlc_encode (0 ∷ []),
  length-hdlc_encode (0x7e ∷ 1 ∷ []),
)

abbrev dawn : Timeval
dawn = record { tv_sec = 0; tv_usec = 0 }

found : find_client 1 (client diag_encode_hdlc ∷ []) ≡ some (client diag_encode_hdlc)
unfolding find_client
found = refl

diag_ffs_recv-frames_example : diag_ffs_recv dawn usb transfer (site (client diag_encode_hdlc)) ≡ (
    handle_all (handle_command 1) requests (site (client diag_encode_hdlc)) >>= λ t.
    some (requeued usb transfer t))
diag_ffs_recv-frames_example =
    diag_ffs_recv-frames dawn usb (client diag_encode_hdlc) transfer requests part
      (site (client diag_encode_hdlc)) found refl
      ((λ e. absurd (omega (arith, e))), ((λ e. absurd (omega (arith, e))), tt)) refl refl short

abbrev town : State
town = site (client diag_encode_hdlc)

-- The kernel that gives numbers above all that are open, and knows no host.
diag_uart_open-leaves_example :
    Opened
      (1 ∷ [])
      (uart_calls counting 1 4098)
      ((open_path (47 ∷ []) uart_flags, gives 1) ∷ [])
      1
      town
      (diag_uart_open counting empty_ring (47 ∷ []) 115200 fresh_process town)
unfolding check_baudrate open_fds find_client
diag_uart_open-leaves_example =
    diag_uart_open-leaves counting empty_ring (47 ∷ []) 115200 1 fresh_process town refl refl refl

diag_sock_connect-leaves_example :
    SockOpened counting
      (104 ∷ [])
      2500
      1
      fresh_process
      town
      (diag_sock_connect counting empty_ring (104 ∷ []) 2500 fresh_process town)
unfolding open_fds find_client
diag_sock_connect-leaves_example =
    diag_sock_connect-leaves counting empty_ring (104 ∷ []) 2500 1 fresh_process town refl refl
