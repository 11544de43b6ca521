-- ===== src/Transport/Failures.antt =====
-- The serial line and the socket of router/uart.c and router/socket.c: what their openings leave.
use diag.Base.{
  ℕ, subst, ◌+◌, ◌≡◌, refl, sym, ap, ◌∙◌, inl, inr, true, false, Option, none, some, List, [], ◌∷◌,
  ◌++◌, arith, ◌==◌, ==_refl, Bool-cases, Option-cases, All,
}
use diag.Bytes.{Bytes}
use diag.CircBuf.{CircBuf}
use diag.World.{DiagClient, diag_encode_hdlc}
use diag.Dm.{update_client}
use diag.Watch.{Watch, blank_watch}
use diag.Daemon.{State, dm_recv_of, outq_of}
use diag.Daemon.Client.{find_client}
use diag.Syscalls.{
  SysCall, Answer, socket, open_path, connect_host, tcflush, fcntl_setfl, ioctl_tcgets,
  ioctl_tcsets, gives, Process, SysKernel, CInt, plus, minus, open_fds, opened_by, gethostbyname,
  or_close, give, ◌>>=◌,
}
use diag.Opens.{
  check_baudrate, uart_flags, uart_options, uart_open, uart_settings, sock_open, o_nonblock,
}
use diag.Opens.Steps.{or_close-gives, bind-some, bind-none}
use diag.Opens.Calls.{
  Calls, BreaksOff, steps, Steps, went, broke, steps_lem, Plain, Calls-open_fds, BreaksOff-open_fds,
}
use diag.Transport.{diag_uart_open, diag_sock_connect, encoded_client}

-- The state has one more monitor, which is enabled, encodes by HDLC, reads from the descriptor and
-- writes its queue to it; nothing else of the monitors and the watches is changed.
pub record AddsClient (fd : ℕ) (s t : State) : Type 0 where
  pub dm : DiagClient
  pub reader : Watch
  pub writer : Watch
  pub clients : t.rest.world.clients ≡ s.rest.world.clients ++ (dm ∷ [])
  pub enabled : dm.enabled ≡ true
  pub encoding : dm.encode_type ≡ diag_encode_hdlc
  pub input : dm.in_fd ≡ some fd
  pub output : dm.out_fd ≡ fd
  pub reads : t.read_watches ≡ s.read_watches ++ (reader ∷ [])
  pub reads_from : reader.fd ≡ fd
  pub calls : reader.cb ≡ dm_recv_of dm.id
  pub writes : t.aio_watches ≡ s.aio_watches ++ (writer ∷ [])
  pub writes_to : writer.fd ≡ fd
  pub from_queue : writer.queue ≡ outq_of dm.id
  pub is_writer : writer.is_write ≡ true

update_client-last :
    (addr : ℕ) (g : DiagClient → DiagClient) (clients : List DiagClient) (dm : DiagClient)
    → find_client addr clients ≡ none
    → dm.id ≡ addr
    → update_client addr g (clients ++ (dm ∷ [])) ≡ clients ++ (g dm ∷ [])
unfolding update_client find_client
update_client-last addr g [] dm new at = rw (at, ==_refl addr) refl
update_client-last addr g (d ∷ clients) dm new at = elim (Bool-cases (d.id == addr)) [
  | inl taken ↦ absurd (ground (arith, rw taken at new))
  | inr other ↦
      rw (other, update_client)
        (ap (λ l. d ∷ l) (update_client-last addr g clients dm (rw other at new) at))
]

encoded_client-adds :
    (ring : CircBuf) (fd : ℕ) (s : State)
    → find_client s.fresh s.rest.world.clients ≡ none
    → AddsClient fd s (encoded_client ring fd s)
unfolding encoded_client
encoded_client-adds ring fd s new = record {
  dm = record new_client { enabled = true };
  reader = record (blank_watch (s.fresh + 1) fd) { cb = dm_recv_of s.fresh };
  writer = record (blank_watch (s.fresh + 1 + 1) fd) { queue = outq_of s.fresh; is_write = true };
  clients =
      update_client-last s.fresh (λ dm. record dm { enabled = true }) s.rest.world.clients
        new_client new refl;
  enabled = refl;
  encoding = refl;
  input = refl;
  output = refl;
  reads = refl;
  reads_from = refl;
  calls = refl;
  writes = refl;
  writes_to = refl;
  from_queue = refl;
  is_writer = refl;
}
  where
    new_client : DiagClient
    new_client = record {
      id = s.fresh;
      in_fd = some fd;
      out_fd = fd;
      encode_type = diag_encode_hdlc;
      encode_hdlc_reset = false;
      enabled = false;
      recv_buf = ring;
      outq = [];
    }

-- How an opening ends behind a descriptor that is open: by a monitor on it once each of the calls has
-- been made, or by -errno at the first that fails, with the state unchanged. The descriptor is open.
pub data Opened (fds : List ℕ) (cs : List SysCall) (log : List (SysCall × Answer)) (fd : ℕ)
    (s : State) : CInt × Process × State → Type 0 where
  serves :
      (q : Process) (t : State)
      → Calls cs log q.log
      → open_fds q.log ≡ fds
      → AddsClient fd s t
      → Opened fds cs log fd s (plus fd, q, t)
  gives_up :
      (q : Process)
      → BreaksOff cs log q.log q.errno
      → open_fds q.log ≡ fds
      → Opened fds cs log fd s (minus q.errno, q, s)

connected : CircBuf → State → Option ℕ × Process → CInt × Process × State
connected ring s r = elim r.0 [
  | none ↦ (minus r.1.errno, r.1, s)
  | some fd ↦ (plus fd, r.1, encoded_client ring fd s)
]

connected-Opened :
    (ring : CircBuf) (cs : List SysCall) (log : List (SysCall × Answer)) (fd : ℕ) (s : State)
    (r : Option ℕ × Process)
    → find_client s.fresh s.rest.world.clients ≡ none
    → All Plain cs
    → Steps cs fd log r
    → Opened (open_fds log) cs log fd s (connected ring s r)
unfolding connected
connected-Opened ring cs log fd s _ new plain (went q h) =
    serves q (encoded_client ring fd s) h (Calls-open_fds h plain)
      (encoded_client-adds ring fd s new)
connected-Opened ring cs log fd s _ new plain (broke q b) =
    gives_up q b (BreaksOff-open_fds cs log q.log q.errno b plain)

-- The calls on the line, and those on the socket.
abbrev pub uart_calls : SysKernel → ℕ → ℕ → List SysCall
uart_calls k fd speed =
    tcflush fd 2
    ∷ fcntl_setfl fd 0
    ∷ ioctl_tcgets fd
    ∷ ioctl_tcsets fd (uart_options speed (k.settings fd))
    ∷ []

abbrev pub sock_calls : ℕ → Bytes → ℕ → List SysCall
sock_calls fd host port = connect_host fd host port ∷ fcntl_setfl fd o_nonblock ∷ []

-- At a rate that is known and where no monitor has the address that a new one is given, once open(2)
-- gives the line: where flushing it, setting its flags, and
-- getting and setting its attributes all succeed, in this order, diag_uart_open returns the line's
-- descriptor and adds an enabled monitor with HDLC encoding that reads from it and writes to it; at
-- the first of them that fails it returns -errno and changes nothing. Either way the line stays open.
pub diag_uart_open-leaves :
    (k : SysKernel) (ring : CircBuf) (uartname : Bytes) (baudrate fd : ℕ) (p : Process) (s : State)
    → (check_baudrate baudrate == 0) ≡ false
    → k.answers p.log (open_path uartname uart_flags) ≡ gives fd
    → find_client s.fresh s.rest.world.clients ≡ none
    → Opened
        (fd ∷ open_fds p.log)
        (uart_calls k fd (check_baudrate baudrate))
        ((open_path uartname uart_flags, gives fd) ∷ p.log)
        fd
        s
        (diag_uart_open k ring uartname baudrate p s)
unfolding diag_uart_open connected open_fds opened_by uart_open uart_settings steps
diag_uart_open-leaves k ring uartname baudrate fd p s rate e new =
    let speed : ℕ = check_baudrate baudrate in
    let q : Process = record p { log = (open_path uartname uart_flags, gives fd) ∷ p.log } in
    let run : uart_open k uartname speed p ≡ steps k (uart_calls k fd speed) fd q =
      bind-some (or_close k (open_path uartname uart_flags) []) (λ fd. uart_settings k fd speed) fd
        p q (or_close-gives k (open_path uartname uart_flags) [] fd p e) in
    rw (rate) (
      subst
        (λ r. Opened (fd ∷ open_fds p.log) (uart_calls k fd speed) q.log fd s (connected ring s r))
        (sym run)
        (connected-Opened ring (uart_calls k fd speed) q.log fd s _ new
          ((λ a fds. refl), ((λ a fds. refl), ((λ a fds. refl), ((λ a fds. refl), tt))))
          (steps_lem k (uart_calls k fd speed) fd q)))

-- How the opening of a socket ends that socket(2) has given.
pub data SockOpened (k : SysKernel) (hostname : Bytes) (port fd : ℕ) (p : Process) (s : State)
    : CInt × Process × State → Type 0 where
  known :
      (host : Bytes) (r : CInt × Process × State)
      → k.hosts hostname ≡ some host
      → Opened
          (fd ∷ open_fds p.log)
          (sock_calls fd host port)
          ((socket 2 0x80001, gives fd) ∷ p.log)
          fd
          s
          r
      → SockOpened k hostname port fd p s r
  unknown :
      (q : Process)
      → k.hosts hostname ≡ none
      → q.errno ≡ k.errno_behind hostname p.errno
      → open_fds q.log ≡ fd ∷ open_fds p.log
      → SockOpened k hostname port fd p s (minus q.errno, q, s)

-- Where no monitor has the address that a new one is given, once socket(2) gives a socket and the name
-- of the host is known: where the socket connects to the
-- host and is then made non-blocking, diag_sock_connect returns the socket and adds an enabled monitor
-- with HDLC encoding that reads from it and writes to it; at the first of the two calls that fails it
-- returns -errno and changes nothing. Where the name is not known it returns the negation of the
-- errno that gethostbyname(3) leaves, which is not negative if that is 0, and changes nothing. In each case the socket stays
-- open.
pub diag_sock_connect-leaves :
    (k : SysKernel) (ring : CircBuf) (hostname : Bytes) (port fd : ℕ) (p : Process) (s : State)
    → k.answers p.log (socket 2 0x80001) ≡ gives fd
    → find_client s.fresh s.rest.world.clients ≡ none
    → SockOpened k hostname port fd p s (diag_sock_connect k ring hostname port p s)
unfolding diag_sock_connect connected open_fds opened_by sock_open gethostbyname steps
diag_sock_connect-leaves k ring hostname port fd p s e new =
    elim (Option-cases (k.hosts hostname)) [
      | inl missing ↦
          let run : sock_open k hostname port p ≡ (none, named) =
            opened ∙ bind-none (gethostbyname k hostname) _ q named (named_is none missing) in
          subst (λ r. SockOpened k hostname port fd p s (connected ring s r)) (sym run)
            (unknown named missing refl refl)
      | inr (host, found) ↦
          let run : sock_open k hostname port p ≡ steps k (sock_calls fd host port) fd named =
            opened
            ∙ bind-some (gethostbyname k hostname) _ host q named (named_is (some host) found) in
          subst (λ r. SockOpened k hostname port fd p s (connected ring s r)) (sym run)
            (known host _ found (
              connected-Opened ring (sock_calls fd host port) named.log fd s _ new
                ((λ a fds. refl), ((λ a fds. refl), tt))
                (steps_lem k (sock_calls fd host port) fd named)))
    ]
  where
    q : Process
    q = record p { log = (socket 2 0x80001, gives fd) ∷ p.log }

    named : Process
    named = record q { errno = k.errno_behind hostname p.errno }

    named_is : (o : Option Bytes) → k.hosts hostname ≡ o → gethostbyname k hostname q ≡ (o, named)
    named_is o h = ap (λ r. (r, named)) h

    opened :
        sock_open k hostname port p
        ≡ (gethostbyname k hostname >>= (λ host.
              or_close k (connect_host fd host port) []
              >>= (λ connected. or_close k (fcntl_setfl fd o_nonblock) [] >>= (λ set_up. give fd))))
            q
    opened =
        bind-some (or_close k (socket 2 0x80001) []) _ fd p q
          (or_close-gives k (socket 2 0x80001) [] fd p e)
