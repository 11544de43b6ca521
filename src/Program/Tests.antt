-- ===== src/Program/Tests.antt =====
-- A router with a modem whose control channel fails, and the theorem on it.
use diag.Base.{◌+◌, ◌≡◌, refl, true, Option, none, some, [], ◌∷◌, ◌++◌, arith, length, replicate}
use diag.CircBuf.{failed}
use diag.CircBuf.Tests.{empty_ring}
use diag.World.{diag_encode_raw}
use diag.Watch.{Watch, blank_watch}
use diag.Watch.Run.{call_all}
use diag.Daemon.{State, find_peripheral}
use diag.Daemon.Tests.{site, client, modem}
use diag.Perif.{rpmsg_perif_cntl_recv_of, diag_data_recv_of}
use diag.Perif.Nodes.{unknown_action}
use diag.Perif.Qrtr.{refused}
use diag.Transport.{ffs_other}
use diag.Program.{Outside, call, fire, complete, peripheral_udev_update_of}
use diag.World.{enoent}
use diag.Masks.Msg.{diag_msg_mask_init, create_msg_items, create_msg_item}
use diag.Masks.Log.{diag_log_mask_init, create_log_items}
use diag.Masks.Event.{diag_event_mask_init}
use diag.Syscalls.{is_negative, ◌>>=◌, SysKernel, Process, gives}
use diag.Transport.{UsbHandle}
use diag.Router.{dispatch_key, diag_cmd_dispatch}
use diag.Daemon.{on_world}
use diag.Perif.Nodes.{diag_name}
use diag.Program.{Start, set_up}
use diag.Program.Tables.{builtin_commands, lookup, answered_by}
use diag.Program.Ready.{set_up-dispatch}
use diag.Cstrings.{decimal}
use diag.Program.Getopt.{no_options, read_options}
use diag.Program.Getopt.Laws.{read_options-decimal}
use diag.Program.Laws.{call_all_cntl_fails}

-- Every read fails with EPIPE.
abbrev broken : Outside
broken = record {
  now = record { tv_sec = 1; tv_usec = 0 };
  fuel = 3;
  reads = λ fd round i room. failed 32;
  packets = λ fd. refused 102;
  connects = λ node port. true;
  accepted = none;
  ffs_event = ffs_other;
  open_at = λ path. none;
  usb = none;
  device = (none, unknown_action);
  stack = [];
  ring = empty_ring;
}

abbrev cntl : Watch
cntl = record (blank_watch 11 6) { cb = rpmsg_perif_cntl_recv_of 5 }

abbrev data_watch : Watch
data_watch = record (blank_watch 12 7) { cb = diag_data_recv_of 5; flow = some 5 }

-- The watch of udev, which main adds before.
abbrev udev : Watch
udev = record (blank_watch 3 4) { cb = peripheral_udev_update_of }

abbrev town : State
town = record (site (client diag_encode_raw)) { read_watches = udev ∷ cntl ∷ data_watch ∷ [] }

found : find_peripheral 5 (modem ∷ []) ≡ some modem
unfolding find_peripheral
found = refl

call_all_cntl_fails_example :
    call_all 3 (call broken) (fire broken) (complete broken) (6 ∷ []) town ≡ none
call_all_cntl_fails_example =
    call_all_cntl_fails broken 3 0 32 5 (6 ∷ []) modem (udev ∷ []) cntl data_watch [] town found
      refl refl refl
      (
        ((λ e. absurd (omega (arith, e))), ((λ e. absurd (omega (arith, e))), tt)),
        (((λ e. absurd (omega (arith, e))), tt), (tt, tt)),
      )
      (refl, tt) refl refl refl refl refl

-- A kernel whose every call gives the next number, and which knows one host.
abbrev generous : SysKernel
generous = record {
  answers = λ log c. gives (100 + length log);
  settings =
      λ fd. record { c_iflag = 0; c_oflag = 0; c_cflag = 0; c_lflag = 0; c_cc = replicate 19 0 };
  hosts = λ name. some (127 ∷ 0 ∷ 0 ∷ 1 ∷ []);
  errno_behind = λ name errno. errno;
}

abbrev fresh_process : Process
fresh_process = record { log = []; errno = 0 }

abbrev barren : State
barren = on_world (λ w. record w { diag_cmds = [] }) (site (client diag_encode_raw))

-- The program with one device and one subsystem, and a router without commands.
abbrev boot : Start
boot = record {
  kernel = generous;
  process = fresh_process;
  options = (115, 104 ∷ 58 ∷ 57 ∷ []) ∷ [];
  monitor = 40;
  devices = (some (47 ∷ []), some diag_name, none ∷ some (109 ∷ 112 ∷ 115 ∷ 115 ∷ []) ∷ []) ∷ [];
  subsystems = (41, 42, 43) ∷ [];
  freed = barren.rest.world.masks;
}

abbrev booted : Option UsbHandle × Process × State
booted = elim (set_up broken boot barren) [ none ↦ (none, fresh_process, barren) | some x ↦ x ]

booted-some : set_up broken boot barren ≡ some booted
unfolding set_up is_negative ◌>>=◌ diag_msg_mask_init create_msg_items create_msg_item
    diag_log_mask_init create_log_items diag_event_mask_init
booted-some = refl

set_up-dispatch_example :
    diag_cmd_dispatch 1 (0x60 ∷ 1 ∷ []) 2 booted.2.rest.world
    ≡ answered_by
        (lookup (dispatch_key (0x60 ∷ 1 ∷ [])) builtin_commands)
        (some (enoent, booted.2.rest.world))
        1
        (0x60 ∷ 1 ∷ [])
        2
        booted.2.rest.world
set_up-dispatch_example =
    set_up-dispatch broken boot barren booted.0 booted.1 booted.2 1 (0x60 ∷ 1 ∷ []) 2
      (refl, refl, refl) booted-some

-- "h:80" and "t@9600"
read_options-decimal_example :
    read_options
      ((115, (104 ∷ []) ++ (58 ∷ decimal 80)) ∷ (117, (116 ∷ []) ++ (64 ∷ decimal 9600)) ∷ [])
      no_options
    ≡ some (record {
      host_address = some (104 ∷ []);
      host_port = 80;
      uartdev = some (116 ∷ []);
      baudrate = 9600;
    })
read_options-decimal_example =
    read_options-decimal 104 116 [] [] 80 9600 (λ e. absurd (omega (arith, e))) tt
      (λ e. absurd (omega (arith, e))) tt (omega arith) (omega arith)
