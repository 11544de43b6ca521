-- ===== src/Program/Ready.antt =====
-- Packets behind the start of main in router/diag.c.
use diag.Base.{ℕ, subst, ◌≡◌, ap, Option, none, some, if◌then◌else◌}
use diag.Bytes.{Bytes}
use diag.World.{enoent}
use diag.Syscalls.{Process, is_negative}
use diag.Router.{dispatch_key, diag_cmd_dispatch}
use diag.Daemon.{State}
use diag.Daemon.Register.{register_common_cmds, register_app_cmds}
use diag.Transport.{UsbHandle, diag_usb_open, diag_unix_open}
use diag.Program.{
  Outside, Start, subsystem_names, peripheral_qrtr_init, peripheral_rpmsg_init, open_client, set_up,
  ffs_diag,
}
use diag.Program.Getopt.{no_options, read_options}
use diag.Program.Tables.{HasBuiltins, dispatch-builtin, builtin_commands, lookup, answered_by}
use diag.Program.Blank.{
  IsBlank, Always, bind-Always, any-Always, open_client-IsBlank, diag_usb_open-IsBlank,
  if_fine-Always, diag_unix_open-IsBlank, init_subsystems-IsBlank, peripheral_rpmsg_init-IsBlank,
}

-- What main leaves, once it reaches the event loop.
pub set_up-HasBuiltins :
    (o : Outside) (start : Start) (s : State)
    → IsBlank s
    → Always (λ x. HasBuiltins x.2.rest.world) (set_up o start s)
unfolding set_up peripheral_qrtr_init Always
set_up-HasBuiltins o start s h =
    bind-Always (λ options. Unit) _ (read_options start.options no_options) _
      (any-Always (read_options start.options no_options))
      (λ options u.
        bind-Always (λ x. IsBlank x.1) _ (open_client start.kernel o.ring options start.process s) _
          (open_client-IsBlank start.kernel o.ring options start.process s h)
          (λ x1 h1.
            bind-Always (λ x. IsBlank x.2) _ (diag_usb_open start.kernel o.ring ffs_diag x1.0 x1.1)
              _ (diag_usb_open-IsBlank start.kernel o.ring ffs_diag x1.0 x1.1 h1)
              (λ x2 h2.
                bind-Always (λ x. IsBlank x.1) _
                  (if is_negative (diag_unix_open start.kernel x2.1 x2.2).0
                    then none
                    else some (
                      (diag_unix_open start.kernel x2.1 x2.2).1,
                      (diag_unix_open start.kernel x2.1 x2.2).2,
                    ))
                  _ (if_fine-Always _ _ _ (diag_unix_open-IsBlank start.kernel x2.1 x2.2 h2))
                  (λ x4 h4.
                    let ready =
                      init_subsystems-IsBlank o.ring subsystem_names start.subsystems
                        (peripheral_rpmsg_init o start.monitor start.devices x4.1)
                        (peripheral_rpmsg_init-IsBlank o start.monitor start.devices x4.1 h4) in
                    (ap register_common_cmds ready.0, ready.1, ap register_app_cmds ready.2)))))

-- Where no command was registered before, main that reaches the event loop has set up the router so that
-- each packet is answered by the handler of its key in the list of the eleven commands that the router
-- knows itself, and by no handler where the list has none.
pub set_up-dispatch :
    (o : Outside) (start : Start) (s : State) (usb : Option UsbHandle) (p : Process) (t : State)
    (addr : ℕ) (ptr : Bytes) (len : ℕ)
    → IsBlank s
    → set_up o start s ≡ some (usb, p, t)
    → diag_cmd_dispatch addr ptr len t.rest.world
      ≡ answered_by
          (lookup (dispatch_key ptr) builtin_commands)
          (some (enoent, t.rest.world))
          addr
          ptr
          len
          t.rest.world
unfolding Always
set_up-dispatch o start s usb p t addr ptr len h e =
    dispatch-builtin addr ptr len t.rest.world
      (subst (Always (λ x. HasBuiltins x.2.rest.world)) e (set_up-HasBuiltins o start s h))
