-- ===== src/Router.antt =====
-- router/router.c: the tables of commands and the dispatch of a client's command over them.
pub mod Dispatch
mod Tests
use diag.Base.{
  ℕ, ◌+◌, ◌*◌, ◌/◌, ◌%◌, ◌^◌, bit_or, Bool, true, false, ◌&&◌, ◌||◌, Option, none, some, List, [],
  ◌∷◌, ◌++◌, leb, ◌==◌, if◌then◌else◌, take,
}
use diag.Bytes.{Bytes, byte_at, u32}
use diag.World.{DiagCmd, Handler, Peripheral, Alloc, Ret, ok, enoent, einval, emsgsize}
use diag.Queue.{◌>>=◌, queue_push_flow, hdlc_enqueue_flow}
use diag.System.{World, Run, dm_send, returning}
use diag.Cmds.{call_handler}

-- `ptr[0] << 24 | ptr[1] << 16 | ptr[3] << 8 | ptr[2]` for a subsystem's command; for any other,
-- the code below 0xffff.
unfoldable pub dispatch_key : Bytes → ℕ
dispatch_key ptr =
    if byte_at ptr 0 == 75 || byte_at ptr 0 == 128
    then bit_or
        (bit_or (bit_or (u32 (byte_at ptr 0 * 2 ^ 24)) (byte_at ptr 1 * 2 ^ 16))
          (byte_at ptr 3 * 2 ^ 8))
        (byte_at ptr 2)
    else bit_or 0xffff0000 (byte_at ptr 0)

-- Whether a key lies outside a command's range is the test that skips it.
abbrev pub covers : ℕ → DiagCmd → Bool
covers key dc = leb dc.first key && leb key dc.last

-- The first command that covers a key.
unfoldable pub find_cmd : ℕ → List DiagCmd → Option DiagCmd
find_cmd key [] = none
find_cmd key (dc ∷ cmds) = if covers key dc then some dc else find_cmd key cmds

-- `DIAG_FEATURE_REQ_RSP_SUPPORT` and `DIAG_FEATURE_APPS_HDLC_ENCODE`.
abbrev pub has_feature : ℕ → ℕ → Bool
has_feature bit features = features / 2 ^ bit % 2 == 1

-- `perif_rpmsg_send` of router/peripheral-rpmsg.c.
unfoldable pub perif_rpmsg_send : Alloc → Bytes → Peripheral → Option Peripheral
perif_rpmsg_send alloc msg p =
    let queue = (if has_feature 4 p.features then p.cmdq else p.dataq) in
    do
      (q, f) ←
          (if has_feature 6 p.features
            then queue_push_flow alloc (queue, λ g. 0) msg none
            else hdlc_enqueue_flow alloc (queue, λ g. 0) msg none)
      some (if has_feature 4 p.features then record p { cmdq = q } else record p { dataq = q })

-- `qrtr_perif_send` of router/peripheral-qrtr.c.
unfoldable pub qrtr_perif_send : Alloc → Bytes → Peripheral → Option Peripheral
qrtr_perif_send alloc msg p = do
  (q, f) ←
      (if has_feature 6 p.features
        then queue_push_flow alloc (p.cmdq, λ g. 0) msg none
        else hdlc_enqueue_flow alloc (p.cmdq, λ g. 0) msg none)
  some (record p { cmdq = q })

-- `perif->send` of the peripheral at an address.
unfoldable pub peripheral_send : Alloc → ℕ → Bytes → List Peripheral → Option (List Peripheral)
unfolding perif_rpmsg_send qrtr_perif_send
peripheral_send alloc addr msg [] = none
peripheral_send alloc addr msg (p ∷ ps) = elim (p.id == addr) [
  | true ↦ do
    p' ← (if p.sockets then qrtr_perif_send alloc msg p else perif_rpmsg_send alloc msg p)
    some (p' ∷ ps)
  | false ↦ do rest ← peripheral_send alloc addr msg ps; some (p ∷ rest)
]

-- One registered command: its callback, or its peripheral. A command has one of the two.
unfoldable pub deliver_cmd : DiagCmd → ℕ → Bytes → ℕ → World → Option World
deliver_cmd dc addr ptr len w = elim dc.cb [
  | some h ↦ do (r, w') ← call_handler h addr ptr len w; some w'
  | none ↦ elim dc.peripheral [
    | none ↦ none
    | some p ↦ do
      ps ← peripheral_send w.alloc p (take len ptr) w.peripherals
      some (record w { peripherals = ps })
  ]
]

-- Every registered command that covers the key, with their number.
unfoldable pub deliver_all : ℕ → List DiagCmd → ℕ → Bytes → ℕ → World → Option (ℕ × World)
deliver_all key [] addr ptr len w = some (0, w)
deliver_all key (dc ∷ cmds) addr ptr len w = elim (covers key dc) [
  | true ↦ do
    w' ← deliver_cmd dc addr ptr len w
    (n, w'') ← deliver_all key cmds addr ptr len w'
    some (n + 1, w'')
  | false ↦ deliver_all key cmds addr ptr len w
]

-- A callback's result; a null callback is a fault.
unfoldable pub call_cmd : DiagCmd → ℕ → Bytes → ℕ → Run
call_cmd dc addr ptr len w = elim dc.cb [ none ↦ none | some h ↦ call_handler h addr ptr len w ]

unfoldable pub dispatch_fallback : ℕ → ℕ → Bytes → ℕ → Run
dispatch_fallback key addr ptr len w = elim (find_cmd key w.fallback_cmds) [
  | some dc ↦ call_cmd dc addr ptr len w
  | none ↦ some (enoent, w)
]

unfoldable pub diag_cmd_dispatch : ℕ → Bytes → ℕ → Run
diag_cmd_dispatch addr ptr len w =
    let key = dispatch_key ptr in
    elim (find_cmd key w.common_cmds) [
      | some dc ↦ call_cmd dc addr ptr len w
      | none ↦ do
        (handled, w') ← deliver_all key w.diag_cmds addr ptr len w
        if handled == 0 then dispatch_fallback key addr ptr len w' else some (ok, w')
    ]

-- The error code, and the command behind it; the process exits where there is no memory for it.
unfoldable pub diag_rsp_bad_command : ℕ → Bytes → ℕ → ℕ → Run
diag_rsp_bad_command addr msg len code w =
    if w.alloc (len + 1) then dm_send addr (code ∷ take len msg) w else none

-- The response code of each error that is reported.
unfoldable pub bad_code : Ret → Option ℕ
bad_code enoent = some 0x13
bad_code einval = some 0x14
bad_code emsgsize = some 0x15
bad_code _ = none

unfoldable pub diag_client_handle_command : ℕ → Bytes → ℕ → Run
diag_client_handle_command addr ptr len w = do
  (ret, w') ← diag_cmd_dispatch addr ptr len w
  elim (bad_code ret) [
    | some code ↦ returning ok (diag_rsp_bad_command addr ptr len code) w'
    | none ↦ some (ok, w')
  ]

abbrev pub callback : ℕ → Handler → DiagCmd
callback key h = record { first = key; last = key; peripheral = none; cb = some h }

unfoldable pub register_fallback_cmd : ℕ → Handler → List DiagCmd → List DiagCmd
register_fallback_cmd cmd h cmds = cmds ++ (callback (bit_or 0xffff0000 cmd) h ∷ [])

unfoldable pub register_fallback_subsys_cmd : ℕ → ℕ → Handler → List DiagCmd → List DiagCmd
register_fallback_subsys_cmd subsys cmd h cmds =
    cmds ++ (callback (bit_or (bit_or (75 * 2 ^ 24) (subsys % 256 * 2 ^ 16)) cmd) h ∷ [])

unfoldable pub register_common_cmd : ℕ → Handler → List DiagCmd → List DiagCmd
register_common_cmd cmd h cmds = cmds ++ (callback (bit_or 0xffff0000 cmd) h ∷ [])
