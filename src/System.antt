-- ===== src/System.antt =====
-- The state that the commands and the control packets work on, and how a command answers a client.
use diag.Base.{ℕ, true, false, Option, none, some, List, [], ◌∷◌, ◌==◌}
use diag.Bytes.{Bytes}
use diag.World.{Alloc, Flows, DiagClient, Peripheral, DiagCmd, Ret}
use diag.Queue.{◌>>=◌}
use diag.Masks.{Masks}
use diag.Dm.{dm_send_flow}

-- An entry of `diag_ids`: the stored `uint8_t`, and the name with its closing zero.
pub record DiagId : Type 0 where
  pub diag_id : ℕ
  pub process_name : Bytes

-- `alloc` and `junk` are the allocator's answers and what unwritten memory holds.
pub record World : Type 0 where
  pub alloc : Alloc
  pub junk : ℕ → ℕ
  pub clients : List DiagClient
  pub flows : Flows
  pub peripherals : List Peripheral
  pub masks : Masks
  pub diag_ids : List DiagId
  pub diag_id : ℕ
  pub common_cmds : List DiagCmd
  pub diag_cmds : List DiagCmd
  pub fallback_cmds : List DiagCmd

-- An operation; `none` is a fault or the exit of the process.
abbrev pub Run : Type 0
Run = World → Option (Ret × World)

-- The client at an address gets a message; the other clients stay.
unfoldable pub send_to :
    Alloc → ℕ → List DiagClient → Flows → Bytes → Option (Ret × List DiagClient × Flows)
send_to alloc addr [] flows msg = none
send_to alloc addr (dm ∷ clients) flows msg = elim (dm.id == addr) [
  | true ↦ do (r, dm', f') ← dm_send_flow alloc (dm, flows) msg none; some (r, dm' ∷ clients, f')
  | false ↦ do (r, rest, f') ← send_to alloc addr clients flows msg; some (r, dm ∷ rest, f')
]

unfoldable pub dm_send : ℕ → Bytes → Run
dm_send addr msg w = do
  (r, clients, flows) ← send_to w.alloc addr w.clients w.flows msg
  some (r, record w { clients = clients; flows = flows })

-- The operation's result is dropped.
unfoldable pub returning : Ret → Run → Run
returning ret m w = do (r, w') ← m w; some (ret, w')
