-- ===== src/Cntl/Control.antt =====
-- The switch of `diag_cntl_recv`, for one peripheral.
use diag.Base.{ℕ, Option, some, List, ◌==◌, if◌then◌else◌}
use diag.Bytes.{Bytes}
use diag.World.{Alloc, Peripheral, DiagCmd}
use diag.Queue.{◌>>=◌}
use diag.Masks.{Masks}
use diag.Cntl.{diag_cntl_register, diag_cntl_deregister}
use diag.Cntl.DiagIds.{Ids, diag_cntl_process_diag_id}
use diag.Cntl.Feature.{diag_cntl_feature_mask}

-- The peripheral whose packets they are, and what they change besides it.
pub record Session : Type 0 where
  pub peripheral : Peripheral
  pub diag_cmds : List DiagCmd
  pub ids : Ids

-- `n` is the length of the whole read; an unsupported packet is only reported.
unfoldable pub control : Alloc → (ℕ → ℕ) → Masks → ℕ → ℕ → Bytes → Session → Option Session
control alloc junk ms n cmd pkt s =
    if cmd == 1
    then some (record s { diag_cmds = diag_cntl_register alloc s.peripheral.id pkt s.diag_cmds })
    else if cmd == 8
    then (do
      p ← diag_cntl_feature_mask alloc junk ms pkt s.peripheral
      some (record s { peripheral = p }))
    else if cmd == 33
    then (do
      (r, p, ids) ← diag_cntl_process_diag_id alloc pkt n (s.peripheral, s.ids)
      some (record s { peripheral = p; ids = ids }))
    else if cmd == 27
    then some (record s { diag_cmds = diag_cntl_deregister s.peripheral.id pkt s.diag_cmds })
    else some s
