-- ===== src/Masks.antt =====
-- router/masks.c and router/masks.h: the log, message and event masks that clients set and that are
-- sent to the peripherals. Each operation takes the mask that it works on and returns it; `none` is
-- an access outside an allocated block.
pub mod Memory
pub mod Log
pub mod Msg
pub mod Event
use Memory.{Result, done, absent, failed}
use diag.Base.{Option, none, some}
use diag.World.{Alloc}
use Log.{LogMask, diag_log_mask_init}
use Msg.{MsgMask, diag_msg_mask_init}
use Event.{EventMask, diag_event_mask_init}

pub record Masks : Type 0 where
  pub msg : MsgMask
  pub bt : MsgMask
  pub log : LogMask
  pub event : EventMask

-- On any failure what was allocated is freed, and -ENOMEM is returned.
unfoldable pub diag_masks_init : Alloc → Option Masks
diag_masks_init alloc = elim (diag_msg_mask_init alloc) [
  | none ↦ none
  | some msg ↦ elim (diag_msg_mask_init alloc) [
    | none ↦ none
    | some bt ↦ elim (diag_log_mask_init alloc) [
      | none ↦ none
      | some log ↦ elim (diag_event_mask_init alloc) [
        | none ↦ none
        | some event ↦ some (record { msg = msg; bt = bt; log = log; event = event })
      ]
    ]
  ]
]
