-- ===== src/Cntl/Layout/Tests.antt =====
-- Packets with two ranges, and the mask packets of small masks.
use diag.Base.{◌≡◌, refl, true, none, some, List, [], ◌∷◌, arith}
use diag.World.{DiagCmd, Peripheral}
use diag.Masks.{Masks}
use diag.Masks.Event.{diag_cmd_get_event_mask}
use diag.Daemon.Tests.{modem}
use diag.Queue.{queue_push_flow}
use diag.Cntl.Layout.Sent.{Sends, AreSized, send_masks-Sends}
use diag.Bytes.{le32, bits_to_bytes}
use diag.Masks.Memory.{copy_out}
use diag.Cntl.Send.{
  diag_cntl_send_log_mask, diag_cntl_send_event_mask, push_cntl, event_mask_packet,
}
use diag.Cntl.{diag_cntl_register, diag_cntl_deregister, is_owned}
use diag.Cntl.Layout.Register.{Range, registration, AreHalves}
use diag.Cntl.Layout.Deregister.{deregistration, keys_of}
use diag.Cntl.Layout.Restore.{Unnamed, diag_cntl_deregister-register}

-- Commands of the subsystem 18, and one that another peripheral has.
abbrev ranges : List Range
ranges = (0x100, 0x1ff, 0) ∷ (0x200, 0x200, 1) ∷ []

abbrev present : List DiagCmd
present = record { first = 0x4b120300; last = 0x4b120300; peripheral = some 6; cb = none } ∷ []

ranges-AreHalves : AreHalves ranges
ranges-AreHalves = ((omega arith, omega arith), ((omega arith, omega arith), tt))

present-Unnamed : Unnamed 5 (keys_of 0xff 18 ranges) present
unfolding is_owned
present-Unnamed = ((refl, tt), ((refl, tt), tt))

diag_cntl_deregister-register_example :
    diag_cntl_deregister 5
      (deregistration 1 0xff 18 ranges)
      (diag_cntl_register (λ n. true) 5 (registration 1 0xff 18 0 ranges) present)
    ≡ present
diag_cntl_deregister-register_example =
    diag_cntl_deregister-register (λ n. true) 5 1 0xff 18 0 ranges present refl (omega arith)
      (omega arith) (omega arith) ranges-AreHalves present-Unnamed

abbrev event_masks : Masks
event_masks = record {
  msg = record { items = []; status = 1 };
  bt = record { items = []; status = 1 };
  log = record { items = []; status = 1 };
  event = record { ptr = 0x7f ∷ []; mask_len = 1; status = 3; max_num_bits = 7 };
}

abbrev told : Peripheral
told = record modem {
  cntlq =
      record {
        size = 16;
        offset = 16;
        flow = none;
        payload = 10 ∷ 0 ∷ 0 ∷ 0 ∷ 8 ∷ 0 ∷ 0 ∷ 0 ∷ 1 ∷ 3 ∷ 1 ∷ 1 ∷ 0 ∷ 0 ∷ 0 ∷ 0x7f ∷ [];
      }
      ∷ [];
}

told_of : diag_cntl_send_event_mask (λ n. true) event_masks modem ≡ some told
unfolding diag_cntl_send_event_mask diag_cmd_get_event_mask copy_out bits_to_bytes push_cntl
    event_mask_packet le32 queue_push_flow
told_of = refl

event_masks-AreSized : AreSized event_masks
unfolding bits_to_bytes
event_masks-AreSized = record { items = tt; words = tt; bits = omega arith; half = omega arith }

send_masks-Sends_example :
    ((p' : Peripheral) × (diag_cntl_send_log_mask (λ n. true) (λ i. 0) event_masks 4 modem
        ≡ some p')
      × Sends 9 modem p')
    × ((p' : Peripheral) × (diag_cntl_send_event_mask (λ n. true) event_masks modem ≡ some p')
        × Sends 10 modem p')
send_masks-Sends_example =
    send_masks-Sends (λ n. true) (λ i. 0) event_masks 4 modem (λ n. refl) event_masks-AreSized
