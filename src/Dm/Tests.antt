-- ===== src/Dm/Tests.antt =====
-- Two monitors with a queue each, and the theorems on monitors at small messages.
use diag.Base.{
  ℕ, ◌<◌, ◌≡◌, refl, inl, inr, Bool, true, false, Option, some, List, [], ◌∷◌, ◌++◌, map, arith,
  length, length-append,
}
use diag.Bytes.{Bytes}
use diag.CircBuf.{CircBuf}
use diag.CircBuf.Inv.{IsValid, unread}
use diag.CircBuf.Tests.{filled, filled-IsValid, unread-filled, empty_ring}
use diag.Hdlc.{hdlc_encode}
use diag.Hdlc.Encode.{length-hdlc_encode}
use diag.World.{Alloc, Flows, DiagClient, ok, diag_encode_hdlc, diag_encode_nhdlc}
use diag.Queue.{◌>>=◌, watch_flow_inc}
use diag.Dm.{dm_send_flow, dm_broadcast, dm_recv_hdlc}
use diag.Dm.Send.{deliver, dm_send_flow-deliver, count_flow, dm_broadcast-deliver}
use diag.Dm.Recv.{frames, handle_all, dm_recv_hdlc-frames}

abbrev grant : Alloc
grant n = true

abbrev no_flows : Flows
no_flows f = 0

abbrev monitor : ℕ → ℕ → Bool → DiagClient
monitor id ty enabled = record {
  id = id;
  in_fd = some 3;
  out_fd = 4;
  encode_type = ty;
  encode_hdlc_reset = false;
  enabled = enabled;
  recv_buf = empty_ring;
  outq = [];
}

abbrev tool : DiagClient
tool = monitor 1 diag_encode_hdlc true

abbrev hello : Bytes
hello = 0x60 ∷ 0x7e ∷ []

abbrev monitors : List DiagClient
monitors = tool ∷ monitor 2 diag_encode_nhdlc false ∷ monitor 3 diag_encode_nhdlc true ∷ []

dm_broadcast-deliver_example :
    dm_broadcast grant monitors no_flows hello (some 7)
    ≡ some (map (deliver hello (some 7)) monitors, count_flow (some 7) monitors no_flows)
dm_broadcast-deliver_example =
    dm_broadcast-deliver grant monitors no_flows hello (some 7) (λ n. refl)
      (inr (inl refl), (inr (inr refl), (inr (inr refl), tt)))

abbrev sent : DiagClient
sent = deliver hello (some 7) tool

tool-sent :
    dm_send_flow grant (tool, no_flows) hello (some 7)
    ≡ some (ok, sent, watch_flow_inc no_flows (some 7))
tool-sent = dm_send_flow-deliver grant tool no_flows hello (some 7) (λ n. refl) (inr (inl refl))

-- A handler that records each message.
abbrev record_all : Bytes → ℕ → List (Bytes × ℕ) → Option (List (Bytes × ℕ))
record_all raw msglen log = some (log ++ ((raw, msglen) ∷ []))

abbrev received : Bytes
received = frames (hello ∷ (0x1c ∷ []) ∷ []) ++ (0x60 ∷ [])

received-lt : length received < 16384
unfolding frames
received-lt = omega (
  arith,
  length-append {0} (frames (hello ∷ (0x1c ∷ []) ∷ [])) (0x60 ∷ []),
  length-append {0} (hdlc_encode hello) (frames ((0x1c ∷ []) ∷ [])),
  length-append {0} (hdlc_encode (0x1c ∷ [])) (frames []),
  length-hdlc_encode hello,
  length-hdlc_encode (0x1c ∷ []),
)

dm_recv_hdlc-frames_example :
    (b' : CircBuf) × IsValid b'
    × (unread b' ≡ [])
    × (dm_recv_hdlc record_all (filled received) []
        ≡ (handle_all record_all (hello ∷ (0x1c ∷ []) ∷ []) [] >>= λ t. some (b', t)))
dm_recv_hdlc-frames_example =
    dm_recv_hdlc-frames record_all (hello ∷ (0x1c ∷ []) ∷ []) (0x60 ∷ []) (filled received) []
      (filled-IsValid received received-lt) ((omega arith), tt) (unread-filled received received-lt)
