-- ===== src/Dm.antt =====
-- router/dm.c: the diagnostic monitors, what is sent to them and how their bytes are decoded.
-- A state that holds the list of monitors is passed on; the handling of a decoded command is an
-- argument, which `Router` gives.
pub mod Send
pub mod Recv
pub mod Flow
pub mod Read
mod Tests
use diag.Base.{
  ℕ, zero, suc, ◌+◌, ◌%◌, ◌^◌, Bool, true, false, not, ◌||◌, Option, none, some, List, [], ◌∷◌,
  ◌++◌, ltb, ◌==◌, if◌then◌else◌, drop,
}
use diag.Bytes.{Bytes, get16, byte_at}
use diag.World.{
  Alloc, Flows, Queue, DiagClient, Ret, ok, einval, diag_encode_raw, diag_encode_hdlc,
  diag_encode_nhdlc,
}
use diag.CircBuf.{CircBuf, hdlc_buf_size}
use diag.Hdlc.{
  HdlcDecoder, hdlc_decoder_zero, Decoded, message, starved, blank, overrun, hdlc_decode_one,
}
use diag.Queue.{◌>>=◌, queue_push_flow, hdlc_enqueue_flow, queue_push_nhdlc_flow}

-- `calloc`, the fields and `list_add` at the end of `diag_clients`; `addr` is the address given.
unfoldable pub dm_add : ℕ → CircBuf → Option ℕ → ℕ → Bool → List DiagClient → List DiagClient
dm_add addr ring in_fd out_fd is_encoded clients =
    clients
    ++ (record {
      id = addr;
      in_fd = in_fd;
      out_fd = out_fd;
      encode_type = if is_encoded then diag_encode_hdlc else diag_encode_raw;
      encode_hdlc_reset = false;
      enabled = false;
      recv_buf = ring;
      outq = [];
    }
        ∷ [])

-- The switch over the encoding, on the queue and the flow counters.
unfoldable pub dm_enqueue :
    Alloc → ℕ → Queue × Flows → Bytes → Option ℕ → Option (Ret × Queue × Flows)
dm_enqueue alloc ty (q, flows) msg flow =
    if ty == diag_encode_raw
    then (do (q', f') ← queue_push_flow alloc (q, flows) msg flow; some (ok, q', f'))
    else if ty == diag_encode_hdlc
    then (do (q', f') ← hdlc_enqueue_flow alloc (q, flows) msg flow; some (ok, q', f'))
    else if ty == diag_encode_nhdlc
    then (do (q', f') ← queue_push_nhdlc_flow alloc (q, flows) msg flow; some (ok, q', f'))
    else some (einval, q, flows)

unfoldable pub dm_send_flow :
    Alloc → DiagClient × Flows → Bytes → Option ℕ → Option (Ret × DiagClient × Flows)
dm_send_flow alloc (dm, flows) msg flow = if not dm.enabled then some (ok, dm, flows) else (do
  (r, q, f') ← dm_enqueue alloc dm.encode_type (dm.outq, flows) msg flow
  some (r, record dm { outq = q }, f'))

unfoldable pub dm_broadcast :
    Alloc → List DiagClient → Flows → Bytes → Option ℕ → Option (List DiagClient × Flows)
dm_broadcast alloc [] flows msg flow = some ([], flows)
dm_broadcast alloc (dm ∷ clients) flows msg flow = do
  (r, dm', f') ← dm_send_flow alloc (dm, flows) msg flow
  (rest, f'') ← dm_broadcast alloc clients f' msg flow
  some (dm' ∷ rest, f'')

-- The monitor at an address, changed in its place.
unfoldable pub update_client : ℕ → (DiagClient → DiagClient) → List DiagClient → List DiagClient
update_client addr g [] = []
update_client addr g (dm ∷ clients) =
    if dm.id == addr then g dm ∷ clients else dm ∷ update_client addr g clients

unfoldable pub dm_enable : ℕ → List DiagClient → List DiagClient
dm_enable addr = update_client addr (λ dm. record dm { enabled = true })

unfoldable pub dm_disable : ℕ → List DiagClient → List DiagClient
dm_disable addr = update_client addr (λ dm. record dm { enabled = false })

unfoldable pub set_encode_type : ℕ → List DiagClient → List DiagClient
set_encode_type ty [] = []
set_encode_type ty (dm ∷ clients) =
    (if dm.encode_type == diag_encode_raw then dm else record dm { encode_type = ty })
    ∷ set_encode_type ty clients

-- The timer's callback.
unfoldable pub diag_hdlc_reset : ℕ → List DiagClient → List DiagClient
unfolding set_encode_type update_client
diag_hdlc_reset addr clients =
    update_client addr (λ dm. record dm { encode_hdlc_reset = false })
      (set_encode_type diag_encode_hdlc clients)

abbrev pub diag_max_bad_cmd : ℕ
diag_max_bad_cmd = 5

-- The monitor, the static counter, and whether a timer of 200 ms was added.
unfoldable pub diag_start_hdlc_recovery : DiagClient → ℕ → DiagClient × ℕ × Bool
diag_start_hdlc_recovery dm bad =
    let bad' = (bad + 1) % 2 ^ 32 in
    if ltb diag_max_bad_cmd bad'
    then (
      record dm { encode_hdlc_reset = true; encode_type = diag_encode_hdlc },
      0,
      not dm.encode_hdlc_reset,
    )
    else (record dm { encode_hdlc_reset = true }, bad', not dm.encode_hdlc_reset)

-- `pkt` is the memory from `pkt_ptr` on: start, version, length, and the data.
unfoldable pub dm_check_nhdlc_pkt : Bytes → Ret
unfolding get16
dm_check_nhdlc_pkt pkt =
    if not (byte_at pkt 0 == 0x7e) || not (byte_at pkt (4 + get16 pkt 2) == 0x7e)
    then einval
    else ok

module _ {ℓ} {S : Type ℓ} (handle : Bytes → ℕ → S → Option S) where
  -- `dm_recv_hdlc` with its decoder, for as many messages as the fuel says; `none` is a fault.
  unfoldable pub dm_recv_hdlc_loop : ℕ → HdlcDecoder → CircBuf → S → Option (CircBuf × S)
  dm_recv_hdlc_loop zero d b s = none
  dm_recv_hdlc_loop (suc fuel) d b s =
      let (r, d', b') = hdlc_decode_one d b in
      elim r [
        | starved ↦ some (b', s)
        | blank ↦ some (b', s)
        | overrun ↦ none
        | Decoded.out_of_fuel ↦ none
        | message raw msglen ↦ elim (handle raw msglen s) [
          | none ↦ none
          | some s' ↦ dm_recv_hdlc_loop fuel d' b' s'
        ]
      ]

  -- The decoder is a local variable that begins cleared in each call.
  unfoldable pub dm_recv_hdlc : CircBuf → S → Option (CircBuf × S)
  unfolding dm_recv_hdlc_loop
  dm_recv_hdlc b s = dm_recv_hdlc_loop hdlc_buf_size hdlc_decoder_zero b s

  -- `dm_recv_nhdlc` reads the packet from the start of the ring's memory, and handles it also where
  -- its check fails. It does not move the ring's tail. `recover` is `diag_start_hdlc_recovery`.
  unfoldable pub dm_recv_nhdlc : (S → S) → CircBuf → S → Option (Ret × S)
  unfolding dm_check_nhdlc_pkt
  dm_recv_nhdlc recover b s =
      let ret = dm_check_nhdlc_pkt b.buf in
      let s' : S = elim ret [ ok ↦ s | _ ↦ recover s ] in
      do t ← handle (drop 4 b.buf) (get16 b.buf 2) s'; some (ret, t)
