-- ===== src/Cmds/Event.antt =====
-- The three event handlers of router/common_cmds.c.
use diag.Base.{
  ℕ, ◌+◌, not, Option, none, some, [], ◌∷◌, ◌++◌, ◌==◌, if◌then◌else◌, length, take, drop,
}
use diag.Bytes.{Bytes, byte_at, get16, le16, u16, bits_to_bytes}
use diag.World.{ok, emsgsize, enomem}
use diag.Queue.{◌>>=◌}
use diag.Masks.Memory.{done}
use diag.Masks.Event.{
  EventMask, diag_cmd_get_event_mask, diag_cmd_update_event_mask, diag_cmd_toggle_events,
}
use diag.Cntl.Send.{peripheral_broadcast_event_mask}
use diag.System.{World, Run, dm_send, returning}

-- A state with another event mask, of which the peripherals are told.
unfoldable pub broadcast_event : EventMask → World → Option World
broadcast_event event w =
    let masks = record (w.masks) { event = event } in
    do
      ps ← peripheral_broadcast_event_mask w.alloc masks w.peripherals
      some (record w { masks = masks; peripherals = ps })

-- Command code, error code, the request's reserved field, the bits and the mask.
unfoldable pub event_reply : Bytes → ℕ → ℕ → Bytes → Bytes
event_reply buf code num_bits mask =
    byte_at buf 0 ∷ code ∷ byte_at buf 2 ∷ byte_at buf 3 ∷ (le16 num_bits ++ mask)

unfoldable pub event_get_mask : ℕ → Bytes → ℕ → Run
event_get_mask addr buf len w =
    if len == 4
    then (do
      (r, m) ← diag_cmd_get_event_mask w.alloc w.masks.event w.masks.event.max_num_bits
      let reply : Bytes = elim m [
        | some mask ↦ event_reply buf 0 w.masks.event.max_num_bits mask
        | none ↦ event_reply buf 1 0 []
      ]
      if w.alloc (length reply) then returning ok (dm_send addr reply) w else some (enomem, w))
    else some (emsgsize, w)

unfoldable pub event_set_mask : ℕ → Bytes → ℕ → Run
event_set_mask addr buf len w =
    let num_bits = get16 buf 4 in
    let size = u16 (bits_to_bytes num_bits) in
    if len == 6 + size
    then (do
      (r, event) ← diag_cmd_update_event_mask w.alloc w.junk w.masks.event num_bits (drop 6 buf)
      elim r [
        | done ↦
            if w.alloc (6 + size)
            then (do
              w' ← broadcast_event event w
              returning ok (dm_send addr (event_reply buf 0 num_bits (take size (drop 6 buf)))) w')
            else some (enomem, record w { masks = record (w.masks) { event = event } })
        | _ ↦
            let w' : World = record w { masks = record (w.masks) { event = event } } in
            if w.alloc 6
            then returning ok (dm_send addr (event_reply buf 1 0 [])) w'
            else some (enomem, w')
      ])
    else some (emsgsize, w)

unfoldable pub event_report_control : ℕ → Bytes → ℕ → Run
event_report_control addr buf len w =
    if len == 2
    then (do
      event ← diag_cmd_toggle_events w.masks.event (not (byte_at buf 1 == 0))
      w' ← broadcast_event event w
      returning ok (dm_send addr (0x60 ∷ 0 ∷ 0 ∷ [])) w')
    else some (emsgsize, w)
