-- ===== src/Cmds/Log.antt =====
-- `handle_logging_configuration` of router/common_cmds.c.
use diag.Base.{
  ℕ, ◌+◌, ◌-◌, ◌/◌, Bool, true, false, Option, none, some, [], ◌++◌, ◌==◌, if◌then◌else◌, take,
  drop,
}
use diag.Bytes.{Bytes, get32, le32, u32}
use diag.World.{ok, einval, emsgsize, enomem}
use diag.Queue.{◌>>=◌}
use diag.Masks.Memory.{done, unwritten}
use diag.Masks.Log.{
  diag_cmd_disable_log, diag_cmd_get_log_range, diag_cmd_set_log_mask, diag_cmd_get_log_mask,
  max_equip_id,
}
use diag.Cntl.Send.{le_words, peripheral_broadcast_log_mask}
use diag.System.{World, Run, dm_send, returning}

-- The peripherals are told of a log mask.
unfoldable pub broadcast_log : ℕ → World → Option World
broadcast_log equip_id w = do
  ps ← peripheral_broadcast_log_mask w.alloc w.junk w.masks equip_id w.peripherals
  some (record w { peripherals = ps })

unfoldable pub log_disable : ℕ → Bytes → Run
log_disable addr buf w = do
  log ← diag_cmd_disable_log w.masks.log
  w' ← broadcast_log 0 (record w { masks = record (w.masks) { log = log } })
  returning ok (dm_send addr (take 8 buf ++ le32 0)) w'

unfoldable pub get_log_range : ℕ → Bytes → Run
get_log_range addr buf w =
    returning ok
      (dm_send addr
        (take 8 buf ++ (le32 0 ++ le_words (diag_cmd_get_log_range w.masks.log max_equip_id))))
      w

-- `sizeof(*mask_to_set) + BITS_TO_BYTES(mask_to_set->num_items)` on `uint32_t`.
abbrev pub request_size : Bytes → ℕ
request_size buf = 8 + u32 (get32 buf 12 + 7) / 8

-- The reply: the header, the status, and as much of the request's structure as `*mask_size` says
-- after the call; the rest of the reply is unwritten.
unfoldable pub set_log_reply : (ℕ → ℕ) → Bytes → ℕ → ℕ → Bytes
set_log_reply junk buf num_items mask_size =
    take 8 buf
    ++ (le32 0
        ++ (take mask_size (take 4 (drop 8 buf) ++ (le32 num_items ++ drop 16 buf))
            ++ unwritten junk (12 + mask_size) (8 + request_size buf - mask_size)))

unfoldable pub set_log_mask : ℕ → Bytes → Run
set_log_mask addr buf w =
    if w.alloc (20 + request_size buf)
    then (do
      (log, reply) ←
          diag_cmd_set_log_mask w.alloc w.junk w.masks.log (get32 buf 8) (get32 buf 12)
            (drop 16 buf) (request_size buf)
      let resp = set_log_reply w.junk buf reply.num_items reply.mask_size
      w' ← broadcast_log (get32 resp 12) (record w { masks = record (w.masks) { log = log } })
      returning ok (dm_send addr resp) w')
    else some (enomem, w)

unfoldable pub get_log_mask : ℕ → Bytes → Run
get_log_mask addr buf w = do
  c ← diag_cmd_get_log_mask w.alloc w.masks.log (get32 buf 8) 0 0
  let found : Bool = elim c.result [ done ↦ true | _ ↦ false ]
  let size : ℕ = if found then c.mask_size else 0
  if w.alloc (20 + size)
      then (do
        w' ← broadcast_log (get32 buf 8) w
        returning ok
            (dm_send addr (
              take 8 buf
              ++ (le32 (if found then 0 else 1)
                  ++ (take 4 (drop 8 buf)
                      ++ (le32 c.num_items ++ elim c.mask [ none ↦ [] | some m ↦ m ])))))
            w')
      else some (enomem, w)

unfoldable pub logging_configuration : ℕ → Bytes → ℕ → Run
logging_configuration addr buf len w =
    let op = get32 buf 4 in
    if op == 0
    then (if len == 8 then log_disable addr buf w else some (emsgsize, w))
    else if op == 1
    then (if len == 8 then get_log_range addr buf w else some (emsgsize, w))
    else if op == 3
    then (if len == 8 + request_size buf then set_log_mask addr buf w else some (emsgsize, w))
    else if op == 4
    then (if len == 12 then get_log_mask addr buf w else some (emsgsize, w))
    else some (einval, w)
