-- ===== src/Cmds/Msg.antt =====
-- `handle_extended_message_configuration` of router/common_cmds.c.
use diag.Base.{
  ℕ, zero, suc, ◌+◌, ◌-◌, ◌*◌, ◌%◌, ◌^◌, none, some, List, [], ◌∷◌, ◌++◌, ◌==◌, if◌then◌else◌, take,
  drop,
}
use diag.Bytes.{Bytes, byte_at, get16, get32, le16, le32, u32}
use diag.World.{ok, einval, emsgsize, enomem}
use diag.Queue.{◌>>=◌}
use diag.Masks.Memory.{done, unwritten}
use diag.Masks.Msg.{
  SsidRange, diag_cmd_get_ssid_range, diag_cmd_get_build_mask, diag_cmd_get_msg_mask,
  diag_cmd_set_msg_mask, diag_cmd_set_all_msg_mask,
}
use diag.Cntl.Send.{first_words, peripheral_broadcast_msg_mask}
use diag.System.{Run, dm_send, returning}

-- The identifiers of a range, `MSG_RANGE_TO_SIZE` being four times as many.
unfoldable pub range_count : SsidRange → ℕ
range_count r = (r.ssid_last + 2 ^ 32 - r.ssid_first + 1) % 2 ^ 32

unfoldable pub range_bytes : SsidRange → Bytes
range_bytes r = le16 r.ssid_first ++ le16 r.ssid_last

unfoldable pub ranges_bytes : List SsidRange → Bytes
unfolding range_bytes
ranges_bytes [] = []
ranges_bytes (r ∷ rs) = range_bytes r ++ ranges_bytes rs

-- A packed range at an offset.
unfoldable pub range_at : Bytes → ℕ → SsidRange
range_at buf i = record { ssid_first = get16 buf i; ssid_last = get16 buf (i + 2) }

-- The words of a buffer from an offset on.
unfoldable pub words_at : Bytes → ℕ → ℕ → List ℕ
words_at buf i zero = []
words_at buf i (suc n) = get32 buf i ∷ words_at buf (i + 4) n

unfoldable pub get_ssid_range : ℕ → Bytes → Run
get_ssid_range addr buf w =
    let (count, ranges) = diag_cmd_get_ssid_range w.alloc w.masks.msg in
    if w.alloc (8 + count * 4)
    then returning ok
        (dm_send addr (
          take 2 buf
          ++ (1
              ∷ w.junk 3
              ∷ (le32 count ++ elim ranges [
                | none ↦ unwritten w.junk 8 (count * 4)
                | some rs ↦ ranges_bytes rs
              ]))))
        w
    else some (enomem, w)

-- The reply copies as many words as the reported range counts.
unfoldable pub get_build_mask : ℕ → Bytes → Run
get_build_mask addr buf w = do
  c ← diag_cmd_get_build_mask w.alloc w.masks.bt (range_at buf 2)
  elim c.result [
    | done ↦ do
      m ← first_words c.mask (range_count c.range)
      returning ok
          (dm_send addr
            (0x7d ∷ 2 ∷ (range_bytes c.range ++ (1 ∷ 0 ∷ elim m [ none ↦ [] | some ws ↦ ws ]))))
          w
    | _ ↦ returning ok (dm_send addr (0x7d ∷ 2 ∷ 0 ∷ 0 ∷ 0 ∷ 0 ∷ 0 ∷ 0 ∷ [])) w
  ]

unfoldable pub get_msg_mask : ℕ → Bytes → Run
get_msg_mask addr buf w = do
  c ← diag_cmd_get_msg_mask w.alloc w.masks.msg (range_at buf 2)
  elim c.result [
    | done ↦ do
      m ← first_words c.mask (range_count c.range)
      returning ok (dm_send addr (take 2 buf ++ (1 ∷ 0 ∷ elim m [ none ↦ [] | some ws ↦ ws ]))) w
    | _ ↦ returning ok (dm_send addr (take 2 buf ++ (0 ∷ 0 ∷ []))) w
  ]

-- The broadcast is given the reply's own range, which it may move before the reply is sent.
unfoldable pub set_msg_mask : ℕ → Bytes → Run
set_msg_mask addr buf w =
    let range = range_at buf 2 in
    let num = range_count range in
    do
      (r, msg) ← diag_cmd_set_msg_mask w.alloc w.junk w.masks.msg range (words_at buf 8 num)
      let w' = record w { masks = record (w.masks) { msg = msg } }
      elim r [
        | done ↦
            if w.alloc (8 + u32 (num * 4))
            then (do
              (sent, ps) ←
                  peripheral_broadcast_msg_mask w.alloc w.junk w'.masks (some range) w.peripherals
              returning ok
                  (dm_send addr (
                    take 2 buf
                    ++ (elim sent [ none ↦ [] | some s ↦ range_bytes s ]
                        ++ (1 ∷ byte_at buf 6 ∷ take (u32 (num * 4)) (drop 8 buf)))))
                  (record w' { peripherals = ps }))
            else some (enomem, w')
        | _ ↦
            if w.alloc 8
            then returning ok (dm_send addr (take 6 buf ++ (0 ∷ byte_at buf 6 ∷ []))) w'
            else some (enomem, w')
      ]

unfoldable pub set_all_msg_mask : ℕ → Bytes → Run
set_all_msg_mask addr buf w = do
  msg ← diag_cmd_set_all_msg_mask w.masks.msg (get32 buf 3)
  let masks = record (w.masks) { msg = msg }
  (range, ps) ← peripheral_broadcast_msg_mask w.alloc w.junk masks none w.peripherals
  returning ok (dm_send addr (take 2 buf ++ (1 ∷ byte_at buf 2 ∷ le32 (get32 buf 3))))
      (record w { masks = masks; peripherals = ps })

unfoldable pub extended_message_configuration : ℕ → Bytes → ℕ → Run
extended_message_configuration addr buf len w =
    let op = byte_at buf 1 in
    if op == 1
    then (if len == 2 then get_ssid_range addr buf w else some (emsgsize, w))
    else if op == 2
    then (if len == 6 then get_build_mask addr buf w else some (emsgsize, w))
    else if op == 3
    then (if len == 6 then get_msg_mask addr buf w else some (emsgsize, w))
    else if op == 4
    then (if len == 8 + u32 (range_count (range_at buf 2) * 4)
        then set_msg_mask addr buf w
        else some (emsgsize, w))
    else if op == 5
    then (if len == 7 then set_all_msg_mask addr buf w else some (emsgsize, w))
    else some (einval, w)
