-- ===== src/Cmds/App.antt =====
-- router/app_cmds.c: the commands that the router answers when no peripheral has registered them.
use diag.Base.{
  ℕ, ◌+◌, Option, none, some, List, [], ◌∷◌, ◌++◌, ltb, leb, ◌==◌, if◌then◌else◌, length, take,
}
use diag.Bytes.{Bytes, u8, zeros}
use diag.World.{emsgsize, diag_encode_nhdlc}
use diag.Queue.{◌>>=◌}
use diag.Dm.{set_encode_type}
use diag.System.{Run, DiagId, dm_send}

unfoldable pub diag_version : ℕ → Bytes → ℕ → Run
diag_version addr buf len = dm_send addr (28 ∷ 2 ∷ [])

unfoldable pub diag_version_no : ℕ → Bytes → ℕ → Run
unfolding zeros
diag_version_no addr buf len = dm_send addr (zeros 55)

-- The revision "OE" and the model "DB410C", each with its closing zero.
unfoldable pub extended_build_id : ℕ → Bytes → ℕ → Run
extended_build_id addr buf len w =
    if len == 1
    then dm_send addr
        (124 ∷ 2 ∷ 0 ∷ 0 ∷ 2 ∷ 0 ∷ 0 ∷ 0 ∷ 0 ∷ 0 ∷ 0 ∷ 0 ∷ b'O' ∷ b'E' ∷ 0 ∷ b'D' ∷ b'B' ∷ b'4'
          ∷ b'1' ∷ b'0' ∷ b'C' ∷ 0 ∷ [])
        w
    else some (emsgsize, w)

unfoldable pub keep_alive : ℕ → Bytes → ℕ → Run
unfolding zeros
keep_alive addr buf len = dm_send addr (75 ∷ 50 ∷ 3 ∷ zeros 13)

abbrev pub diag_max_rsp_size : ℕ
diag_max_rsp_size = 16384

-- An entry as it stands in memory, cut at the `uint8_t` length that was stored with it.
unfoldable pub diag_id_info : DiagId → Bytes
diag_id_info d =
    take (u8 (2 + length d.process_name)) (d.diag_id ∷ u8 (length d.process_name) ∷ d.process_name)

-- The entries that are copied, from a reply of `used` bytes on; a copy past the buffer is a fault.
unfoldable pub diag_id_payload : ℕ → List DiagId → Option (ℕ × Bytes)
diag_id_payload used [] = some (0, [])
diag_id_payload used (d ∷ ds) =
    let info = diag_id_info d in
    let rest = diag_id_payload (used + length info) ds in
    if leb diag_max_rsp_size used
    then some (0, [])
    else if ltb diag_max_rsp_size (used + length info)
    then none
    else (do (n, bytes) ← rest; some (n + 1, info ++ bytes))

unfoldable pub diag_id_query : ℕ → Bytes → ℕ → Run
diag_id_query addr buf len w = if ltb len 5 then some (emsgsize, w) else (do
  (n, bytes) ← diag_id_payload 6 w.diag_ids
  dm_send addr (take 5 buf ++ (u8 n ∷ bytes)) w)

-- The reply is sent in the old encoding; every monitor with an encoding then has the new one.
unfoldable pub hdlc_disable : ℕ → Bytes → ℕ → Run
hdlc_disable addr buf len w = if ltb len 4 then some (emsgsize, w) else (do
  (r, w') ← dm_send addr (take 4 buf ++ (1 ∷ 0 ∷ [])) w
  some (r, record w' { clients = set_encode_type diag_encode_nhdlc w'.clients }))
