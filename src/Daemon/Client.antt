-- ===== src/Daemon/Client.antt =====
-- A monitor's callback of router/dm.c on the router's whole state.
use diag.Base.{ℕ, false, Option, none, some, List, [], ◌∷◌, ◌==◌, if◌then◌else◌}
use diag.World.{DiagClient}
use diag.CircBuf.{CircBuf, Kernel}
use diag.Dm.{update_client, diag_start_hdlc_recovery, diag_hdlc_reset}
use diag.Dm.Read.{Outcome, dm_decode_data, dm_recv}
use diag.Queue.{◌>>=◌}
use diag.Watch.{Timeval, watch_remove_fd}
use diag.Watch.Timers.{watch_add_timer}
use diag.Daemon.{State, on_world, handle_command, diag_hdlc_reset_of}

unfoldable pub find_client : ℕ → List DiagClient → Option DiagClient
find_client addr [] = none
find_client addr (dm ∷ clients) = if dm.id == addr then some dm else find_client addr clients

-- `diag_start_hdlc_recovery` with its timer of 200 ms.
unfoldable pub start_recovery : Timeval → ℕ → State → State
unfolding diag_start_hdlc_recovery update_client find_client watch_add_timer
start_recovery now addr s = elim (find_client addr s.rest.world.clients) [
  | none ↦ s
  | some dm ↦
      let (dm', bad, added) = diag_start_hdlc_recovery dm s.rest.bad_cmd_counter in
      let s1 =
        on_world (λ w. record w { clients = update_client addr (λ old. dm') w.clients })
          (record s { rest = record (s.rest) { bad_cmd_counter = bad } }) in
      if added then watch_add_timer (diag_hdlc_reset_of addr) 200 false now s1 else s1
]

-- The timer's callback.
unfoldable pub reset_client : ℕ → State → State
unfolding diag_hdlc_reset
reset_client addr = on_world (λ w. record w { clients = diag_hdlc_reset addr w.clients })

abbrev remove_client_watches : DiagClient → State → State
remove_client_watches dm s = elim dm.in_fd [ none ↦ s | some fd ↦ watch_remove_fd fd s ]

-- `dm_decode_data` of a ring for the monitor at an address, with the ring that is left.
unfoldable pub decode_for : Timeval → ℕ → CircBuf → State → Option (Outcome × CircBuf × State)
unfolding dm_decode_data handle_command start_recovery find_client
decode_for now addr ring s = do
  dm ← find_client addr s.rest.world.clients
  dm_decode_data (handle_command addr) (start_recovery now addr) dm.encode_type ring s

-- `dm_recv` for the monitor at an address; the ring is put back into the monitor.
unfoldable pub recv_for : Timeval → ℕ → Kernel → ℕ → State → Option (Outcome × State)
unfolding dm_recv handle_command start_recovery find_client update_client watch_remove_fd
recv_for now fuel read addr s = do
  dm ← find_client addr s.rest.world.clients
  (r, ring, s') ←
      dm_recv (handle_command addr) (start_recovery now addr) (remove_client_watches dm) read fuel
        dm.encode_type dm.recv_buf s
  some (
    r,
    on_world
        (λ w. record w {
          clients = update_client addr (λ old. record old { recv_buf = ring }) w.clients;
        })
        s',
  )
