-- ===== src/SendData/Tests.antt =====
-- The request 0 1 and its replies.
use diag.Base.{◌≡◌, refl, true, some, [], ◌∷◌, arith, All}
use diag.Bytes.{Bytes}
use diag.Syscalls.{◌>>=◌, give}
use diag.Opens.Tests.{counting, fresh_process}
use diag.SendData.{
  timed_out, not_set, packet, returns_0, exits_1, print_from, wait_response, send_data,
}
use diag.World.{ok, diag_encode_raw}
use diag.System.{World}
use diag.Dm.{update_client}
use diag.Daemon.Client.{find_client}
use diag.Daemon.Tests.{client, site}
use diag.Router.{dispatch_key, diag_client_handle_command}
use diag.SendData.{bad_command_text}
use diag.SendData.Unknown.{queued, handle_command-wait_response}
use diag.SendData.Replies.{printed, IsOther, wait_response-reply}

-- A log packet comes before the reply.
abbrev log_packet : Bytes
log_packet = 0x10 ∷ 0 ∷ 5 ∷ []

log_packet-IsOther : All (IsOther true 0) (log_packet ∷ [])
unfolding IsOther
log_packet-IsOther = (((λ e. absurd (omega (arith, e))), refl, omega arith), tt)

wait_response-reply_example :
    wait_response true (0 ∷ 1 ∷ []) (packet log_packet ∷ packet (0 ∷ 200 ∷ []) ∷ timed_out ∷ [])
    ≡ some (returns_0, printed true (log_packet ∷ (0 ∷ 200 ∷ []) ∷ []))
wait_response-reply_example =
    wait_response-reply true 0 (1 ∷ []) (200 ∷ []) (log_packet ∷ []) (timed_out ∷ [])
      log_packet-IsOther (λ e. absurd (omega (arith, e))) refl (omega arith)

-- "0 -56" and a new line.
reply_text : printed true ((0 ∷ 200 ∷ []) ∷ []) ≡ 48 ∷ 32 ∷ 45 ∷ 53 ∷ 54 ∷ 10 ∷ []
unfolding printed print_from
reply_text = refl

-- The arguments "0" and "1", and no answer.
no_answer :
    send_data
      (λ n. true)
      counting
      true
      ((48 ∷ []) ∷ (49 ∷ []) ∷ [])
      (not_set ∷ timed_out ∷ [])
      fresh_process
    ≡ some (exits_1, [])
unfolding send_data ◌>>=◌ give
no_answer = refl

-- The monitor of the program, and the request 7 1, which nothing covers.
abbrev world : World
world = (site (client diag_encode_raw)).rest.world

found : find_client 1 world.clients ≡ some (client diag_encode_raw)
unfolding find_client
found = refl

handle_command-wait_response_example :
    (diag_client_handle_command 1 (7 ∷ 1 ∷ []) 2 world
      ≡ some (
        ok,
        record world { clients = update_client 1 (queued (0x13 ∷ 7 ∷ 1 ∷ [])) world.clients },
      ))
    × (wait_response true (7 ∷ 1 ∷ []) (packet (0x13 ∷ 7 ∷ 1 ∷ []) ∷ [])
        ≡ some (returns_0, bad_command_text))
unfolding dispatch_key
handle_command-wait_response_example =
    handle_command-wait_response 1 7 (1 ∷ []) (client diag_encode_raw) world true [] (λ n. refl)
      found refl refl tt (refl, tt) tt (omega arith)
