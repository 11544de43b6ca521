-- ===== src/SendData/Unknown.antt =====
-- An unknown command of tools/send_data.c, through the router and back.
use diag.Base.{
  ℕ, ◌+◌, ◌≤◌, ◌≡◌, refl, sym, ap, ◌∙◌, inl, inr, Bool, true, none, some, List, [], ◌∷◌, ◌++◌,
  arith, ◌==◌, Bool-cases, length, take,
}
use diag.Bytes.{Bytes}
use diag.World.{DiagClient, Alloc, Flows, ok, diag_encode_raw}
use diag.Queue.{watch_flow_inc}
use diag.Dm.{dm_send_flow, update_client}
use diag.Dm.Send.{Generous, full_mbuf, dm_send_flow-deliver}
use diag.System.{World, send_to, dm_send, returning}
use diag.Router.{dispatch_key, diag_client_handle_command}
use diag.Router.Dispatch.{NoneCovers, diag_client_handle_command_unknown}
use diag.Daemon.Client.{find_client}
use diag.SendData.{Turn, packet, returns_0, bad_command_text, received, wait_response}
use diag.SendData.Replies.{wait_response-short}

-- A raw monitor that is enabled gets a message behind its queue.
abbrev pub queued : Bytes → DiagClient → DiagClient
queued msg dm = record dm { outq = dm.outq ++ (full_mbuf msg none ∷ []) }

send_raw :
    (alloc : Alloc) (dm : DiagClient) (flows : Flows) (msg : Bytes)
    → Generous alloc
    → dm.enabled ≡ true
    → dm.encode_type ≡ diag_encode_raw
    → dm_send_flow alloc (dm, flows) msg none ≡ some (ok, queued msg dm, flows)
unfolding watch_flow_inc
send_raw alloc dm flows msg g on raw =
    dm_send_flow-deliver alloc dm flows msg none g (inl raw) ∙ rw (on, raw) refl

given : {dm : DiagClient} (c : DiagClient) → some c ≡ some dm → c ≡ dm
given c e = ap (λ o. elim o [ none ↦ c | some d ↦ d ]) e

send_to-queued :
    (alloc : Alloc) (addr : ℕ) (clients : List DiagClient) (dm : DiagClient) (flows : Flows)
    (msg : Bytes)
    → Generous alloc
    → find_client addr clients ≡ some dm
    → dm.enabled ≡ true
    → dm.encode_type ≡ diag_encode_raw
    → send_to alloc addr clients flows msg
      ≡ some (ok, update_client addr (queued msg) clients, flows)
unfolding send_to find_client update_client
send_to-queued alloc addr [] dm flows msg g found on raw = absurd (ground (arith, found))
send_to-queued alloc addr (c ∷ clients) dm flows msg g found on raw =
    elim (Bool-cases (c.id == addr)) [
      | inl same ↦
          let c_is : c ≡ dm = given c (sym (rw same refl) ∙ found) in
          rw
            (
              same,
              send_to,
              send_raw alloc c flows msg g (ap (λ d. d.enabled) c_is ∙ on)
                  (ap (λ d. d.encode_type) c_is ∙ raw),
            )
            refl
      | inr differs ↦
          rw
            (
              differs,
              send_to,
              send_to-queued alloc addr clients dm flows msg g (sym (rw differs refl) ∙ found) on
                  raw,
            )
            refl
    ]

-- The router's answer to a command that no table covers, sent by a raw monitor, is the one packet that
-- the monitor's queue gets: read by tools/send_data.c, it ends that program with 0 and the message for a
-- bad command. Memory is granted, and the request has at most 8191 bytes.
pub handle_command-wait_response :
    (addr : ℕ) (m : ℕ) (msg : Bytes) (dm : DiagClient) (w : World) (is_signed : Bool)
    (ts : List Turn)
    → Generous w.alloc
    → find_client addr w.clients ≡ some dm
    → dm.enabled ≡ true
    → dm.encode_type ≡ diag_encode_raw
    → NoneCovers (dispatch_key (m ∷ msg)) w.common_cmds
    → NoneCovers (dispatch_key (m ∷ msg)) w.diag_cmds
    → NoneCovers (dispatch_key (m ∷ msg)) w.fallback_cmds
    → length (m ∷ msg) ≤ 8191
    → (diag_client_handle_command addr (m ∷ msg) (length (m ∷ msg)) w
        ≡ some (ok, record w { clients = update_client addr (queued (0x13 ∷ m ∷ msg)) w.clients }))
      × (wait_response is_signed (m ∷ msg) (packet (0x13 ∷ m ∷ msg) ∷ ts)
          ≡ some (returns_0, bad_command_text))
unfolding dm_send returning received
handle_command-wait_response addr m msg dm w is_signed ts g found on raw common idle fallback l = (
  diag_client_handle_command_unknown addr (m ∷ msg) (length (m ∷ msg)) w (g (length (m ∷ msg) + 1))
        common idle fallback
      ∙ ap (λ r. returning ok (dm_send addr (0x13 ∷ r)) w) (take_all (m ∷ msg))
      ∙ rw (send_to-queued w.alloc addr w.clients dm w.flows (0x13 ∷ m ∷ msg) g found on raw) refl,
  wait_response-short is_signed (m ∷ msg) (0x13 ∷ m ∷ msg) ts (omega (arith, l)),
)
  where
    take_all : (xs : Bytes) → take (length xs) xs ≡ xs
    take_all [] = refl
    take_all (x ∷ xs) = ap (λ t. x ∷ t) (take_all xs)
