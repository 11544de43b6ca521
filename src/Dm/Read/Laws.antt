-- ===== src/Dm/Read/Laws.antt =====
-- The reads of a monitor in router/dm.c, from the kernel's answers to the commands that are handled.
use diag.Base.{
  ℕ, zero, suc, ◌<◌, ◌≡◌, refl, ap, ◌∙◌, ◌≢◌, inl, inr, false, Option, some, List, [], ◌∷◌, ◌++◌,
  arith, ◌==◌, if◌then◌else◌, Bool-cases, Option-cases, length,
}
use diag.Bytes.{Bytes}
use diag.World.{ok, diag_encode_raw, diag_encode_hdlc}
use diag.CircBuf.{
  CircBuf, Kernel, ReadResult, got, failed, drained, circ_space_to_end, absorb, circ_read,
  circ_read_loop,
}
use diag.CircBuf.Inv.{IsValid, unread, absorb_appends}
use diag.Queue.{◌>>=◌}
use diag.Dm.{dm_recv_hdlc}
use diag.Dm.Recv.{frames, handle_all, HasNoFlag, dm_recv_hdlc-frames}
use diag.Dm.Read.{
  eagain, Outcome, returned, read_error, dm_recv_raw, dm_decode_data, dm_recv_encoded, dm_recv,
}

-- From its call `i` on, the kernel gives some packets that are not empty, and then `end`.
abbrev pub Gives : Kernel → ℕ → List Bytes → ReadResult → Type 0
Gives read i [] end = read i 4096 ≡ end
Gives read i (m ∷ ms) end = (read i 4096 ≡ got m) × (m ≢ []) × Gives read (suc i) ms end

module _ {ℓ} {S : Type ℓ} (handle : Bytes → ℕ → S → Option S) where
  -- One call for each packet, in order.
  unfoldable pub handle_packets : List Bytes → S → Option S
  handle_packets [] s = some s
  handle_packets (m ∷ ms) s = handle m (length m) s >>= handle_packets ms

  -- How the loop ends.
  abbrev pub ending : (S → S) → ReadResult → S → Outcome × S
  ending remove (got xs) s = (returned ok, remove s)
  ending remove (failed e) s = if e == eagain then (returned ok, s) else (read_error e, s)

  abbrev pub IsEnd : ReadResult → Type 0
  IsEnd (got []) = Unit {0}
  IsEnd (got (x ∷ xs)) = ⊥
  IsEnd (failed e) = Unit {0}

  module _ (remove recover : S → S) (read : Kernel) where
    raw-packets :
        (end : ReadResult) (ms : List Bytes) (fuel i : ℕ) (s : S)
        → IsEnd end
        → Gives read i ms end
        → length ms < fuel
        → dm_recv_raw handle recover remove read fuel i s
          ≡ (handle_packets ms s >>= λ t. some (ending remove end t))
    unfolding dm_recv_raw handle_packets
    raw-packets end ms zero i s n g f = absurd (omega arith)
    raw-packets (got []) [] (suc fuel) i s n g f = rw (g, dm_recv_raw) refl
    raw-packets (got (x ∷ xs)) [] (suc fuel) i s n g f = absurd n
    raw-packets (failed e) [] (suc fuel) i s n g f =
        rw (g, dm_recv_raw)
          (elim (Bool-cases (e == eagain)) [ inl y ↦ rw y refl | inr y ↦ rw y refl ])
    raw-packets end ([] ∷ ms) (suc fuel) i s n g f = absurd (g.1 refl)
    raw-packets end ((x ∷ xs) ∷ ms) (suc fuel) i s n g f =
        elim (Option-cases (handle (x ∷ xs) (length (x ∷ xs)) s)) [
          | inl fails ↦ rw (g.0, dm_recv_raw, fails, handle_packets) refl
          | inr (t, fine) ↦
              rw (g.0, dm_recv_raw, fine, handle_packets)
                (raw-packets end ms fuel (suc i) t n g.2 (omega arith))
        ]

    -- An unencoded monitor's packets are handled one call each, in the order of the reads and with
    -- their lengths, until a read is empty or fails: an empty read takes the descriptor's watches
    -- away, EAGAIN ends the call without error, any other error is returned. More fuel than there
    -- are packets is enough.
    pub dm_recv-packets :
        (ms : List Bytes) (end : ReadResult) (fuel : ℕ) (b : CircBuf) (s : S)
        → IsEnd end
        → Gives read 0 ms end
        → length ms < fuel
        → dm_recv handle recover remove read fuel diag_encode_raw b s ≡ (
            handle_packets ms s >>= λ t. some ((ending remove end t).0, b, (ending remove end t).1))
    unfolding dm_recv
    dm_recv-packets ms end fuel b s n g f = elim (Option-cases (handle_packets ms s)) [
      | inl fails ↦ rw (raw-packets end ms fuel 0 s n g f, fails) refl
      | inr (t, fine) ↦ rw (raw-packets end ms fuel 0 s n g f, fine) refl
    ]

    one_round :
        (n : ℕ) (b : CircBuf) (xs : Bytes)
        → read 0 (circ_space_to_end b) ≡ got xs
        → length xs < circ_space_to_end b
        → circ_read_loop (suc n) read 0 b ≡ (drained, absorb b xs)
    unfolding circ_read_loop
    one_round n b xs e l = rw (room, circ_read_loop, e, not_all) refl
      where
        room : circ_space_to_end b == 0 ≡ false
        room = ground (arith, l)

        not_all : length xs == circ_space_to_end b ≡ false
        not_all = ground (arith, l)

    one_read :
        (b : CircBuf) (xs : Bytes)
        → read 0 (circ_space_to_end b) ≡ got xs
        → length xs < circ_space_to_end b
        → circ_read read b ≡ (drained, absorb b xs)
    unfolding circ_read
    one_read = one_round 16383

    encoded_read :
        (b : CircBuf) (xs : Bytes) (s : S)
        → read 0 (circ_space_to_end b) ≡ got xs
        → length xs < circ_space_to_end b
        → dm_recv_encoded handle recover remove read diag_encode_hdlc b s
          ≡ (dm_recv_hdlc handle (absorb b xs) s >>= λ t. some (returned ok, t.0, t.1))
    unfolding dm_recv_encoded dm_decode_data
    encoded_read b xs s e l = rw (one_read b xs e l, dm_recv_encoded, one_read b xs e l) refl

    -- A monitor with HDLC on a valid and empty ring: where one read, shorter than the room offered,
    -- brings the frames of some messages and then a part of a frame, exactly these messages are
    -- handled, in order, and the ring is empty again.
    pub dm_recv-frames :
        (ms : List Bytes) (part : Bytes) (fuel : ℕ) (b : CircBuf) (s : S)
        → IsValid b
        → unread b ≡ []
        → HasNoFlag part
        → read 0 (circ_space_to_end b) ≡ got (frames ms ++ part)
        → length (frames ms ++ part) < circ_space_to_end b
        → (b' : CircBuf) × IsValid b'
          × (unread b' ≡ [])
          × (dm_recv handle recover remove read fuel diag_encode_hdlc b s
              ≡ (handle_all handle ms s >>= λ t. some (returned ok, b', t)))
    unfolding dm_recv dm_recv_encoded dm_decode_data
    dm_recv-frames ms part fuel b s v none_left np e l =
        let filled = absorb_appends (frames ms ++ part) v (omega (arith, l)) in
        let run =
          dm_recv_hdlc-frames handle ms part (absorb b (frames ms ++ part)) s filled.0 np
            (filled.1 ∙ ap (λ u. u ++ (frames ms ++ part)) none_left) in
        (
          run.0,
          run.1,
          run.2,
          encoded_read b (frames ms ++ part) s e l
              ∙ rw run.3 (elim (Option-cases (handle_all handle ms s)) [
                | inl fails ↦ rw fails refl
                | inr (t, fine) ↦ rw fine refl
              ]),
        )
