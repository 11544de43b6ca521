-- ===== src/Transport/Laws.antt =====
-- The transfers of router/usb.c.
use diag.Base.{
  ℕ, subst, zero, suc, ◌≤◌, ◌<◌, ◌≡◌, refl, sym, ap, ap₂, ◌∙◌, ◌≢◌, inl, inr, false, some, List, [],
  ◌∷◌, ◌++◌, arith, ◌==◌, if◌then◌else◌, Option-cases, length, take, length-replicate,
}
use diag.Bytes.{Bytes}
use diag.CircBuf.{CircBuf, hdlc_buf_size, absorb, store, circ_space, circ_space_to_end, take_byte}
use diag.CircBuf.Inv.{IsValid, unread, absorb_appends}
use diag.World.{Mbuf, DiagClient, ok, diag_encode_hdlc}
use diag.Hdlc.{
  HdlcDecoder, Decoded, starved, hdlc_finish, hdlc_put, hdlc_decode_loop, hdlc_decode_one,
}
use diag.Queue.{◌>>=◌}
use diag.Dm.{dm_recv_hdlc}
use diag.Dm.Recv.{frames, handle_all, HasNoFlag, dm_recv_hdlc-frames}
use diag.Dm.Read.{returned, dm_decode_data}
use diag.Watch.{Timeval}
use diag.Daemon.{State, handle_command}
use diag.Daemon.Client.{find_client, decode_for}
use diag.Transport.{UsbHandle, zeroed, transfer_ring, diag_ffs_recv}

-- The ring before the copy.
abbrev cleared : CircBuf
cleared = record { buf = zeroed; head = 0; tail = 0 }

length-zeroed : length zeroed ≡ hdlc_buf_size
unfolding zeroed
length-zeroed = length-replicate {A = ℕ} hdlc_buf_size 0

cleared-IsValid : IsValid cleared
cleared-IsValid = record { size = length-zeroed; head_in = omega arith; tail_in = omega arith }

take_all : (xs : Bytes) → take (length xs) xs ≡ xs
take_all [] = refl
take_all (x ∷ xs) = ap (λ t. x ∷ t) (take_all xs)

transfer-absorb :
    (m : Mbuf)
    → length m.payload ≡ m.offset
    → m.offset < hdlc_buf_size
    → transfer_ring m ≡ absorb cleared m.payload
unfolding transfer_ring absorb
transfer-absorb m l h =
    ap₂ (λ mem n. record { buf = mem; head = n; tail = 0 })
      (ap (store zeroed 0) (ap (λ n. take n m.payload) (sym l) ∙ take_all m.payload))
      (omega (arith, l))

room_when_cleared : (n : ℕ) → n < hdlc_buf_size → n ≤ circ_space_to_end cleared
unfolding circ_space_to_end circ_space
room_when_cleared n h = omega arith

-- The ring of a transfer shorter than the ring is valid, and the transfer's bytes are what is to
-- be decoded.
pub transfer_ring-unread :
    (m : Mbuf)
    → length m.payload ≡ m.offset
    → m.offset < hdlc_buf_size
    → IsValid (transfer_ring m) × (unread (transfer_ring m) ≡ m.payload)
transfer_ring-unread m l h =
    subst (λ b. IsValid b × (unread b ≡ m.payload)) (sym (transfer-absorb m l h))
      (absorb_appends m.payload cleared-IsValid
        (room_when_cleared (length m.payload) (omega (arith, l))))

-- The state behind a transfer: the buffer is queued to be read into again.
abbrev pub requeued : UsbHandle → Mbuf → State → State
requeued ffs m s = record s {
  queues = λ q. if q == ffs.outq then s.queues q ++ (record m { offset = 0 } ∷ []) else s.queues q;
}

decode_hdlc :
    (now : Timeval) (addr : ℕ) (dm : DiagClient) (b : CircBuf) (s : State)
    → find_client addr s.rest.world.clients ≡ some dm
    → dm.encode_type ≡ diag_encode_hdlc
    → decode_for now addr b s
      ≡ (dm_recv_hdlc (handle_command addr) b s >>= λ t. some (returned ok, t.0, t.1))
unfolding decode_for dm_decode_data
decode_hdlc now addr dm b s found e = rw (found, decode_for, e) refl

-- A transfer shorter than the ring, to a monitor with HDLC, that carries the frames of some messages
-- and then a part of a frame: exactly these messages are handled, in order, and the buffer is queued
-- to be read into again. The part of a frame is dropped.
pub diag_ffs_recv-frames :
    (now : Timeval) (ffs : UsbHandle) (dm : DiagClient) (m : Mbuf) (ms : List Bytes) (part : Bytes)
    (s : State)
    → find_client ffs.dm s.rest.world.clients ≡ some dm
    → dm.encode_type ≡ diag_encode_hdlc
    → HasNoFlag part
    → m.payload ≡ frames ms ++ part
    → length m.payload ≡ m.offset
    → m.offset < hdlc_buf_size
    → diag_ffs_recv now ffs m s
      ≡ (handle_all (handle_command ffs.dm) ms s >>= λ t. some (requeued ffs m t))
unfolding diag_ffs_recv
diag_ffs_recv-frames now ffs dm m ms part s found e np p l h =
    let ring = transfer_ring-unread m l h in
    let run =
      dm_recv_hdlc-frames (handle_command ffs.dm) ms part (transfer_ring m) s ring.0 np
        (ring.1 ∙ p) in
    rw (decode_hdlc now ffs.dm dm (transfer_ring m) s found e, run.3)
      (elim (Option-cases (handle_all (handle_command ffs.dm) ms s)) [
        | inl fails ↦ rw fails refl
        | inr (t, fine) ↦ rw fine refl
      ])

-- The tail of a ring is below its size, and the head is not.
abbrev IsPast : CircBuf → Type 0
IsPast b = (b.head ≡ hdlc_buf_size) × (b.tail < hdlc_buf_size)

loop-never_starves :
    (fuel : ℕ) (d : HdlcDecoder) (b : CircBuf)
    → IsPast b
    → ((hdlc_decode_loop fuel d b).0 ≢ starved) × IsPast (hdlc_decode_loop fuel d b).2
unfolding hdlc_decode_loop take_byte hdlc_finish
loop-never_starves zero d b h = (λ e. absurd (ground (arith, e)), h)
loop-never_starves (suc fuel) d b h =
    let later : IsPast (take_byte b).1 = (h.0, omega arith) in
    rw (apart, hdlc_decode_loop)
      (ground (arith, loop-never_starves fuel (hdlc_put d (take_byte b).0) (take_byte b).1 later))
  where
    apart : (b.tail == b.head) ≡ false
    apart = ground arith

one-never_starves :
    (d : HdlcDecoder) (b : CircBuf)
    → IsPast b
    → ((hdlc_decode_one d b).0 ≢ starved) × IsPast (hdlc_decode_one d b).2
unfolding hdlc_decode_one
one-never_starves = loop-never_starves hdlc_buf_size

-- What the decoder says after so many calls more.
abbrev pub decoded_after : ℕ → HdlcDecoder → CircBuf → Decoded
decoded_after zero d b = (hdlc_decode_one d b).0
decoded_after (suc n) d b = decoded_after n (hdlc_decode_one d b).1 (hdlc_decode_one d b).2

after-never_starves :
    (n : ℕ) (d : HdlcDecoder) (b : CircBuf) → IsPast b → decoded_after n d b ≢ starved
after-never_starves zero d b h = (one-never_starves d b h).0
after-never_starves (suc n) d b h =
    after-never_starves n (hdlc_decode_one d b).1 (hdlc_decode_one d b).2
      (one-never_starves d b h).1

-- A transfer that fills its buffer of 16384 bytes never starves the decoder, however often it is
-- called: the ring's head stands at the ring's size, which its tail never reaches.
pub transfer_never_starves :
    (n : ℕ) (d : HdlcDecoder) (m : Mbuf)
    → m.offset ≡ hdlc_buf_size
    → decoded_after n d (transfer_ring m) ≢ starved
unfolding transfer_ring
transfer_never_starves n d m h = after-never_starves n d (transfer_ring m) (h, omega arith)
