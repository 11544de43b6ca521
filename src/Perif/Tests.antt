-- ===== src/Perif/Tests.antt =====
-- A peripheral whose bytes come one at a time, and the theorems on the channels of peripherals.
use diag.Base.{
  ℕ, zero, suc, ◌+◌, ◌%◌, ◌≤◌, ◌<◌, ◌≡◌, refl, sym, ap, ◌∙◌, ◌≢◌, inl, inr, true, false, Option,
  none, some, List, [], ◌∷◌, ◌++◌, map, arith, ◌==◌, length, length-append,
}
use diag.Bytes.{Bytes}
use diag.World.{diag_encode_hdlc}
use diag.Dm.Read.{eagain}
use diag.Watch.{Timeval}
use diag.Daemon.{State, find_peripheral}
use diag.Daemon.Tests.{site, client, modem}
use diag.Perif.Rpmsg.{diag_cmd_recv, perif_rpmsg_close}
use diag.Perif.Rpmsg.Laws.{delivered, diag_cmd_recv-delivers}
use diag.Perif.Rpmsg.Close.{IsClosed, perif_rpmsg_close-IsClosed}
use diag.Perif.Nodes.{add_device, diag_name, peripheral_udev_update}
use diag.Perif.Nodes.Laws.{IsValid as SiteIsValid, peripheral_udev_update-IsValid}
use diag.CircBuf.{
  CircBuf, Kernel, got, failed, drained, error, circ_space_to_end, circ_space, absorb, circ_read,
  circ_read_loop,
}
use diag.CircBuf.Inv.{IsValid, unread, length-unread, absorb_appends, circ_space-count}
use diag.CircBuf.Tests.{empty_ring, empty_ring-IsValid}
use diag.Hdlc.{HdlcDecoder, hdlc_decoder_zero, hdlc_encode}
use diag.Hdlc.Encode.{length-hdlc_encode}
use diag.Queue.{◌>>=◌, nhdlc_frame}
use diag.Dm.Recv.{frames, handle_all}
use diag.Perif.Rpmsg.Data.{diag_data_recv_hdlc}
use diag.Perif.Rpmsg.Messages.{Feeds}
use diag.Perif.Rpmsg.Stream.{Brings, Arrives, joined}
use diag.Perif.Rpmsg.Stream.Frames.{framed, diag_data_recv_hdlc-frames}
use diag.Perif.Rpmsg.Stream.Stalls.{diag_data_recv_hdlc_stalls}
use diag.World.{Peripheral}
use diag.Daemon.{on_world}
use diag.Perif.Frame.{check_frame, broadcast_frame}
use diag.Perif.Qrtr.{open_data, qrtr_data_recv, decoded, qrtr_type_data}
use diag.Perif.Qrtr.Laws.{HasWriter, qrtr_data_recv-HasWriter}

abbrev town : State
town = site (client diag_encode_hdlc)

abbrev hello : Bytes
hello = 0x60 ∷ 0x7e ∷ []

diag_cmd_recv-delivers_example :
    diag_cmd_recv [] (got (nhdlc_frame hello ++ (1 ∷ []))) 5 town ≡ some (delivered hello none town)
diag_cmd_recv-delivers_example =
    diag_cmd_recv-delivers [] hello (1 ∷ []) 5 town (omega arith) (λ n. refl) (inr (inl refl), tt)

found : find_peripheral 5 (modem ∷ []) ≡ some modem
unfolding find_peripheral
found = refl

perif_rpmsg_close-IsClosed_example :
    (s' : State) × (perif_rpmsg_close 5 town ≡ some s') × IsClosed 5 modem s'
perif_rpmsg_close-IsClosed_example = perif_rpmsg_close-IsClosed 5 modem town found

abbrev noon : Timeval
noon = record { tv_sec = 5; tv_usec = 0 }

peripheral_udev_update-IsValid_example : SiteIsValid (
    peripheral_udev_update empty_ring
      (some (9 ∷ []))
      (add_device (some diag_name) (some (8 ∷ [])))
      noon
      town)
peripheral_udev_update-IsValid_example =
    peripheral_udev_update-IsValid empty_ring (some (9 ∷ []))
      (add_device (some diag_name) (some (8 ∷ []))) noon town
      (record { paths = tt; names = (tt, tt); below = (omega arith, tt) })

-- The kernel has one byte, and then EAGAIN.
abbrev one_byte : ℕ → Kernel
one_byte x zero room = got (x ∷ [])
one_byte x (suc i) room = failed eagain

room_in_empty :
    {h : ℕ} (b : CircBuf)
    → IsValid b
    → unread b ≡ []
    → h < 16383
    → b.head ≡ h
    → 2 ≤ circ_space_to_end b
unfolding circ_space_to_end
room_in_empty b v e l at =
    omega (arith, circ_space-count v, length-unread b, ap (length {0}) e, v.head_in)

-- Before the end of the ring's memory a byte does not fill the ring.
one_byte_read :
    (n x h : ℕ) (b : CircBuf)
    → h < 16383
    → IsValid b
    → unread b ≡ []
    → b.head ≡ h
    → (b' : CircBuf) × IsValid b'
      × (unread b' ≡ x ∷ [])
      × (circ_read_loop (suc n) (one_byte x) 0 b ≡ (drained, b'))
      × (b'.head ≡ (h + 1) % 16384)
unfolding circ_read_loop absorb
one_byte_read n x h b l v e at = (
  absorb b (x ∷ []),
  one.0,
  one.1 ∙ ap (λ u. u ++ (x ∷ [])) e,
  rw (room, circ_read_loop, part) refl,
  ap (λ t. (t + 1) % 16384) at,
)
  where
    room : (circ_space_to_end b == 0) ≡ false
    room = ground (arith, room_in_empty b v e l at)

    part : (1 == circ_space_to_end b) ≡ false
    part = ground (arith, room_in_empty b v e l at)

    one : IsValid (absorb b (x ∷ [])) × (unread (absorb b (x ∷ [])) ≡ unread b ++ (x ∷ []))
    one = absorb_appends (x ∷ []) v (omega (arith, room_in_empty b v e l at))

one_byte-Brings : (x h : ℕ) → h < 16383 → Brings (one_byte x) h (x ∷ [])
unfolding circ_read
one_byte-Brings x h l b = one_byte_read 16383 x h b l

-- The bytes of a stream, one in each round, and then EAGAIN.
abbrev slowly : Bytes → ℕ → Kernel
slowly [] i = λ j room. failed eagain
slowly (x ∷ xs) zero = one_byte x
slowly (x ∷ xs) (suc i) = slowly xs i

abbrev singles : Bytes → List Bytes
singles [] = []
singles (x ∷ xs) = (x ∷ []) ∷ singles xs

later-Arrives :
    (x : ℕ) (xs : Bytes) (cs : List Bytes) (i h err : ℕ)
    → Arrives (slowly xs) i h cs err
    → Arrives (slowly (x ∷ xs)) (suc i) h cs err
later-Arrives x xs [] i h err a = a
later-Arrives x xs (c ∷ cs) i h err a =
    (a.0, later-Arrives x xs cs (suc i) ((h + length c) % 16384) err a.1)

nothing_read :
    (n h : ℕ) (b : CircBuf)
    → h < 16383
    → IsValid b
    → unread b ≡ []
    → b.head ≡ h
    → (circ_read_loop (suc n) (λ j r. failed eagain) 0 b).0 ≡ error eagain
unfolding circ_read_loop
nothing_read n h b l v e at = rw (room, circ_read_loop) refl
  where
    room : (circ_space_to_end b == 0) ≡ false
    room = ground (arith, room_in_empty b v e l at)

slowly-ends : (h : ℕ) → h < 16383 → Arrives (slowly []) 0 h [] eagain
unfolding circ_read
slowly-ends h l b = nothing_read 16383 h b l

slowly-Arrives :
    (xs : Bytes) (h : ℕ) → h + length xs < 16383 → Arrives (slowly xs) 0 h (singles xs) eagain
slowly-Arrives [] h l = slowly-ends h (omega (arith, l))
slowly-Arrives (x ∷ xs) h l = (
  one_byte-Brings x h (omega (arith, l)),
  later-Arrives x xs (singles xs) 0 ((h + 1) % 16384) eagain
      (slowly-Arrives xs ((h + 1) % 16384) (omega (arith, l))),
)

joined-singles : (xs : Bytes) → joined (singles xs) ≡ xs
joined-singles [] = refl
joined-singles (x ∷ xs) = ap (λ t. x ∷ t) (joined-singles xs)

-- The handling counts the bytes of the messages.
abbrev tally : Bytes → ℕ → ℕ → Option ℕ
tally msg len n = some (n + len)

abbrev reports : List Bytes
reports = (4 ∷ 5 ∷ []) ∷ (0x7d ∷ []) ∷ []

abbrev stream : Bytes
stream = frames reports ++ (6 ∷ [])

stream_short : 0 + length stream < 16383
unfolding frames
stream_short = omega (
  arith,
  length-append {0} (frames reports) (6 ∷ []),
  length-append {0} (hdlc_encode (4 ∷ 5 ∷ [])) (hdlc_encode (0x7d ∷ []) ++ []),
  length-append {0} (hdlc_encode (0x7d ∷ [])) [],
  length-hdlc_encode (4 ∷ 5 ∷ []),
  length-hdlc_encode (0x7d ∷ []),
)

diag_data_recv_hdlc-frames_example :
    (d : HdlcDecoder) × (b' : CircBuf) × Feeds hdlc_decoder_zero stream (map framed reports) d
    × (diag_data_recv_hdlc tally
          (suc (length (singles stream)))
          (slowly stream)
          0
          hdlc_decoder_zero
          empty_ring
          0
        ≡ (handle_all tally reports 0 >>= λ t. some (eagain, d, b', t)))
diag_data_recv_hdlc-frames_example =
    diag_data_recv_hdlc-frames tally (slowly stream) (singles stream) reports (6 ∷ []) eagain
      (suc (length (singles stream))) empty_ring 0 empty_ring-IsValid refl
      (omega arith, (omega arith, tt)) ((λ e. absurd (omega (arith, e))), tt) (omega arith)
      (joined-singles stream) (slowly-Arrives stream 0 stream_short) (omega arith)

-- An empty ring whose head is at the last place.
abbrev at_end : CircBuf
at_end = record empty_ring { head = 16383; tail = 16383 }

at_end-IsValid : IsValid at_end
at_end-IsValid = record {
  size = empty_ring-IsValid.size;
  head_in = omega arith;
  tail_in = omega arith;
}

abbrev one_place : Kernel
one_place zero room = got (4 ∷ [])
one_place (suc i) room = failed eagain

one_room : circ_space_to_end at_end ≡ 1
unfolding circ_space_to_end circ_space
one_room = refl

new_room : circ_space_to_end (absorb at_end (4 ∷ [])) ≢ 0
unfolding circ_space_to_end circ_space absorb
new_room e = absurd (omega (arith, e))

diag_data_recv_hdlc_stalls_example :
    (diag_data_recv_hdlc tally 1 (λ i. one_place) 0 hdlc_decoder_zero at_end 0
      ≡ some (eagain, hdlc_decoder_zero, absorb at_end (4 ∷ []), 0))
    × (unread (absorb at_end (4 ∷ [])) ≡ unread at_end ++ (4 ∷ []))
diag_data_recv_hdlc_stalls_example =
    diag_data_recv_hdlc_stalls tally 0 0 eagain (λ i. one_place) hdlc_decoder_zero at_end (4 ∷ []) 0
      at_end-IsValid (λ e. absurd (omega (arith, e, one_room))) refl (sym one_room) new_room refl

-- The modem on sockets, with no watch on its data socket.
abbrev socket_modem : Peripheral
socket_modem = record modem { sockets = true }

abbrev station : State
station = record (on_world (λ w. record w { peripherals = socket_modem ∷ [] }) town) {
  aio_watches = [];
}

socket_found : find_peripheral 5 (socket_modem ∷ []) ≡ some socket_modem
unfolding find_peripheral
socket_found = refl

-- The state after a packet that was not a frame.
abbrev connected : State
connected = open_data 5 socket_modem 7 station

no_frame : qrtr_data_recv (decoded qrtr_type_data 1 2 []) 7 5 station ≡ some (false, connected)
unfolding qrtr_data_recv broadcast_frame check_frame find_peripheral
no_frame = refl

qrtr_data_recv-HasWriter_example : HasWriter 7 5 connected
qrtr_data_recv-HasWriter_example =
    qrtr_data_recv-HasWriter (decoded qrtr_type_data 1 2 []) 7 5 station connected false
      (socket_modem, socket_found, refl) no_frame
