-- ===== src/Perif/Rpmsg/Stream/Frames.antt =====
-- Streams of frames through `diag_data_recv_hdlc` of router/peripheral-rpmsg.c.
use diag.Base.{
  ℕ, subst, ◌+◌, ◌≤◌, ◌<◌, ◌≡◌, refl, sym, ap, ◌∙◌, inl, inr, true, false, ◌||◌, Option, some, List,
  [], ◌∷◌, ◌++◌, map, append_assoc, arith, ◌==◌, ==_iff, Bool-cases, Option-cases, length,
  length-append, All,
}
use diag.Bytes.{Bytes}
use diag.CircBuf.{CircBuf, hdlc_buf_size, Kernel}
use diag.CircBuf.Inv.{IsValid, unread}
use diag.Queue.{◌>>=◌}
use diag.Hdlc.{
  hdlc_encode, HdlcDecoder, hdlc_decoder_zero, Decoded, starved, message, hdlc_put, hdlc_finish,
  not_full,
}
use diag.Hdlc.Crc.{crc_from, check_bytes}
use diag.Hdlc.Encode.{escaped, hdlc_encode_from-escaped}
use diag.Hdlc.Refine.{decode_list}
use diag.Hdlc.RoundTrip.{decode_list-escaped, hdlc_finish_long}
use diag.Dm.Recv.{frames, HasNoFlag, decode_list_part, handle_all}
use diag.Perif.Rpmsg.Data.{diag_data_recv_hdlc}
use diag.Perif.Rpmsg.Messages.{Message, Feeds, at_flag}
use diag.Perif.Rpmsg.Stream.{Arrives, joined, handle_messages, rounds}

abbrev message_of : Decoded → Message
message_of (message raw n) = (raw, n)
message_of _ = ([], 0)

abbrev kind_of : Decoded → ℕ
kind_of starved = 0
kind_of (message raw n) = 1
kind_of _ = 2

empty_frame :
    (xs : Bytes) (d : HdlcDecoder)
    → (length d.raw == 0) ≡ true
    → kind_of (decode_list d (0x7e ∷ xs)).0 ≡ 2
unfolding decode_list hdlc_finish
empty_frame xs d e = rw e refl

inside :
    (x : ℕ) (xs : Bytes) (d : HdlcDecoder)
    → (x == 0x7e) ≡ false
    → (x == 0x7d || not_full d) ≡ true
    → decode_list d (x ∷ xs) ≡ decode_list (hdlc_put d x) xs
unfolding decode_list
inside x xs d ne room = rw (ne, decode_list, room) refl

too_long :
    (x : ℕ) (xs : Bytes) (d : HdlcDecoder)
    → (x == 0x7e) ≡ false
    → (x == 0x7d || not_full d) ≡ false
    → kind_of (decode_list d (x ∷ xs)).0 ≡ 2
unfolding decode_list
too_long x xs d ne room = rw (ne, decode_list, room) refl

Feeds-message :
    (xs rest raw : Bytes) (n : ℕ) (d e : HdlcDecoder) (ms : List Message)
    → decode_list d xs ≡ (message raw n, hdlc_decoder_zero, rest)
    → Feeds hdlc_decoder_zero rest ms e
    → Feeds d xs ((raw, n) ∷ ms) e
unfolding decode_list
Feeds-message [] rest raw n d e ms h k = absurd (ground (arith, ap (λ t. kind_of t.0) h))
Feeds-message (x ∷ xs) rest raw n d e ms h k = elim (Bool-cases (x == 0x7e)) [
  | inl flag ↦
      let is_flag : x ≡ 0x7e = (==_iff x 0x7e).0 flag in
      elim (Bool-cases (length d.raw == 0)) [
        | inl nothing ↦ absurd (
            ground (
              arith,
              sym (empty_frame xs d nothing)
                  ∙ ap (λ y. kind_of (decode_list d (y ∷ xs)).0) (sym is_flag)
                  ∙ ap (λ t. kind_of t.0) h,
            ))
        | inr some_raw ↦
            let same =
              sym (at_flag xs d some_raw) ∙ ap (λ y. decode_list d (y ∷ xs)) (sym is_flag) ∙ h in
            inl (
              is_flag,
              some_raw,
              ms,
              ap (λ m. m ∷ ms) (sym (ap (λ t. message_of t.0) same)),
              subst (λ u. Feeds hdlc_decoder_zero u ms e) (sym (ap (λ t. t.2) same)) k,
            )
      ]
  | inr plain ↦ elim (Bool-cases (x == 0x7d || not_full d)) [
    | inl room ↦ inr (
      ground arith,
      room,
      Feeds-message xs rest raw n (hdlc_put d x) e ms (sym (inside x xs d plain room) ∙ h) k,
    )
    | inr full ↦ absurd (ground (arith, sym (too_long x xs d plain full) ∙ ap (λ t. kind_of t.0) h))
  ]
]

Feeds-part :
    (xs : Bytes) (d e : HdlcDecoder)
    → HasNoFlag xs
    → decode_list d xs ≡ (starved, e, [])
    → Feeds d xs [] e
unfolding decode_list
Feeds-part [] d e np h = (refl, ap (λ t. t.1) h)
Feeds-part (x ∷ xs) d e np h = elim (Bool-cases (x == 0x7d || not_full d)) [
  | inl room ↦ inr (
    np.0,
    room,
    Feeds-part xs (hdlc_put d x) e np.1 (sym (inside x xs d (ground (arith, np.0)) room) ∙ h),
  )
  | inr full ↦
      absurd (
        ground (arith, sym (too_long x xs d (ground (arith, np.0)) full) ∙ ap (λ t. kind_of t.0) h))
]

-- A message as it comes out of the decoder: the check sequence stands behind it and is not counted.
abbrev pub framed : Bytes → Message
framed m = (m ++ check_bytes (crc_from 0xffff m), length m)

-- A message that fits the decoder's buffer with its check sequence.
abbrev pub FitsDecoder : Bytes → Type 0
FitsDecoder m = length m + 2 ≤ hdlc_buf_size

frame_bytes : (m rest : Bytes) → hdlc_encode m ++ rest ≡ escaped (framed m).0 ++ (0x7e ∷ rest)
unfolding hdlc_encode
frame_bytes m rest =
    rw (hdlc_encode_from-escaped 0xffff m) (append_assoc (escaped (framed m).0) (0x7e ∷ []) rest)

decode_frame :
    (m rest : Bytes)
    → FitsDecoder m
    → decode_list hdlc_decoder_zero (hdlc_encode m ++ rest)
      ≡ (message (framed m).0 (framed m).1, hdlc_decoder_zero, rest)
decode_frame m rest fits =
    let body = m ++ check_bytes (crc_from 0xffff m) in
    let size : length body ≡ length m + 2 = length-append m (check_bytes (crc_from 0xffff m)) in
    let long =
      hdlc_finish_long body (omega (arith, size)) (omega (arith, size, fits))
      ∙ ap (λ n. (message body n, hdlc_decoder_zero)) (omega (arith, size)) in
    ap (decode_list hdlc_decoder_zero) (frame_bytes m rest)
    ∙ decode_list-escaped body [] rest (omega (arith, size, fits))
    ∙ ap (λ t. (t.0, t.1, rest)) long

Feeds-frames :
    (ms : List Bytes) (part : Bytes)
    → All FitsDecoder ms
    → HasNoFlag part
    → length part ≤ hdlc_buf_size
    → (e : HdlcDecoder) × Feeds hdlc_decoder_zero (frames ms ++ part) (map framed ms) e
unfolding frames
Feeds-frames [] part fits np l =
    let starving = decode_list_part part hdlc_decoder_zero np (omega (arith, l)) in
    (starving.0, Feeds-part part hdlc_decoder_zero starving.0 np starving.1)
Feeds-frames (m ∷ ms) part fits np l =
    let later = Feeds-frames ms part fits.1 np l in
    (
      later.0,
      subst (λ u. Feeds hdlc_decoder_zero u (map framed (m ∷ ms)) later.0)
          (sym (append_assoc (hdlc_encode m) (frames ms) part))
          (Feeds-message (hdlc_encode m ++ (frames ms ++ part)) (frames ms ++ part) (framed m).0
            (framed m).1 hdlc_decoder_zero later.0 (map framed ms)
            (decode_frame m (frames ms ++ part) fits.0) later.1),
    )

module _ {ℓ} {S : Type ℓ} (handle : Bytes → ℕ → S → Option S) where
  handle_messages-framed :
      (ms : List Bytes) (s : S) → handle_messages handle (map framed ms) s ≡ handle_all handle ms s
  unfolding handle_messages handle_all
  handle_messages-framed [] s = refl
  handle_messages-framed (m ∷ ms) s = elim (Option-cases (handle (framed m).0 (framed m).1 s)) [
    | inl fails ↦ rw fails refl
    | inr (t, fine) ↦ rw fine (handle_messages-framed ms t)
  ]

  -- From an empty ring and a cleared decoder, `diag_data_recv_hdlc` hands over exactly the messages
  -- of the frames that arrive, in order, however the stream is cut into the pieces that successful
  -- calls of `circ_read` bring, and returns the error of the call that fails and so ends it, if each
  -- message fits the decoder's buffer. The bytes of a last frame that is not complete stay in the
  -- decoder. More fuel than there are pieces is enough.
  pub diag_data_recv_hdlc-frames :
      (reads : ℕ → Kernel) (cs ms : List Bytes) (part : Bytes) (err fuel : ℕ) (b : CircBuf) (s : S)
      → IsValid b
      → unread b ≡ []
      → All FitsDecoder ms
      → HasNoFlag part
      → length part ≤ hdlc_buf_size
      → joined cs ≡ frames ms ++ part
      → Arrives reads 0 b.head cs err
      → length cs < fuel
      → (d : HdlcDecoder) × (b' : CircBuf) × Feeds hdlc_decoder_zero
          (frames ms ++ part)
          (map framed ms)
          d
        × (diag_data_recv_hdlc handle fuel reads 0 hdlc_decoder_zero b s
            ≡ (handle_all handle ms s >>= λ t. some (err, d, b', t)))
  diag_data_recv_hdlc-frames reads cs ms part err fuel b s v n fits np l e a f =
      let stream = Feeds-frames ms part fits np l in
      let run =
        rounds handle cs fuel 0 b.head err reads (map framed ms) hdlc_decoder_zero stream.0 b s v n
          refl f a
          (subst (λ u. Feeds hdlc_decoder_zero u (map framed ms) stream.0) (sym e) stream.1) in
      (
        stream.0,
        run.0,
        stream.1,
        run.1 ∙ ap (λ r. r >>= λ t. some (err, stream.0, run.0, t)) (handle_messages-framed ms s),
      )
