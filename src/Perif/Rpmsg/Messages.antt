-- ===== src/Perif/Rpmsg/Messages.antt =====
-- The messages of a stream of bytes, as the decoder of router/hdlc.c hands them over.
use diag.Base.{
  ℕ, subst, ◌+◌, ◌-◌, ◌%◌, ◌^◌, ◌≤◌, ◌<◌, ◌≡◌, refl, sym, ap, ◌∙◌, ◌≢◌, ◌⊎◌, inl, inr, true, false,
  ◌||◌, List, [], ◌∷◌, ◌++◌, arith, ◌==◌, length,
}
use diag.Bytes.{Bytes}
use diag.Hdlc.{HdlcDecoder, hdlc_decoder_zero, starved, message, hdlc_put, hdlc_finish, not_full}
use diag.Hdlc.Refine.{decode_list}

-- A message as the decoder hands it over: its buffer, and the length that it reports.
abbrev pub Message : Type 0
Message = Bytes × ℕ

abbrev pub finished : HdlcDecoder → Message
finished d = (d.raw, (length d.raw + 2 ^ 64 - 2) % 2 ^ 64)

-- A decoder that takes a stream of bytes hands over these messages and ends so. The stream has no
-- empty frame and none longer than the decoder's buffer.
abbrev pub Feeds : HdlcDecoder → Bytes → List Message → HdlcDecoder → Type 0
Feeds d [] ms e = (ms ≡ []) × (d ≡ e)
Feeds d (ch ∷ rest) ms e =
    ((ch ≡ 0x7e)
      × ((length d.raw == 0) ≡ false)
      × (ns : List Message) × (ms ≡ finished d ∷ ns)
      × Feeds hdlc_decoder_zero rest ns e)
    ⊎ ((ch ≢ 0x7e) × ((ch == 0x7d || not_full d) ≡ true) × Feeds (hdlc_put d ch) rest ms e)

-- A stream is cut anywhere.
pub Feeds-cut :
    (xs ys : Bytes) (d e : HdlcDecoder) (ks : List Message)
    → Feeds d (xs ++ ys) ks e
    → (ms ns : List Message) × (c : HdlcDecoder) × Feeds d xs ms c
      × Feeds c ys ns e
      × (ks ≡ ms ++ ns)
Feeds-cut [] ys d e ks h = ([], ks, d, (refl, refl), h, refl)
Feeds-cut (x ∷ xs) ys d e ks (inl (flag, some_raw, ns, first, h)) =
    let later = Feeds-cut xs ys hdlc_decoder_zero e ns h in
    (
      finished d ∷ later.0,
      later.1,
      later.2,
      inl (flag, some_raw, later.0, refl, later.3),
      later.4,
      first ∙ ap (λ t. finished d ∷ t) later.5,
    )
Feeds-cut (x ∷ xs) ys d e ks (inr (plain, room, h)) =
    let later = Feeds-cut xs ys (hdlc_put d x) e ks h in
    (later.0, later.1, later.2, inr (plain, room, later.3), later.4, later.5)

-- The decoder over a list takes the first message of the stream, or starves.
pub Feeds-none :
    (xs : Bytes) (d e : HdlcDecoder) → Feeds d xs [] e → decode_list d xs ≡ (starved, e, [])
unfolding decode_list
Feeds-none [] d e h = ap (λ t. (starved, t, [])) h.1
Feeds-none (x ∷ xs) d e (inl (flag, some_raw, ns, first, h)) = absurd (ground (arith, first))
Feeds-none (x ∷ xs) d e (inr (plain, room, h)) =
    rw (no_flag, decode_list, room) (Feeds-none xs (hdlc_put d x) e h)
  where
    no_flag : (x == 0x7e) ≡ false
    no_flag = ground arith

pub at_flag :
    (xs : Bytes) (d : HdlcDecoder)
    → (length d.raw == 0) ≡ false
    → decode_list d (0x7e ∷ xs) ≡ (message (finished d).0 (finished d).1, hdlc_decoder_zero, xs)
unfolding decode_list hdlc_finish
at_flag xs d some_raw = rw some_raw refl

abbrev head_or : Message → List Message → Message
head_or m [] = m
head_or m (k ∷ ks) = k

abbrev tail_of : List Message → List Message
tail_of [] = []
tail_of (k ∷ ks) = ks

pub Feeds-some :
    (xs : Bytes) (d e : HdlcDecoder) (m : Message) (ms : List Message)
    → Feeds d xs (m ∷ ms) e
    → (rest : Bytes) × (decode_list d xs ≡ (message m.0 m.1, hdlc_decoder_zero, rest))
      × Feeds hdlc_decoder_zero rest ms e
      × (length rest < length xs)
unfolding decode_list hdlc_finish
Feeds-some [] d e m ms h = absurd (ground (arith, h.0))
Feeds-some (x ∷ xs) d e m ms (inl (flag, some_raw, ns, first, h)) =
    let same : m ≡ finished d = ap (head_or m) first in
    (
      xs,
      ap (λ y. decode_list d (y ∷ xs)) flag
          ∙ at_flag xs d some_raw
          ∙ ap (λ k. (message k.0 k.1, hdlc_decoder_zero, xs)) (sym same),
      subst (λ ks. Feeds hdlc_decoder_zero xs ks e) (sym (ap tail_of first)) h,
      omega arith,
    )
Feeds-some (x ∷ xs) d e m ms (inr (plain, room, h)) =
    let later = Feeds-some xs (hdlc_put d x) e m ms h in
    (later.0, rw (no_flag, decode_list, room) later.1, later.2, omega (arith, later.3))
  where
    no_flag : (x == 0x7e) ≡ false
    no_flag = ground arith

pub length-Feeds :
    (ms : List Message) (xs : Bytes) (d e : HdlcDecoder) → Feeds d xs ms e → length ms ≤ length xs
length-Feeds [] xs d e h = omega arith
length-Feeds (m ∷ ms) xs d e h =
    let first = Feeds-some xs d e m ms h in
    omega (arith, length-Feeds ms first.0 hdlc_decoder_zero e first.2, first.3)
