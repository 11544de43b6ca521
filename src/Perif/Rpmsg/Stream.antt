-- ===== src/Perif/Rpmsg/Stream.antt =====
-- `diag_data_recv_hdlc` of router/peripheral-rpmsg.c over a stream of bytes that comes in pieces.
pub mod Frames
pub mod Stalls
use diag.Base.{
  ℕ, subst, zero, suc, ◌+◌, ◌-◌, ◌*◌, ◌/◌, ◌%◌, ◌^◌, ◌≤◌, ◌<◌, min, bit_and, bit_or, bit_xor, ◌≡◌,
  refl, sym, ap, ap₂, ◌∙◌, ◌≢◌, ◌↔◌, ◌⊎◌, inl, inr, Bool, true, false, not, ◌&&◌, ◌||◌, Option,
  none, some, List, [], ◌∷◌, ◌++◌, map, append-nil, append_assoc, arith, ltb, leb, ◌==◌,
  if◌then◌else◌, ltb→lt, ==_iff, ==_refl, Bool-cases, Option-cases, length, get_elem?, get_or, set,
  take, drop, replicate, keep_if, length-append, length-set, length-take, length-drop,
  length-replicate, get_or-set_self, get_or-set_ne, take-append, drop-append, All, All-append,
  passes_below, passes_below-lt, bit_xor_step, bit_xor-zero, bit_xor_fields, bit_xor-lt,
}
use diag.Bytes.{Bytes}
use diag.CircBuf.{ReadStatus, CircBuf, hdlc_buf_size, Kernel, drained, error, circ_read, take_byte}
use diag.CircBuf.Inv.{IsValid, unread, length-unread}
use diag.Queue.{◌>>=◌}
use diag.Hdlc.{
  HdlcDecoder, hdlc_decoder_zero, starved, message, hdlc_put, hdlc_finish, not_full,
  hdlc_decode_one, hdlc_decode_loop,
}
use diag.Hdlc.Refine.{decode_list, hdlc_decode_one-Agrees}
use diag.Perif.Rpmsg.Data.{drain_ring, diag_data_recv_hdlc}
use diag.Perif.Rpmsg.Messages.{
  Message, finished, Feeds, Feeds-cut, Feeds-none, at_flag, Feeds-some, length-Feeds,
}

-- Where the head of an empty ring stands at `h`, a call of `circ_read` succeeds and brings these bytes.
abbrev pub Brings : Kernel → ℕ → Bytes → Type 0
Brings read h c =
    (b : CircBuf)
    → IsValid b
    → unread b ≡ []
    → b.head ≡ h
    → (b' : CircBuf) × IsValid b'
      × (unread b' ≡ c)
      × (circ_read read b ≡ (drained, b'))
      × (b'.head ≡ (h + length c) % hdlc_buf_size)

-- From round `i` on, with the head at `h`, the calls bring these pieces, and then one fails.
abbrev pub Arrives : (ℕ → Kernel) → ℕ → ℕ → List Bytes → ℕ → Type 0
Arrives reads i h [] err =
    (b : CircBuf) → IsValid b → unread b ≡ [] → b.head ≡ h → (circ_read (reads i) b).0 ≡ error err
Arrives reads i h (c ∷ cs) err =
    Brings (reads i) h c × Arrives reads (suc i) ((h + length c) % hdlc_buf_size) cs err

-- The decoder does not move the head.
hdlc_decode_loop-head :
    (fuel : ℕ) (d : HdlcDecoder) (b : CircBuf) → (hdlc_decode_loop fuel d b).2.head ≡ b.head
unfolding hdlc_decode_loop take_byte
hdlc_decode_loop-head zero d b = refl
hdlc_decode_loop-head (suc fuel) d b =
    ground (arith, hdlc_decode_loop-head fuel (hdlc_put d (take_byte b).0) (take_byte b).1)

hdlc_decode_one-head : (d : HdlcDecoder) (b : CircBuf) → (hdlc_decode_one d b).2.head ≡ b.head
unfolding hdlc_decode_one
hdlc_decode_one-head d b = hdlc_decode_loop-head hdlc_buf_size d b

abbrev pub joined : List Bytes → Bytes
joined [] = []
joined (c ∷ cs) = c ++ joined cs

module _ {ℓ} {S : Type ℓ} (handle : Bytes → ℕ → S → Option S) where
  unfoldable pub handle_messages : List Message → S → Option S
  handle_messages [] s = some s
  handle_messages (m ∷ ms) s = handle m.0 m.1 s >>= handle_messages ms

  drain-Feeds :
      (fuel : ℕ) (ms : List Message) (d e : HdlcDecoder) (b : CircBuf) (s : S)
      → IsValid b
      → length ms < fuel
      → Feeds d (unread b) ms e
      → (b' : CircBuf) × IsValid b'
        × (unread b' ≡ [])
        × (b'.head ≡ b.head)
        × (drain_ring handle fuel d b s ≡ (handle_messages ms s >>= λ t. some (e, b', t)))
  unfolding drain_ring handle_messages
  drain-Feeds zero ms d e b s v f h = absurd (omega arith)
  drain-Feeds (suc fuel) [] d e b s v f h =
      let run = hdlc_decode_one-Agrees d b v in
      let list_run = Feeds-none (unread b) d e h in
      (
        (hdlc_decode_one d b).2,
        run.valid,
        run.rest ∙ ap (λ t. t.2) list_run,
        hdlc_decode_one-head d b,
        rw (run.result ∙ ap (λ t. t.0) list_run, drain_ring)
            (ap (λ c. some (c, (hdlc_decode_one d b).2, s)) (run.decoder ∙ ap (λ t. t.1) list_run)),
      )
  drain-Feeds (suc fuel) (m ∷ ms) d e b s v f h =
      let run = hdlc_decode_one-Agrees d b v in
      let first = Feeds-some (unread b) d e m ms h in
      let b1 = (hdlc_decode_one d b).2 in
      let reports = run.result ∙ ap (λ t. t.0) first.1 in
      let cleared = run.decoder ∙ ap (λ t. t.1) first.1 in
      let left =
        subst (λ u. Feeds hdlc_decoder_zero u ms e) (sym (run.rest ∙ ap (λ t. t.2) first.1))
          first.2 in
      elim (Option-cases (handle m.0 m.1 s)) [
        | inl fails ↦
            let later = drain-Feeds fuel ms hdlc_decoder_zero e b1 s run.valid (omega arith) left in
            (
              later.0,
              later.1,
              later.2,
              later.3 ∙ hdlc_decode_one-head d b,
              rw (reports, fails, drain_ring, handle_messages) refl,
            )
        | inr (t, fine) ↦
            let later = drain-Feeds fuel ms hdlc_decoder_zero e b1 t run.valid (omega arith) left in
            (
              later.0,
              later.1,
              later.2,
              later.3 ∙ hdlc_decode_one-head d b,
              rw (reports, drain_ring, fine, cleared, handle_messages) later.4,
            )
      ]

  handle_messages-append :
      (ms ns : List Message) (s : S)
      → handle_messages (ms ++ ns) s ≡ (handle_messages ms s >>= handle_messages ns)
  unfolding handle_messages
  handle_messages-append [] ns s = refl
  handle_messages-append (m ∷ ms) ns s = elim (Option-cases (handle m.0 m.1 s)) [
    | inl fails ↦ rw (fails) refl
    | inr (t, fine) ↦ rw (fine) (handle_messages-append ms ns t)
  ]

  -- What a round does after its read.
  abbrev Result : Type ℓ
  Result = Option (ℕ × HdlcDecoder × CircBuf × S)

  abbrev Drained : Type ℓ
  Drained = Option (HdlcDecoder × CircBuf × S)

  abbrev go_on : (HdlcDecoder → CircBuf → S → Result) → Drained → Result
  go_on f none = none
  go_on f (some (d, b, s)) = f d b s

  go_on_after :
      (f : HdlcDecoder → CircBuf → S → Result) (d : HdlcDecoder) (b : CircBuf) (h : Option S)
      → go_on f (h >>= λ t. some (d, b, t)) ≡ (h >>= f d b)
  go_on_after f d b none = refl
  go_on_after f d b (some t) = refl

  one_round :
      (fuel i : ℕ) (reads : ℕ → Kernel) (d : HdlcDecoder) (b b1 : CircBuf) (s : S)
      → circ_read (reads i) b ≡ (drained, b1)
      → diag_data_recv_hdlc handle (suc fuel) reads i d b s
        ≡ go_on
            (diag_data_recv_hdlc handle fuel reads (suc i))
            (drain_ring handle hdlc_buf_size d b1 s)
  unfolding diag_data_recv_hdlc
  one_round fuel i reads d b b1 s e = ap next e ∙ after (drain_ring handle hdlc_buf_size d b1 s)
    where
      next : ReadStatus × CircBuf → Result
      next p = elim p.0 [
        | drained ↦ elim (drain_ring handle hdlc_buf_size d p.1 s) [
          | none ↦ none
          | some (d', b', s') ↦ diag_data_recv_hdlc handle fuel reads (suc i) d' b' s'
        ]
        | error err ↦ some (err, d, p.1, s)
        | ReadStatus.out_of_fuel ↦ none
      ]

      after :
          (r : Drained)
          → elim r [
            | none ↦ none
            | some (d', b', s') ↦ diag_data_recv_hdlc handle fuel reads (suc i) d' b' s'
          ]
            ≡ go_on (diag_data_recv_hdlc handle fuel reads (suc i)) r
      after none = refl
      after (some t) = refl

  pub rounds :
      (cs : List Bytes) (fuel i h err : ℕ) (reads : ℕ → Kernel) (ms : List Message)
      (d e : HdlcDecoder) (b : CircBuf) (s : S)
      → IsValid b
      → unread b ≡ []
      → b.head ≡ h
      → length cs < fuel
      → Arrives reads i h cs err
      → Feeds d (joined cs) ms e
      → (b' : CircBuf) × (diag_data_recv_hdlc handle fuel reads i d b s
          ≡ (handle_messages ms s >>= λ t. some (err, e, b', t)))
  unfolding diag_data_recv_hdlc handle_messages
  rounds cs zero i hd err reads ms d e b s v n at f a h = absurd (omega arith)
  rounds [] (suc fuel) i hd err reads ms d e b s v n at f a h =
      ((circ_read (reads i) b).1, rw (a b v n at, diag_data_recv_hdlc, h.0, h.1) refl)
  rounds (c ∷ cs) (suc fuel) i hd err reads ms d e b s v n at f a h =
      let cut = Feeds-cut c (joined cs) d e ms h in
      let here = a.0 b v n at in
      let drains =
        drain-Feeds hdlc_buf_size cut.0 d cut.2 here.0 s here.1
          (omega (
            arith,
            length-Feeds cut.0 c d cut.2 cut.3,
            length-unread here.0,
            ap (length {0}) here.2,
          ))
          (subst (λ u. Feeds d u cut.0 cut.2) (sym here.2) cut.3) in
      let rest = diag_data_recv_hdlc handle fuel reads (suc i) in
      let run =
        one_round fuel i reads d b here.0 s here.3
        ∙ ap (go_on rest) drains.4
        ∙ go_on_after rest cut.2 drains.0 (handle_messages cut.0 s) in
      let wanted = ap (λ l. handle_messages l s) cut.5 ∙ handle_messages-append cut.0 cut.1 s in
      elim (Option-cases (handle_messages cut.0 s)) [
        | inl fails ↦ (
          b,
          run
              ∙ ap (λ r. r >>= rest cut.2 drains.0) fails
              ∙ sym (
                  ap (λ r. r >>= λ t. some (err, e, b, t))
                    (wanted ∙ ap (λ r. r >>= handle_messages cut.1) fails)),
        )
        | inr (t, fine) ↦
            let later =
              rounds cs fuel (suc i) ((hd + length c) % hdlc_buf_size) err reads cut.1 cut.2 e
                drains.0 t drains.1 drains.2 (drains.3 ∙ here.4) (omega arith) a.1 cut.4 in
            (
              later.0,
              run
                  ∙ ap (λ r. r >>= rest cut.2 drains.0) fine
                  ∙ later.1
                  ∙ sym (
                      ap (λ r. r >>= λ u. some (err, e, later.0, u))
                        (wanted ∙ ap (λ r. r >>= handle_messages cut.1) fine)),
            )
      ]
