-- ===== src/Hdlc/RoundTrip.antt =====
-- `hdlc_decode_one` takes apart what `hdlc_encode` puts together, and what it makes of frames that
-- no encoder sent.
use diag.Base.{
  ℕ, ◌+◌, ◌-◌, ◌^◌, ◌≤◌, ◌<◌, ◌≡◌, refl, ap, ◌∙◌, inl, inr, false, List, [], ◌∷◌, ◌++◌, append-nil,
  append_assoc, arith, ◌==◌, ==_iff, Bool-cases, length, length-append, bit_xor-zero,
}
use diag.CircBuf.{CircBuf, hdlc_buf_size}
use diag.CircBuf.Inv.{IsValid, unread, length-unread}
use diag.Hdlc.{
  hdlc_escape_byte, hdlc_encode, HdlcDecoder, hdlc_decoder_zero, Decoded, message, hdlc_put,
  hdlc_finish, hdlc_decode_one,
}
use diag.Hdlc.Crc.{crc_from, check_bytes}
use diag.Hdlc.Encode.{escaped, hdlc_encode_from-escaped, length-escaped}
use diag.Hdlc.Refine.{decode_list, hdlc_decode_one-Agrees}

abbrev reading : List ℕ → HdlcDecoder
reading r = record { raw = r; escape = 0 }

-- A byte that is sent as it is.
decode_list_plain :
    (r tl : List ℕ) (x : ℕ)
    → (x == 0x7d) ≡ false
    → (x == 0x7e) ≡ false
    → length r < hdlc_buf_size
    → decode_list (reading r) (x ∷ tl) ≡ decode_list (reading (r ++ (x ∷ []))) tl
unfolding decode_list hdlc_put
decode_list_plain r tl x p q h = ground (arith, bit_xor-zero x)

decode_list-escape_byte :
    (r tl : List ℕ) (x : ℕ)
    → length r < hdlc_buf_size
    → decode_list (reading r) (hdlc_escape_byte x ++ tl) ≡ decode_list (reading (r ++ (x ∷ []))) tl
unfolding decode_list hdlc_escape_byte hdlc_put
decode_list-escape_byte r tl x h = elim (Bool-cases (x == 0x7d)) [
  | inl e ↦ rw ((==_iff x 0x7d).0 e) (ground arith)
  | inr ne ↦ elim (Bool-cases (x == 0x7e)) [
    | inl e ↦ rw ((==_iff x 0x7e).0 e) (ground arith)
    | inr ne' ↦ rw (ne, ne') (decode_list_plain r tl x ne ne' h)
  ]
]

pub decode_list-escaped :
    (xs r rest : List ℕ)
    → length r + length xs ≤ hdlc_buf_size
    → decode_list (reading r) (escaped xs ++ (0x7e ∷ rest))
      ≡ ((hdlc_finish (reading (r ++ xs))).0, (hdlc_finish (reading (r ++ xs))).1, rest)
unfolding escaped
decode_list-escaped [] r rest h = rw append-nil (unfold decode_list in refl)
decode_list-escaped (x ∷ xs) r rest h = rw (append_assoc (hdlc_escape_byte x)) (
    decode_list-escape_byte r (escaped xs ++ (0x7e ∷ rest)) x (omega arith)
    ∙ decode_list-escaped xs (r ++ (x ∷ [])) rest (omega (arith, length-append r (x ∷ [])))
    ∙ rw append_assoc)

pub hdlc_finish_long :
    (xs : List ℕ)
    → 2 ≤ length xs
    → length xs ≤ hdlc_buf_size
    → hdlc_finish (reading xs) ≡ (message xs (length xs - 2), hdlc_decoder_zero)
unfolding hdlc_finish
hdlc_finish_long xs h k = ground arith

-- What a call leaves: its result, a cleared decoder, and the bytes behind the frame.
pub record Delivers (out : Decoded × HdlcDecoder × CircBuf) (result : Decoded) (rest : List ℕ)
    : Type 0 where
  pub valid : IsValid out.2
  pub reports : out.0 ≡ result
  pub cleared : out.1 ≡ hdlc_decoder_zero
  pub leaves : unread out.2 ≡ rest

-- A frame in the ring is shorter than the ring.
framed-lt :
    (b : CircBuf) (xs rest : List ℕ)
    → unread b ≡ escaped xs ++ (0x7e ∷ rest)
    → length xs < hdlc_buf_size
framed-lt b xs rest e = omega (
  arith,
  length-unread b,
  ap (length {0}) e,
  length-append {0} (escaped xs) (0x7e ∷ rest),
  length-escaped xs,
)

framed_run :
    (b : CircBuf) (xs rest : List ℕ) (result : Decoded)
    → IsValid b
    → unread b ≡ escaped xs ++ (0x7e ∷ rest)
    → hdlc_finish (reading xs) ≡ (result, hdlc_decoder_zero)
    → Delivers (hdlc_decode_one hdlc_decoder_zero b) result rest
framed_run b xs rest result v e done =
    let run = hdlc_decode_one-Agrees hdlc_decoder_zero b v in
    let list_run =
      ap (decode_list hdlc_decoder_zero) e
      ∙ decode_list-escaped xs [] rest (omega (arith, framed-lt b xs rest e)) in
    record {
      valid = run.valid;
      reports = run.result ∙ ap (λ t. t.0) list_run ∙ ap (λ t. t.0) done;
      cleared = run.decoder ∙ ap (λ t. t.1) list_run ∙ ap (λ t. t.1) done;
      leaves = run.rest ∙ ap (λ t. t.2) list_run;
    }

-- From a valid ring whose unread bytes begin with an escaped body of at least two bytes and a flag,
-- a cleared decoder delivers that body whole, with the length less two, whatever its last two bytes
-- are: the check sequence is cut off and never compared.
pub hdlc_decode_one-framed :
    (b : CircBuf) (xs rest : List ℕ)
    → IsValid b
    → 2 ≤ length xs
    → unread b ≡ escaped xs ++ (0x7e ∷ rest)
    → Delivers (hdlc_decode_one hdlc_decoder_zero b) (message xs (length xs - 2)) rest
hdlc_decode_one-framed b xs rest v two e =
    framed_run b xs rest (message xs (length xs - 2)) v e
      (hdlc_finish_long xs two (omega (arith, framed-lt b xs rest e)))

-- From a valid ring whose unread bytes begin with the frame that `hdlc_encode` makes of a message,
-- a cleared decoder delivers the message and its check sequence with the message's length, and
-- leaves the bytes behind the frame.
pub hdlc_decode_one-hdlc_encode :
    (b : CircBuf) (src rest : List ℕ)
    → IsValid b
    → unread b ≡ hdlc_encode src ++ rest
    → Delivers
        (hdlc_decode_one hdlc_decoder_zero b)
        (message (src ++ check_bytes (crc_from 0xffff src)) (length src))
        rest
hdlc_decode_one-hdlc_encode b src rest v e =
    framed_run b (src ++ check) rest (message (src ++ check) (length src)) v framed (
      hdlc_finish_long (src ++ check) (omega (arith, size))
        (omega (arith, framed-lt b (src ++ check) rest framed))
      ∙ ap (λ n. (message (src ++ check) n, hdlc_decoder_zero)) (omega (arith, size)))
  where
    check : List ℕ
    check = check_bytes (crc_from 0xffff src)

    size : length (src ++ check) ≡ length src + 2
    size = length-append src check

    framed : unread b ≡ escaped (src ++ check) ++ (0x7e ∷ rest)
    framed =
        e
        ∙ unfold hdlc_encode in
          rw (hdlc_encode_from-escaped 0xffff src)
            (append_assoc (escaped (src ++ check)) (0x7e ∷ []) rest)

-- A frame of one byte is delivered with the length 2 ^ 64 - 1: the two decrements of the write
-- pointer go below the start of the buffer.
pub hdlc_decode_one_runt :
    (b : CircBuf) (x : ℕ) (rest : List ℕ)
    → IsValid b
    → unread b ≡ escaped (x ∷ []) ++ (0x7e ∷ rest)
    → Delivers (hdlc_decode_one hdlc_decoder_zero b) (message (x ∷ []) (2 ^ 64 - 1)) rest
hdlc_decode_one_runt b x rest v e =
    framed_run b (x ∷ []) rest (message (x ∷ []) (2 ^ 64 - 1)) v e (unfold hdlc_finish in refl)
