-- ===== src/SendData/Replies.antt =====
-- When the loop of tools/send_data.c ends.
use diag.Base.{
  ℕ, zero, suc, ◌≤◌, ◌≡◌, refl, sym, ap, ◌∙◌, ◌≢◌, Bool, true, false, Option, none, some, List, [],
  ◌∷◌, ◌++◌, map, append-nil, arith, ◌==◌, length, take, All,
}
use diag.Bytes.{Bytes}
use diag.SendData.{
  buf_size, received, Turn, timed_out, not_set, unreadable, packet, Ending, returns_0, waits,
  diag_cmd_rsp_bad_command, print_from, is_reply, wait_response,
}

-- A packet of at most 8192 bytes that neither reports a bad command nor begins as the request does.
unfoldable pub IsOther : Bool → ℕ → Bytes → Type 0
IsOther is_signed m [] = ⊥
IsOther is_signed m (c ∷ s) =
    (c ≢ diag_cmd_rsp_bad_command) × (is_reply is_signed c m ≡ false) × (suc (length s) ≤ buf_size)

unfoldable pub printed : Bool → List Bytes → Bytes
printed is_signed [] = []
printed is_signed (p ∷ ps) = print_from is_signed 0 p ++ printed is_signed ps

no_bad : (c : ℕ) → c ≢ diag_cmd_rsp_bad_command → (c == diag_cmd_rsp_bad_command) ≡ false
no_bad c ne = ground (arith, ne)

take_short : (n : ℕ) (xs : Bytes) → length xs ≤ n → take n xs ≡ xs
take_short zero [] h = refl
take_short zero (x ∷ xs) h = absurd (omega (arith, h))
take_short (suc n) [] h = refl
take_short (suc n) (x ∷ xs) h = ap (λ t. x ∷ t) (take_short n xs (omega (arith, h)))

IsOther-length :
    (is_signed : Bool) (m : ℕ) (p : Bytes) → IsOther is_signed m p → length p ≤ buf_size
unfolding IsOther
IsOther-length is_signed m [] h = absurd h
IsOther-length is_signed m (c ∷ s) h = h.2

received-reply :
    (is_signed : Bool) (m : ℕ) (msg r : Bytes) (later : Option (Ending × Bytes))
    → m ≢ diag_cmd_rsp_bad_command
    → is_reply is_signed m m ≡ true
    → received is_signed (m ∷ msg) (m ∷ r) later ≡ some (returns_0, print_from is_signed 0 (m ∷ r))
unfolding received
received-reply is_signed m msg r later nb e = rw (no_bad m nb, e) refl

received-other :
    (is_signed : Bool) (m : ℕ) (msg p : Bytes) (ending : Ending) (text : Bytes)
    → IsOther is_signed m p
    → received is_signed (m ∷ msg) p (some (ending, text))
      ≡ some (ending, print_from is_signed 0 p ++ text)
unfolding received IsOther
received-other is_signed m msg [] ending text h = absurd h
received-other is_signed m msg (c ∷ s) ending text h = rw (no_bad c h.0, h.1) refl

pub wait_response-short :
    (is_signed : Bool) (msg p : Bytes) (ts : List Turn)
    → length p ≤ buf_size
    → wait_response is_signed msg (packet p ∷ ts)
      ≡ received is_signed msg p (wait_response is_signed msg ts)
unfolding wait_response
wait_response-short is_signed msg p ts l =
    ap (λ d. received is_signed msg d (wait_response is_signed msg ts)) (take_short buf_size p l)

-- Where the request begins with a byte that is not 0x13 and that a char equals: it is below 128, or
-- char is unsigned. Packets of 1 to 8192 bytes that are no reply to it and report no bad command are
-- printed, and the first of up to 8192 bytes that begins as the request does is printed too and ends
-- the program with 0, whatever would come behind it; nothing else is printed.
pub wait_response-reply :
    (is_signed : Bool) (m : ℕ) (msg r : Bytes) (ps : List Bytes) (ts : List Turn)
    → All (IsOther is_signed m) ps
    → m ≢ diag_cmd_rsp_bad_command
    → is_reply is_signed m m ≡ true
    → suc (length r) ≤ buf_size
    → wait_response is_signed (m ∷ msg) (map packet ps ++ (packet (m ∷ r) ∷ ts))
      ≡ some (returns_0, printed is_signed (ps ++ ((m ∷ r) ∷ [])))
unfolding printed IsOther
wait_response-reply is_signed m msg r [] ts h nb e l =
    wait_response-short is_signed (m ∷ msg) (m ∷ r) ts l
    ∙ received-reply is_signed m msg r (wait_response is_signed (m ∷ msg) ts) nb e
    ∙ ap (λ t. some (returns_0, t)) (sym (append-nil (print_from is_signed 0 (m ∷ r))))
wait_response-reply is_signed m msg r (p ∷ ps) ts h nb e l =
    wait_response-short is_signed (m ∷ msg) p (map packet ps ++ (packet (m ∷ r) ∷ ts))
      (IsOther-length is_signed m p h.0)
    ∙ ap (received is_signed (m ∷ msg) p) (wait_response-reply is_signed m msg r ps ts h.1 nb e l)
    ∙ received-other is_signed m msg p returns_0 (printed is_signed (ps ++ ((m ∷ r) ∷ []))) h.0

unfoldable pub IsNoBad : Turn → Type 0
IsNoBad (packet (c ∷ s)) = c ≢ diag_cmd_rsp_bad_command
IsNoBad _ = Unit

signed_differs : (c m : ℕ) → 128 ≤ m → is_reply true c m ≡ false
signed_differs c m l = ground (arith, l)

IsNoBad-take : (n : ℕ) (p : Bytes) → IsNoBad (packet p) → IsNoBad (packet (take (suc n) p))
unfolding IsNoBad
IsNoBad-take n [] h = h
IsNoBad-take n (c ∷ s) h = h

abbrev ending_of : Option (Ending × Bytes) → Ending
ending_of none = waits
ending_of (some (ending, text)) = ending

received_signed :
    (m : ℕ) (msg p : Bytes) (later : Option (Ending × Bytes)) (text : Bytes)
    → 128 ≤ m
    → IsNoBad (packet p)
    → ((t : Bytes) → later ≢ some (returns_0, t))
    → received true (m ∷ msg) p later ≢ some (returns_0, text)
unfolding received IsNoBad
received_signed m msg [] later text l h never = λ e. absurd (ground (arith, e))
received_signed m msg (c ∷ s) none text l h never =
    rw (no_bad c h, signed_differs c m l) (λ e. absurd (ground (arith, e)))
received_signed m msg (c ∷ s) (some (ending, t)) text l h never =
    rw (no_bad c h, signed_differs c m l) (λ e. never t (ap (λ r. some (ending_of r, t)) e))

-- Where `char` is signed, a request that begins with a byte from 128 on is never answered for the
-- program: it does not end with 0, unless a packet reports a bad command.
pub wait_response_signed :
    (m : ℕ) (msg : Bytes) (ts : List Turn) (text : Bytes)
    → 128 ≤ m
    → All IsNoBad ts
    → wait_response true (m ∷ msg) ts ≢ some (returns_0, text)
unfolding wait_response IsNoBad
wait_response_signed m msg [] text l h = λ e. absurd (ground (arith, e))
wait_response_signed m msg (timed_out ∷ ts) text l h = λ e. absurd (ground (arith, e))
wait_response_signed m msg (not_set ∷ ts) text l h = wait_response_signed m msg ts text l h.1
wait_response_signed m msg (unreadable ∷ ts) text l h = λ e. absurd (ground (arith, e))
wait_response_signed m msg (packet p ∷ ts) text l h =
    received_signed m msg (take buf_size p) (wait_response true (m ∷ msg) ts) text l
      (IsNoBad-take 8191 p h.0) (λ t. wait_response_signed m msg ts t l h.1)
