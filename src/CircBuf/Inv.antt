-- ===== src/CircBuf/Inv.antt =====
-- The ring of router/circ_buf.c as a queue of bytes: `circ_read` appends what the kernel gave, the
-- decoder's `take_byte` removes the oldest.
use diag.Base.{
  ℕ, zero, suc, ◌+◌, ◌-◌, ◌%◌, ◌≤◌, ◌<◌, ◌≡◌, refl, sym, ap, ap₂, ◌∙◌, ◌≢◌, ◌⊎◌, inl, inr, List, [],
  ◌∷◌, ◌++◌, append-nil, append_assoc, arith, ◌==◌, Bool-cases, length, get_or, set, length-set,
  get_or-set_self, get_or-set_ne,
}
use diag.CircBuf.{
  CircBuf, hdlc_buf_size, circ_space, circ_space_to_end, ReadResult, got, failed, ReadStatus,
  drained, error, out_of_fuel, store, absorb, Kernel, circ_read_loop, circ_read, take_byte,
}

pub record IsValid (b : CircBuf) : Type 0 where
  pub size : length b.buf ≡ hdlc_buf_size
  pub head_in : b.head < hdlc_buf_size
  pub tail_in : b.tail < hdlc_buf_size

-- The `n` bytes from index `t` on, going round.
abbrev pub window : List ℕ → ℕ → ℕ → List ℕ
window mem t zero = []
window mem t (suc n) = get_or mem t 0 ∷ window mem ((t + 1) % hdlc_buf_size) n

abbrev pub count : CircBuf → ℕ
count b = (b.head + hdlc_buf_size - b.tail) % hdlc_buf_size

-- The bytes not yet decoded, oldest first.
abbrev pub unread : CircBuf → List ℕ
unread b = window b.buf b.tail (count b)

length-window : (mem : List ℕ) (t n : ℕ) → length (window mem t n) ≡ n
length-window mem t zero = refl
length-window mem t (suc n) = ap suc (length-window mem ((t + 1) % hdlc_buf_size) n)

pub length-unread : (b : CircBuf) → length (unread b) ≡ count b
length-unread b = length-window b.buf b.tail (count b)

-- One byte written behind a window is the window's next.
window-set :
    (mem : List ℕ) (x n t i : ℕ)
    → length mem ≡ hdlc_buf_size
    → t < hdlc_buf_size
    → n < hdlc_buf_size
    → i < hdlc_buf_size
    → i ≡ (t + n) % hdlc_buf_size
    → window (set mem i x) t (suc n) ≡ window mem t n ++ (x ∷ [])
window-set mem x zero t i size ht hn hi e = ground (arith, get_or-set_self mem i x 0)
window-set mem x (suc n) t i size ht hn hi e = ap₂ ◌∷◌ (get_or-set_ne mem i t x 0 (omega arith)) (
    window-set mem x n ((t + 1) % hdlc_buf_size) i size (omega arith) (omega arith) hi
      (omega arith))

window-store :
    (xs mem : List ℕ) (t n at : ℕ)
    → length mem ≡ hdlc_buf_size
    → t < hdlc_buf_size
    → n + length xs < hdlc_buf_size
    → at + length xs ≤ hdlc_buf_size
    → at % hdlc_buf_size ≡ (t + n) % hdlc_buf_size
    → window (store mem at xs) t (n + length xs) ≡ window mem t n ++ xs
unfolding store
window-store [] mem t n at size ht hn ha e = rw append-nil (ap (window mem t) (omega arith))
window-store (x ∷ xs) mem t n at size ht hn ha e =
    ap (window (store (set mem at x) (suc at) xs) t) (omega arith)
    ∙ window-store xs (set mem at x) t (suc n) (suc at) (length-set mem at x ∙ size) ht
        (omega arith) (omega arith) (omega arith)
    ∙ ap (λ w. w ++ xs) (window-set mem x n t at size ht (omega arith) (omega arith) (omega arith))
    ∙ append_assoc (window mem t n) (x ∷ []) xs

length-store : (xs mem : List ℕ) (at : ℕ) → length (store mem at xs) ≡ length mem
unfolding store
length-store [] mem at = refl
length-store (x ∷ xs) mem at = length-store xs (set mem at x) (suc at) ∙ length-set mem at x

-- In a valid ring the free space and the unread bytes make up all places but one.
pub circ_space-count : {b : CircBuf} → IsValid b → circ_space b + count b ≡ hdlc_buf_size - 1
unfolding circ_space
circ_space-count v = omega arith

-- Bytes that fit before the end of the ring are appended, and the ring stays valid.
pub absorb_appends :
    {b : CircBuf} (xs : List ℕ)
    → IsValid b
    → length xs ≤ circ_space_to_end b
    → IsValid (absorb b xs) × (unread (absorb b xs) ≡ unread b ++ xs)
unfolding absorb circ_space_to_end circ_space
absorb_appends {b} xs v h = (
  record {
    size = length-store xs b.buf b.head ∙ v.size;
    head_in = omega arith;
    tail_in = v.tail_in;
  },
  ap (window (store b.buf b.head xs) b.tail) (omega arith)
      ∙ window-store xs b.buf b.tail (count b) b.head v.size v.tail_in (omega arith) (omega arith)
          (omega arith),
)

-- `read` stores no more bytes than it was given room for.
abbrev pub Bounded : Kernel → Type 0
Bounded read = (i space : ℕ) (xs : List ℕ) → read i space ≡ got xs → length xs ≤ space

-- The call of a round: with no room left it is not made.
pub record Appended (b : CircBuf) (out : ReadStatus × CircBuf) : Type 0 where
  pub bytes : List ℕ
  pub valid : IsValid out.1
  pub appended : unread out.1 ≡ unread b ++ bytes
  pub tail_kept : out.1.tail ≡ b.tail
  pub returned : out.0 ≢ out_of_fuel

ReadResult-cases : (r : ReadResult) → ((e : ℕ) × (r ≡ failed e)) ⊎ ((xs : List ℕ) × (r ≡ got xs))
ReadResult-cases (failed e) = inl (e, refl)
ReadResult-cases (got xs) = inr (xs, refl)

unchanged : {b : CircBuf} (s : ReadStatus) → s ≢ out_of_fuel → IsValid b → Appended b (s, b)
unchanged {b} s ne v = record {
  bytes = [];
  valid = v;
  appended = sym (append-nil (unread b));
  tail_kept = refl;
  returned = ne;
}

-- A round's bytes, and then those of the rounds after it.
Appended-absorb :
    {b : CircBuf} {out : ReadStatus × CircBuf} (xs : List ℕ)
    → IsValid b
    → length xs ≤ circ_space_to_end b
    → Appended (absorb b xs) out
    → Appended b out
unfolding absorb
Appended-absorb {b} xs v h rest = record {
  bytes = xs ++ rest.bytes;
  valid = rest.valid;
  appended =
      rest.appended
      ∙ ap (λ w. w ++ rest.bytes) (absorb_appends xs v h).1
      ∙ append_assoc (unread b) xs rest.bytes;
  tail_kept = rest.tail_kept;
  returned = rest.returned;
}

circ_space-absorb :
    {b : CircBuf} (xs : List ℕ)
    → IsValid b
    → length xs ≤ circ_space_to_end b
    → circ_space (absorb b xs) + length xs ≡ circ_space b
unfolding absorb circ_space circ_space_to_end
circ_space-absorb xs v h = omega arith

drained_ne : drained ≢ out_of_fuel
drained_ne e = cc

error_ne : (n : ℕ) → error n ≢ out_of_fuel
error_ne n e = cc

module _ (read : Kernel) (bounded : Bounded read) where
  loop-Appended :
      (fuel i : ℕ) (b : CircBuf)
      → IsValid b
      → circ_space b < fuel
      → Appended b (circ_read_loop fuel read i b)
  unfolding circ_read_loop
  loop-Appended zero i b v h = absurd (omega arith)
  loop-Appended (suc fuel) i b v h = elim (Bool-cases (circ_space_to_end b == 0)) [
    | inl full ↦ rw (full, circ_read_loop) (unchanged drained drained_ne v)
    | inr room ↦ elim (ReadResult-cases (read i (circ_space_to_end b))) [
      | inl (n, failing) ↦ rw (room, failing, circ_read_loop) (unchanged (error n) (error_ne n) v)
      | inr (xs, given) ↦
          let fits = bounded i (circ_space_to_end b) xs given in
          elim (Bool-cases (length xs == circ_space_to_end b)) [
            | inl whole ↦
                rw (room, given, whole, circ_read_loop)
                  (Appended-absorb xs v fits (
                    loop-Appended fuel (suc i) (absorb b xs) (absorb_appends xs v fits).0
                      (ground (arith, circ_space-absorb xs v fits))))
            | inr part ↦
                rw (room, given, part, circ_read_loop)
                  (Appended-absorb xs v fits
                    (unchanged drained drained_ne (absorb_appends xs v fits).0))
          ]
    ]
  ]

  circ_space-lt : (b : CircBuf) → circ_space b < hdlc_buf_size
  unfolding circ_space
  circ_space-lt b = omega arith

  -- On a valid ring and with a kernel that stores no more than it is asked for, `circ_read` ends
  -- within its fuel, keeps the ring valid and its tail, and appends some bytes to the unread ones:
  -- no unread byte is overwritten.
  pub circ_read-Appended : (b : CircBuf) → IsValid b → Appended b (circ_read read b)
  unfolding circ_read
  circ_read-Appended b v = loop-Appended hdlc_buf_size 0 b v (circ_space-lt b)

-- On a valid ring with an unread byte, the decoder takes the oldest and leaves the others.
pub take_byte-unread :
    {b : CircBuf}
    → IsValid b
    → b.tail ≢ b.head
    → let (ch, b') = take_byte b in IsValid b' × (unread b ≡ ch ∷ unread b')
unfolding take_byte
take_byte-unread {b} v ne = (
  record { size = v.size; head_in = v.head_in; tail_in = omega arith },
  ap (window b.buf b.tail) more,
)
  where
    more : count b ≡ suc ((b.head + hdlc_buf_size - (b.tail + 1) % hdlc_buf_size) % hdlc_buf_size)
    more = omega arith

pub count-take_byte :
    {b : CircBuf} → IsValid b → b.tail ≢ b.head → count (take_byte b).1 + 1 ≡ count b
unfolding take_byte
count-take_byte v ne = omega arith

pub count_of_same : {b : CircBuf} → IsValid b → b.tail ≡ b.head → unread b ≡ []
count_of_same {b} v e = ap (window b.buf b.tail) none_left
  where
    none_left : count b ≡ 0
    none_left = omega arith
