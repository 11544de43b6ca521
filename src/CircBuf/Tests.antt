-- ===== src/CircBuf/Tests.antt =====
-- A ring with some bytes in it, and the theorems on rings at small contents.
use diag.Base.{
  ℕ, zero, suc, ◌≤◌, ◌<◌, ◌≡◌, ◌≢◌, List, [], ◌∷◌, arith, length, take, replicate, length-take,
  length-replicate,
}
use diag.CircBuf.{
  CircBuf, hdlc_buf_size, circ_space, circ_space_to_end, got, absorb, Kernel, circ_read,
}
use diag.CircBuf.Inv.{IsValid, unread, absorb_appends, Bounded, Appended, circ_read-Appended}

abbrev pub empty_ring : CircBuf
empty_ring = record { buf = replicate hdlc_buf_size 0; head = 0; tail = 0 }

pub empty_ring-IsValid : IsValid empty_ring
empty_ring-IsValid = record {
  size = length-replicate {A = ℕ} hdlc_buf_size 0;
  head_in = omega arith;
  tail_in = omega arith;
}

-- The empty ring after one read.
abbrev pub filled : List ℕ → CircBuf
filled xs = absorb empty_ring xs

room : (xs : List ℕ) → length xs < hdlc_buf_size → length xs ≤ circ_space_to_end empty_ring
unfolding circ_space_to_end circ_space
room xs h = omega arith

pub filled-IsValid : (xs : List ℕ) → length xs < hdlc_buf_size → IsValid (filled xs)
filled-IsValid xs h = (absorb_appends xs empty_ring-IsValid (room xs h)).0

pub unread-filled : (xs : List ℕ) → length xs < hdlc_buf_size → unread (filled xs) ≡ xs
unread-filled xs h = (absorb_appends xs empty_ring-IsValid (room xs h)).1

abbrev three : List ℕ
three = 1 ∷ 2 ∷ 3 ∷ []

three-IsValid : IsValid (filled three)
three-IsValid = filled-IsValid three (omega arith)

more_room : length three ≤ circ_space_to_end (filled three)
unfolding circ_space_to_end circ_space absorb
more_room = omega arith

not_empty : (filled three).tail ≢ (filled three).head
unfolding absorb
not_empty = omega arith

-- A first call that gives up to three bytes, and then nothing.
abbrev one_packet : Kernel
one_packet zero space = got (take space three)
one_packet (suc i) space = got []

one_packet-Bounded : Bounded one_packet
one_packet-Bounded zero space xs h = ground (arith, length-take {0} space three)
one_packet-Bounded (suc i) space xs h = ground arith

circ_read-Appended_example : Appended (filled three) (circ_read one_packet (filled three))
circ_read-Appended_example =
    circ_read-Appended one_packet one_packet-Bounded (filled three) three-IsValid
