-- ===== src/CircBuf.antt =====
-- router/circ_buf.h and router/circ_buf.c: the byte ring between a descriptor and a decoder.
-- `& (HDLC_BUF_SIZE - 1)` is written `% hdlc_buf_size`, the size being a power of two.
pub mod Inv
pub mod Tests
use diag.Base.{
  ℕ, zero, suc, ◌+◌, ◌-◌, ◌%◌, ◌^◌, min, Bool, true, false, List, [], ◌∷◌, ◌==◌, if◌then◌else◌,
  length, get_or, set,
}

abbrev pub hdlc_buf_size : ℕ
hdlc_buf_size = 16384

pub record CircBuf : Type 0 where
  pub buf : List ℕ
  pub head : ℕ
  pub tail : ℕ

-- `(tail - head - 1) & (HDLC_BUF_SIZE - 1)` on `size_t`, whose subtraction wraps.
unfoldable pub circ_space : CircBuf → ℕ
circ_space b = (b.tail + 2 ^ 64 - b.head + 2 ^ 64 - 1) % 2 ^ 64 % hdlc_buf_size

unfoldable pub circ_space_to_end : CircBuf → ℕ
circ_space_to_end b = min (circ_space b) (hdlc_buf_size - b.head)

-- What one call of `read` gives: the bytes stored, or a negative errno.
pub data ReadResult : Type 0 where
  got : List ℕ → ReadResult
  failed : ℕ → ReadResult

-- How `circ_read` returns: 0, or the error of `read`.
pub data ReadStatus : Type 0 where
  drained : ReadStatus
  error : ℕ → ReadStatus
  out_of_fuel : ReadStatus

-- The bytes that `read` stores at `buf + at`.
unfoldable pub store : List ℕ → ℕ → List ℕ → List ℕ
store mem at [] = mem
store mem at (x ∷ xs) = store (set mem at x) (suc at) xs

-- After one `read`: the buffer with the bytes behind `head`, and `head` moved past them.
unfoldable pub absorb : CircBuf → List ℕ → CircBuf
absorb b xs = record b { buf = store b.buf b.head xs; head = (b.head + length xs) % hdlc_buf_size }

-- `read fd at space`: the kernel's answer to the call that `i` calls went before.
abbrev pub Kernel : Type 0
Kernel = ℕ → ℕ → ReadResult

-- The `do ... while (n == space)` loop.
unfoldable pub circ_read_loop : ℕ → Kernel → ℕ → CircBuf → ReadStatus × CircBuf
circ_read_loop zero read i b = (out_of_fuel, b)
circ_read_loop (suc fuel) read i b =
    let space = circ_space_to_end b in
    elim (space == 0) [
      | true ↦ (drained, b)
      | false ↦ elim (read i space) [
        | failed e ↦ (error e, b)
        | got xs ↦ elim (length xs == space) [
          | true ↦ circ_read_loop fuel read (suc i) (absorb b xs)
          | false ↦ (drained, absorb b xs)
        ]
      ]
    ]

-- Each round but the last stores at least one byte, so the size of the ring bounds the rounds.
unfoldable pub circ_read : Kernel → CircBuf → ReadStatus × CircBuf
unfolding circ_read_loop
circ_read read b = circ_read_loop hdlc_buf_size read 0 b

-- One byte off the tail, as the decoder takes it.
unfoldable pub take_byte : CircBuf → ℕ × CircBuf
take_byte b = (get_or b.buf b.tail 0, record b { tail = (b.tail + 1) % hdlc_buf_size })
