-- ===== src/SendData.antt =====
-- tools/send_data.c: a client that sends one command to the router's Unix socket and prints what
-- comes back. What select(2) and read(2) say is a list, one entry for each turn of the loop; output
-- is a list of bytes.
pub mod Laws
pub mod Replies
pub mod Unknown
mod Tests
use diag.Base.{
  suc, zero, ℕ, subst, zero, suc, ◌+◌, ◌-◌, ◌*◌, ◌/◌, ◌%◌, ◌^◌, ◌≤◌, ◌<◌, min, bit_and, bit_or,
  bit_xor, ◌≡◌, refl, sym, ap, ap₂, ◌∙◌, ◌≢◌, ◌↔◌, ◌⊎◌, inl, inr, Bool, true, false, not, ◌&&◌,
  ◌||◌, Option, none, some, List, [], ◌∷◌, ◌++◌, map, append-nil, append_assoc, arith, ltb, leb,
  ◌==◌, if◌then◌else◌, ltb→lt, ==_iff, ==_refl, Bool-cases, Option-cases, length, get_elem?, get_or,
  set, take, drop, replicate, keep_if, length-append, length-set, length-take, length-drop,
  length-replicate, get_or-set_self, get_or-set_ne, take-append, drop-append, All, All-append,
  passes_below, passes_below-lt, bit_xor_step, bit_xor-zero, bit_xor_fields, bit_xor-lt,
}
use diag.Bytes.{Bytes}
use diag.World.{Alloc}
use diag.Cstrings.{atoi, decimal}
use diag.Syscalls.{SysKernel, Process, Opening, ◌>>=◌, give, socket, connect_unix, write, or_close}
use diag.Opens.{sun_path}

-- One turn: nothing came in the five seconds that are left, the descriptor is not set, the read
-- fails, or it gives a packet; the end of the connection is the empty one.
pub data Turn : Type 0 where
  timed_out : Turn
  not_set : Turn
  unreadable : Turn
  packet : Bytes → Turn

-- How the program ends, or that it has turns to come.
pub data Ending : Type 0 where
  returns_0 exits_1 waits : Ending

abbrev pub diag_cmd_rsp_bad_command : ℕ
diag_cmd_rsp_bad_command = 0x13

-- `%d` of a `char`; whether `char` is signed is the compiler's.
unfoldable pub print_char : Bool → ℕ → Bytes
unfolding decimal
print_char is_signed c = if is_signed && leb 128 c then 45 ∷ decimal (256 - c) else decimal c

-- What stands before the number at an index, and behind the last number of a line.
unfoldable pub before : ℕ → Bytes
before zero = []
before (suc i) = 32 ∷ []

unfoldable pub line_end : Bool → Bytes
line_end true = 10 ∷ []
line_end false = []

-- The numbers of a packet from the index `i` on, 16 in a line.
unfoldable pub print_from : Bool → ℕ → Bytes → Bytes
unfolding print_char before line_end
print_from is_signed i [] = []
print_from is_signed i (c ∷ s) =
    before i
    ++ (print_char is_signed c
        ++ (line_end ((i % 16 == 15) || (length s == 0)) ++ print_from is_signed (suc i) s))

-- "Diag response: Bad command" and a new line.
abbrev pub bad_command_text : Bytes
bad_command_text =
    68 ∷ 105 ∷ 97 ∷ 103 ∷ 32 ∷ 114 ∷ 101 ∷ 115 ∷ 112 ∷ 111 ∷ 110 ∷ 115 ∷ 101 ∷ 58 ∷ 32 ∷ 66 ∷ 97
    ∷ 100 ∷ 32 ∷ 99 ∷ 111 ∷ 109 ∷ 109 ∷ 97 ∷ 110 ∷ 100 ∷ 10 ∷ []

-- `buf[0] == msg[0]`, a `char` and an `unsigned char`.
abbrev pub is_reply : Bool → ℕ → ℕ → Bool
is_reply is_signed c m = if is_signed && leb 128 c then false else c == m

-- What a packet that was read leads to, with what the loop does if it goes on. The comparison with the
-- first byte of an empty request is an access outside its block.
unfoldable pub received : Bool → Bytes → Bytes → Option (Ending × Bytes) → Option (Ending × Bytes)
unfolding print_from
received is_signed msg [] later = some (exits_1, [])
received is_signed msg (c ∷ s) later =
    if c == diag_cmd_rsp_bad_command then some (returns_0, bad_command_text) else elim msg [
      | [] ↦ none
      | m ∷ _ ↦
          if is_reply is_signed c m
          then some (returns_0, print_from is_signed 0 (c ∷ s))
          else elim later [
            | none ↦ none
            | some (ending, text) ↦ some (ending, print_from is_signed 0 (c ∷ s) ++ text)
          ]
    ]

-- `sizeof(buf)`
abbrev pub buf_size : ℕ
buf_size = 8192

-- The loop, with what is printed; a packet is cut to the size of the buffer.
unfoldable pub wait_response : Bool → Bytes → List Turn → Option (Ending × Bytes)
unfolding received
wait_response is_signed msg [] = some (waits, [])
wait_response is_signed msg (timed_out ∷ ts) = some (exits_1, [])
wait_response is_signed msg (not_set ∷ ts) = wait_response is_signed msg ts
wait_response is_signed msg (unreadable ∷ ts) = some (exits_1, [])
wait_response is_signed msg (packet data_read ∷ ts) =
    received is_signed msg (take buf_size data_read) (wait_response is_signed msg ts)

-- The socket, connected, with the request sent.
unfoldable pub send_request : SysKernel → Bytes → Opening ℕ
unfolding or_close sun_path
send_request k msg = do
  fd ← or_close k (socket 1 5) []
  connected ← or_close k (connect_unix fd sun_path) []
  n ← or_close k (write fd msg) []
  give fd

-- The arguments as bytes.
unfoldable pub request : List Bytes → Bytes
unfolding atoi
request [] = []
request (arg ∷ args) = atoi arg % 256 ∷ request args

-- main, with the arguments behind the program's name; the memory for the request is not checked.
unfoldable pub send_data :
    Alloc → SysKernel → Bool → List Bytes → List Turn → Process → Option (Ending × Bytes)
unfolding request send_request wait_response
send_data alloc k is_signed args turns p =
    if alloc (length args) || (length args == 0)
    then elim (send_request k (request args) p).0 [
      | none ↦ some (exits_1, [])
      | some fd ↦ wait_response is_signed (request args) turns
    ]
    else none
