-- ===== src/Program/Getopt.antt =====
-- The options of main in router/diag.c. getopt(3) is a parameter: the letters that it returns, each
-- with its argument, until it returns a negative number.
pub mod Laws
use diag.Base.{ℕ, Option, none, some, List, [], ◌∷◌, ◌==◌, if◌then◌else◌}
use diag.Bytes.{Bytes}
use diag.Cstrings.{strtok, atoi}

abbrev pub default_socket_port : ℕ
default_socket_port = 2500

abbrev pub default_baud_rate : ℕ
default_baud_rate = 115200

-- `host_port` and `baudrate` are words of 32 bits.
pub record Options : Type 0 where
  pub host_address : Option Bytes
  pub host_port : ℕ
  pub uartdev : Option Bytes
  pub baudrate : ℕ

abbrev pub no_options : Options
no_options = record {
  host_address = none;
  host_port = default_socket_port;
  uartdev = none;
  baudrate = default_baud_rate;
}

unfoldable pub number_or : ℕ → Option Bytes → ℕ
unfolding atoi
number_or n none = n
number_or n (some token) = atoi token

-- What the cases of the switch store, from the two tokens.
abbrev pub with_host : Options → Option Bytes × Option Bytes → Options
with_host o (host, token) = record o {
  host_address = host;
  host_port = number_or o.host_port token;
}

abbrev pub with_uart : Options → Option Bytes × Option Bytes → Options
with_uart o (dev, token) = record o { uartdev = dev; baudrate = number_or o.baudrate token }

-- One turn of the loop; `none` is the exit in usage.
unfoldable pub option_of : ℕ → Bytes → Options → Option Options
unfolding strtok
option_of c optarg o =
    if c == 115
    then some (with_host o (strtok 58 optarg))
    else if c == 117
    then some (with_uart o (strtok 64 optarg))
    else none

unfoldable pub read_options : List (ℕ × Bytes) → Options → Option Options
unfolding option_of
read_options [] o = some o
read_options ((c, optarg) ∷ rest) o = elim (option_of c optarg o) [
  | none ↦ none
  | some o' ↦ read_options rest o'
]
