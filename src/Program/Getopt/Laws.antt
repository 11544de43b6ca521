-- ===== src/Program/Getopt/Laws.antt =====
-- The options of main.
use diag.Base.{ℕ, ◌<◌, ◌≡◌, refl, ap, ◌∙◌, ◌≢◌, some, List, [], ◌∷◌, ◌++◌, arith, All}
use diag.Bytes.{Bytes}
use diag.Cstrings.{decimal, nonempty}
use diag.Cstrings.Laws.{atoi-decimal, nonempty-decimal, strtok-append}
use diag.Program.Getopt.{
  no_options, read_options, with_host, with_uart, Options, number_or, option_of,
}

number_or-decimal : (m n : ℕ) → n < 2147483648 → number_or m (nonempty (decimal n)) ≡ n
unfolding number_or
number_or-decimal m n h = rw (nonempty-decimal n) (atoi-decimal n (omega (arith, h)))

option_of-host :
    (c : ℕ) (name : Bytes) (n : ℕ) (o : Options)
    → n < 2147483648
    → c ≢ 58
    → All (λ c. c ≢ 58) name
    → option_of 115 ((c ∷ name) ++ (58 ∷ decimal n)) o
      ≡ some (record o { host_address = some (c ∷ name); host_port = n })
unfolding option_of
option_of-host c name n o l ne h =
    ap (λ parts. some (with_host o parts)) (strtok-append 58 c name (decimal n) ne h)
    ∙ rw (number_or-decimal o.host_port n l) refl

option_of-uart :
    (c : ℕ) (name : Bytes) (n : ℕ) (o : Options)
    → n < 2147483648
    → c ≢ 64
    → All (λ c. c ≢ 64) name
    → option_of 117 ((c ∷ name) ++ (64 ∷ decimal n)) o
      ≡ some (record o { uartdev = some (c ∷ name); baudrate = n })
unfolding option_of
option_of-uart c name n o l ne h =
    ap (λ parts. some (with_uart o parts)) (strtok-append 64 c name (decimal n) ne h)
    ∙ rw (number_or-decimal o.baudrate n l) refl

read_options-next :
    (c : ℕ) (optarg : Bytes) (rest : List (ℕ × Bytes)) (o o' : Options)
    → option_of c optarg o ≡ some o'
    → read_options ((c, optarg) ∷ rest) o ≡ read_options rest o'
unfolding read_options
read_options-next c optarg rest o o' e = rw (read_options, e) refl

-- The options `-s host:port` and `-u dev@rate` are read back: a host without a colon, a device without
-- an at sign, neither empty, and a port and a rate in decimal digits that an int can hold.
pub read_options-decimal :
    (c d : ℕ) (host dev : Bytes) (port rate : ℕ)
    → c ≢ 58
    → All (λ c. c ≢ 58) host
    → d ≢ 64
    → All (λ c. c ≢ 64) dev
    → port < 2147483648
    → rate < 2147483648
    → read_options
        ((115, (c ∷ host) ++ (58 ∷ decimal port)) ∷ (117, (d ∷ dev) ++ (64 ∷ decimal rate)) ∷ [])
        no_options
      ≡ some (record {
        host_address = some (c ∷ host);
        host_port = port;
        uartdev = some (d ∷ dev);
        baudrate = rate;
      })
unfolding read_options
read_options-decimal c d host dev port rate nc hc nd hd lp lr =
    read_options-next 115 ((c ∷ host) ++ (58 ∷ decimal port)) (last ∷ []) no_options with_port
      (option_of-host c host port no_options lp nc hc)
    ∙ read_options-next 117 last.1 [] with_port
        (record with_port { uartdev = some (d ∷ dev); baudrate = rate })
        (option_of-uart d dev rate with_port lr nd hd)
  where
    last : ℕ × Bytes
    last = (117, (d ∷ dev) ++ (64 ∷ decimal rate))

    with_port : Options
    with_port = record no_options { host_address = some (c ∷ host); host_port = port }
