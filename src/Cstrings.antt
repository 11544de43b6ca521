-- ===== src/Cstrings.antt =====
-- What router/diag.c and tools/send_data.c use of the C library on strings, which stand without their
-- closing zero: strtok(3) and atoi(3).
pub mod Laws
use diag.Base.{
  ℕ, subst, zero, suc, ◌+◌, ◌-◌, ◌*◌, ◌/◌, ◌%◌, ◌^◌, ◌≤◌, ◌<◌, min, bit_and, bit_or, bit_xor, ◌≡◌,
  refl, sym, ap, ap₂, ◌∙◌, ◌≢◌, ◌↔◌, ◌⊎◌, inl, inr, Bool, true, false, not, ◌&&◌, ◌||◌, Option,
  none, some, List, [], ◌∷◌, ◌++◌, map, append-nil, append_assoc, arith, ltb, leb, ◌==◌,
  if◌then◌else◌, ltb→lt, ==_iff, ==_refl, Bool-cases, Option-cases, length, get_elem?, get_or, set,
  take, drop, replicate, keep_if, length-append, length-set, length-take, length-drop,
  length-replicate, get_or-set_self, get_or-set_ne, take-append, drop-append, All, All-append,
  passes_below, passes_below-lt, bit_xor_step, bit_xor-zero, bit_xor_fields, bit_xor-lt,
}
use diag.Bytes.{Bytes}

-- The bytes up to the first delimiter, and those behind it.
unfoldable pub split_at : ℕ → Bytes → Bytes × Bytes
split_at delim [] = ([], [])
split_at delim (c ∷ s) =
    let (token, rest) = split_at delim s in if c == delim then ([], s) else (c ∷ token, rest)

unfoldable pub skip : ℕ → Bytes → Bytes
skip delim [] = []
skip delim (c ∷ s) = let rest = skip delim s in if c == delim then rest else c ∷ s

abbrev pub nonempty : Bytes → Option Bytes
nonempty [] = none
nonempty (c ∷ s) = some (c ∷ s)

-- `strtok(s, delim)` and then `strtok(NULL, "")`.
unfoldable pub strtok : ℕ → Bytes → Option Bytes × Option Bytes
unfolding split_at skip
strtok delim s =
    let (token, rest) = split_at delim (skip delim s) in (nonempty token, nonempty rest)

-- isspace(3)
abbrev pub isspace : ℕ → Bool
isspace c = (c == 32) || (leb 9 c && leb c 13)

abbrev pub isdigit : ℕ → Bool
isdigit c = leb 48 c && leb c 57

unfoldable pub skip_space : Bytes → Bytes
skip_space [] = []
skip_space (c ∷ s) = let rest = skip_space s in if isspace c then rest else c ∷ s

-- The number that the digits at the beginning of a string give, behind the number `n`.
unfoldable pub digits : ℕ → Bytes → ℕ
digits n [] = n
digits n (c ∷ s) = let more = digits (10 * n + (c - 48)) s in if isdigit c then more else n

-- atoi(3) as a word of 32 bits; a negative number is taken from 2 ^ 32. C says nothing of a number that
-- an int cannot hold; here its low bits are given, and no theorem is about such a number.
unfoldable pub signed : Bytes → ℕ
unfolding digits
signed [] = 0
signed (c ∷ s) =
    if c == 45
    then (4294967296 - digits 0 s % 4294967296) % 4294967296
    else if c == 43
    then digits 0 s % 4294967296
    else digits 0 (c ∷ s) % 4294967296

unfoldable pub atoi : Bytes → ℕ
unfolding signed skip_space
atoi s = signed (skip_space s)

-- The decimal digits of a number, as printf(3) writes them; the number itself is fuel enough.
unfoldable pub decimal_in : ℕ → ℕ → Bytes
decimal_in zero n = (48 + n % 10) ∷ []
decimal_in (suc fuel) n =
    let high = decimal_in fuel (n / 10) in
    if ltb n 10 then (48 + n) ∷ [] else high ++ ((48 + n % 10) ∷ [])

unfoldable pub decimal : ℕ → Bytes
unfolding decimal_in
decimal n = decimal_in n n
