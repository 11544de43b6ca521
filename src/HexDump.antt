-- ===== src/HexDump.antt =====
-- print_hex_dump of router/util.c, with what it prints as a list of bytes; isprint(3) is a parameter.
pub mod Laws
mod Tests
use diag.Base.{
  ℕ, subst, zero, suc, ◌+◌, ◌-◌, ◌*◌, ◌/◌, ◌%◌, ◌^◌, ◌≤◌, ◌<◌, min, bit_and, bit_or, bit_xor, ◌≡◌,
  refl, sym, ap, ap₂, ◌∙◌, ◌≢◌, ◌↔◌, ◌⊎◌, inl, inr, Bool, true, false, not, ◌&&◌, ◌||◌, Option,
  none, some, List, [], ◌∷◌, ◌++◌, map, append-nil, append_assoc, arith, ltb, leb, ◌==◌,
  if◌then◌else◌, ltb→lt, ==_iff, ==_refl, Bool-cases, Option-cases, length, get_elem?, get_or, set,
  take, drop, replicate, keep_if, length-append, length-set, length-take, length-drop,
  length-replicate, get_or-set_self, get_or-set_ne, take-append, drop-append, All, All-append,
  passes_below, passes_below-lt, bit_xor_step, bit_xor-zero, bit_xor_fields, bit_xor-lt,
}
use diag.Bytes.{Bytes}

unfoldable pub to_hex : ℕ → ℕ
to_hex ch = let low = bit_and ch 15 in if leb low 9 then 48 + low else 97 + low - 10

-- Two digits and a space for each byte of a line.
unfoldable pub hex_columns : Bytes → Bytes
unfolding to_hex
hex_columns [] = []
hex_columns (ch ∷ s) = to_hex (ch / 16) ∷ to_hex ch ∷ 32 ∷ hex_columns s

-- The bytes themselves, with dots in the place of those that do not print.
unfoldable pub characters : (ℕ → Bool) → Bytes → Bytes
characters isprint [] = []
characters isprint (ch ∷ s) = (if isprint ch then ch else 46) ∷ characters isprint s

-- `line` for at most 16 bytes, without its closing zero.
unfoldable pub hex_line : (ℕ → Bool) → Bytes → Bytes
unfolding hex_columns characters
hex_line isprint s = hex_columns s ++ (replicate (3 * (16 - length s)) 32 ++ characters isprint s)

-- The lines with their offsets; each turn takes 16 bytes, so the length is fuel enough. The
-- offset is an int in the code; here it has no bound.
unfoldable pub hex_lines : ℕ → (ℕ → Bool) → ℕ → Bytes → List (ℕ × Bytes)
unfolding hex_line
hex_lines zero isprint i buf = []
hex_lines (suc fuel) isprint i [] = []
hex_lines (suc fuel) isprint i (ch ∷ s) =
    (i, hex_line isprint (take 16 (ch ∷ s))) ∷ hex_lines fuel isprint (i + 16) (drop 16 (ch ∷ s))

-- `%04x`: the digits above the lowest four where there are any, and these four.
unfoldable pub hex_above : ℕ → ℕ → Bytes
unfolding to_hex
hex_above zero n = []
hex_above (suc fuel) n =
    let high = hex_above fuel (n / 16) in if n == 0 then [] else high ++ (to_hex n ∷ [])

-- An `int` has eight digits at most.
unfoldable pub offset_text : ℕ → Bytes
unfolding hex_above to_hex
offset_text i =
    hex_above 4 (i / 65536)
    ++ (to_hex (i / 4096) ∷ to_hex (i / 256) ∷ to_hex (i / 16) ∷ to_hex i ∷ [])

-- "<prefix> <offset>: <line>" and a new line, for each line.
unfoldable pub print_lines : Bytes → List (ℕ × Bytes) → Bytes
unfolding offset_text
print_lines prefix [] = []
print_lines prefix ((i, line) ∷ rest) =
    prefix ++ (32 ∷ (offset_text i ++ (58 ∷ 32 ∷ (line ++ (10 ∷ print_lines prefix rest)))))

unfoldable pub print_hex_dump : (ℕ → Bool) → Bytes → Bytes → Bytes
unfolding print_lines hex_lines
print_hex_dump isprint prefix buf = print_lines prefix (hex_lines (length buf) isprint 0 buf)
