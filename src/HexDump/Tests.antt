-- ===== src/HexDump/Tests.antt =====
-- A dump of 17 bytes.
use diag.Base.{
  ℕ, zero, suc, ◌<◌, ◌≡◌, refl, Bool, ◌&&◌, [], ◌∷◌, ◌++◌, arith, leb, length, replicate, All,
  All-append,
}
use diag.Bytes.{Bytes}
use diag.HexDump.{hex_lines, print_hex_dump}
use diag.HexDump.Laws.{AreBytes, read_lines, hex_lines-read}

abbrev sample : Bytes
sample = replicate 16 0x7e ++ (0x0a ∷ [])

abbrev visible : ℕ → Bool
visible ch = leb 32 ch && leb ch 126

tildes : (n : ℕ) → AreBytes (replicate n 0x7e)
tildes zero = tt
tildes (suc n) = (omega arith, tildes n)

hex_lines-read_example :
    (read_lines (hex_lines 17 visible 0 sample) ≡ sample)
    × All (λ l. length l.1 < 65) (hex_lines 17 visible 0 sample)
hex_lines-read_example =
    hex_lines-read visible 17 0 sample (omega arith)
      (All-append (λ c. c < 256) (replicate 16 0x7e) (0x0a ∷ []) (tildes 16) (omega arith, tt))

-- "> 0000: 0a " and the dot behind 45 spaces.
one_line :
    print_hex_dump visible (62 ∷ []) (0x0a ∷ [])
    ≡ (62 ∷ 32 ∷ 48 ∷ 48 ∷ 48 ∷ 48 ∷ 58 ∷ 32 ∷ 48 ∷ 97 ∷ 32 ∷ [])
      ++ replicate 45 32
      ++ (46 ∷ 10 ∷ [])
unfolding print_hex_dump
one_line = refl
