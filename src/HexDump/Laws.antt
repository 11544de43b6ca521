-- ===== src/HexDump/Laws.antt =====
-- Reading a dump.
use diag.Base.{
  ℕ, zero, suc, ◌+◌, ◌-◌, ◌*◌, ◌/◌, ◌≤◌, ◌<◌, ◌≡◌, refl, ap, ap₂, ◌∙◌, Bool, true, false, not, ◌&&◌,
  List, [], ◌∷◌, ◌++◌, arith, leb, ◌==◌, if◌then◌else◌, length, take, drop, replicate,
  length-append, length-take, length-drop, length-replicate, All, passes_below, passes_below-lt,
}
use diag.Bytes.{Bytes}
use diag.HexDump.{to_hex, hex_columns, characters, hex_line, hex_lines}

-- The value of a digit, and the bytes of up to `n` columns of two digits and a space; a column that
-- begins with a space ends them.
unfoldable pub hex_value : ℕ → ℕ
hex_value h = if leb h 57 then h - 48 else h - 87

unfoldable pub read_columns : ℕ → Bytes → Bytes
unfolding hex_value
read_columns (suc n) (h ∷ l ∷ space ∷ t) =
    let more = read_columns n t in if h == 32 then [] else (16 * hex_value h + hex_value l) ∷ more
read_columns _ _ = []

unfoldable pub read_lines : List (ℕ × Bytes) → Bytes
unfolding read_columns
read_lines [] = []
read_lines ((i, line) ∷ rest) = read_columns 16 line ++ read_lines rest

reads_back : ℕ → Bool
unfolding to_hex hex_value
reads_back c =
    (16 * hex_value (to_hex (c / 16)) + hex_value (to_hex c) == c) && not (to_hex (c / 16) == 32)

column-reads : (c : ℕ) → c < 256 → reads_back c ≡ true
unfolding reads_back passes_below
column-reads c h = passes_below-lt reads_back 256 h refl

abbrev pub AreBytes : Bytes → Type 0
AreBytes = All (λ c. c < 256)

column-value : (c : ℕ) → c < 256 → 16 * hex_value (to_hex (c / 16)) + hex_value (to_hex c) ≡ c
unfolding reads_back
column-value c h = ground (arith, column-reads c h)

column-apart : (c : ℕ) → c < 256 → (to_hex (c / 16) == 32) ≡ false
unfolding reads_back
column-apart c h = ground (arith, column-reads c h)

no_columns : (k : ℕ) → 0 + suc k ≡ suc k
no_columns k = omega arith

three : (k : ℕ) → 3 * suc k ≡ suc (suc (suc (3 * k)))
three k = omega arith

one_column : (n k : ℕ) → suc n + k ≡ suc (n + k)
one_column n k = omega arith

-- Columns of bytes and then blank ones.
read_columns-hex_columns :
    (k : ℕ) (s rest : Bytes)
    → AreBytes s
    → read_columns (length s + k) (hex_columns s ++ (replicate (3 * k) 32 ++ rest)) ≡ s
unfolding read_columns hex_columns
read_columns-hex_columns zero [] rest h = refl
read_columns-hex_columns (suc k) [] rest h =
    ap₂ (λ n m. read_columns n (replicate m 32 ++ rest)) (no_columns k) (three k)
read_columns-hex_columns k (c ∷ s) rest h =
    ap (λ n. read_columns n (hex_columns (c ∷ s) ++ (replicate (3 * k) 32 ++ rest)))
      (one_column (length s) k)
    ∙ rw (column-apart c h.0, column-value c h.0)
        (ap (λ t. c ∷ t) (read_columns-hex_columns k s rest h.1))

length-hex_columns : (s : Bytes) → length (hex_columns s) ≡ 3 * length s
unfolding hex_columns
length-hex_columns [] = refl
length-hex_columns (c ∷ s) = omega (arith, length-hex_columns s)

length-characters : (isprint : ℕ → Bool) (s : Bytes) → length (characters isprint s) ≡ length s
unfolding characters
length-characters isprint [] = refl
length-characters isprint (c ∷ s) = omega (arith, length-characters isprint s)

-- A line and its closing zero fit in the array of 65 characters.
length-hex_line :
    (isprint : ℕ → Bool) (s : Bytes) → length s ≤ 16 → length (hex_line isprint s) ≡ 48 + length s
unfolding hex_line
length-hex_line isprint s h = omega (
  arith,
  h,
  length-append (hex_columns s) (replicate (3 * (16 - length s)) 32 ++ characters isprint s),
  length-append (replicate (3 * (16 - length s)) 32) (characters isprint s),
  length-hex_columns s,
  length-characters isprint s,
  length-replicate {A = ℕ} (3 * (16 - length s)) 32,
)

take-append-drop : (n : ℕ) (xs : Bytes) → take n xs ++ drop n xs ≡ xs
take-append-drop zero xs = refl
take-append-drop (suc n) [] = refl
take-append-drop (suc n) (x ∷ xs) = ap (λ t. x ∷ t) (take-append-drop n xs)

All-take : (n : ℕ) (xs : Bytes) → AreBytes xs → AreBytes (take n xs)
All-take zero xs h = tt
All-take (suc n) [] h = tt
All-take (suc n) (x ∷ xs) h = (h.0, All-take n xs h.1)

All-drop : (n : ℕ) (xs : Bytes) → AreBytes xs → AreBytes (drop n xs)
All-drop zero xs h = h
All-drop (suc n) [] h = tt
All-drop (suc n) (x ∷ xs) h = All-drop n xs h.1

read_columns-hex_line :
    (isprint : ℕ → Bool) (s : Bytes)
    → length s ≤ 16
    → AreBytes s
    → read_columns 16 (hex_line isprint s) ≡ s
unfolding hex_line
read_columns-hex_line isprint s l h =
    ap (λ n. read_columns n (hex_line isprint s)) (omega (arith, l))
    ∙ read_columns-hex_columns (16 - length s) s (characters isprint s) h

-- Every line of a dump is shorter than its array of 65 characters, and the hexadecimal columns of the
-- lines, read in order, are the bytes of the buffer.
pub hex_lines-read :
    (isprint : ℕ → Bool) (fuel i : ℕ) (buf : Bytes)
    → length buf ≤ fuel
    → AreBytes buf
    → (read_lines (hex_lines fuel isprint i buf) ≡ buf)
      × All (λ l. length l.1 < 65) (hex_lines fuel isprint i buf)
unfolding hex_lines read_lines
hex_lines-read isprint zero i [] l h = (refl, tt)
hex_lines-read isprint zero i (c ∷ s) l h = absurd (omega (arith, l))
hex_lines-read isprint (suc fuel) i [] l h = (refl, tt)
hex_lines-read isprint (suc fuel) i (c ∷ s) l h =
    let line : Bytes = take 16 (c ∷ s) in
    let short : length line ≤ 16 = omega (arith, length-take 16 (c ∷ s)) in
    let rest =
      hex_lines-read isprint fuel (i + 16) (drop 16 (c ∷ s))
        (omega (arith, l, length-drop 16 (c ∷ s))) (All-drop 16 (c ∷ s) h) in
    (
      ap₂ (λ a b. a ++ b) (read_columns-hex_line isprint line short (All-take 16 (c ∷ s) h)) rest.0
          ∙ take-append-drop 16 (c ∷ s),
      (omega (arith, short, length-hex_line isprint line short), rest.1),
    )
