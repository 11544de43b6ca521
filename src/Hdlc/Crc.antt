-- ===== src/Hdlc/Crc.antt =====
-- The check sequence of router/hdlc.c: `hdlc_crc_byte` against the shift register that the comment
-- over the table names, and the residue that every frame leaves.
use diag.Base.{
  ℕ, zero, suc, ◌+◌, ◌-◌, ◌*◌, ◌/◌, ◌%◌, ◌^◌, ◌<◌, ◌≡◌, refl, ◌∙◌, ap, Bool, true, bit_xor, arith,
  List, [], ◌∷◌, ◌++◌, ◌==◌, ==_iff, ltb, ltb→lt, if◌then◌else◌, passes_below, passes_below-lt,
  bit_xor_fields, bit_xor-lt, get_or, All,
}
use diag.Hdlc.{hdlc_crc_byte}
use diag.Hdlc.Table.{crc_table}

-- One shift of the reversed register with the polynomial 0x8408.
unfoldable pub crc_shift : ℕ → ℕ
crc_shift c = if c % 2 == 1 then bit_xor (c / 2) 0x8408 else c / 2

unfoldable pub crc_shifts : ℕ → ℕ → ℕ
crc_shifts zero c = c
crc_shifts (suc n) c = crc_shifts n (crc_shift c)

abbrev table_at : ℕ → ℕ
table_at i = get_or crc_table i 0

abbrev is_small : ℕ → Bool
is_small i = ltb (table_at i) 0x10000

small_entries : passes_below is_small 256 ≡ true
unfolding crc_table passes_below
small_entries = refl

table_at-lt : (i : ℕ) → i < 256 → table_at i < 0x10000
table_at-lt i h = ltb→lt _ _ (passes_below-lt is_small 256 h small_entries)

agrees : ℕ → ℕ → Bool
agrees h l = bit_xor h (table_at l) == crc_shifts 8 (h * 256 + l)

agreeing_rows : ℕ → Bool
agreeing_rows h = passes_below (agrees h) 256

agreeing_table : passes_below agreeing_rows 256 ≡ true
unfolding crc_table crc_shifts crc_shift passes_below agrees agreeing_rows
agreeing_table = refl

table_at-crc_shifts :
    (h l : ℕ) → h < 256 → l < 256 → bit_xor h (table_at l) ≡ crc_shifts 8 (h * 256 + l)
unfolding agrees agreeing_rows
table_at-crc_shifts h l p q =
    (==_iff _ _).0
      (passes_below-lt (agrees h) 256 q (passes_below-lt agreeing_rows 256 p agreeing_table))

xor_parts : (crc ch : ℕ) → ch < 256 → bit_xor crc ch ≡ crc / 256 * 256 + bit_xor (crc % 256) ch
xor_parts crc ch h =
    ap (λ c. bit_xor c ch) (omega arith)
    ∙ bit_xor_fields 8 (crc / 256) (crc % 256) ch (omega arith) h

low_xor-lt : (crc ch : ℕ) → ch < 256 → bit_xor (crc % 256) ch < 256
low_xor-lt crc ch h = bit_xor-lt 8 (crc % 256) ch (omega arith) h

xor-mod : (crc ch : ℕ) → ch < 256 → bit_xor crc ch % 256 ≡ bit_xor (crc % 256) ch
xor-mod crc ch h = omega (arith, xor_parts crc ch h, low_xor-lt crc ch h)

-- For a 16-bit register and a byte, the table lookup is eight shifts of the register.
pub hdlc_crc_byte-crc_shifts :
    (crc ch : ℕ) → crc < 2 ^ 16 → ch < 256 → hdlc_crc_byte crc ch ≡ crc_shifts 8 (bit_xor crc ch)
unfolding hdlc_crc_byte
hdlc_crc_byte-crc_shifts crc ch p q =
    rw (xor_parts crc ch q, xor_mod')
      (table_at-crc_shifts (crc / 256) (bit_xor (crc % 256) ch) (omega arith) (low_xor-lt crc ch q))
  where
    xor_mod' : (crc / 256 * 256 + bit_xor (crc % 256) ch) % 256 ≡ bit_xor (crc % 256) ch
    xor_mod' = omega (arith, low_xor-lt crc ch q)

pub hdlc_crc_byte-lt : (crc ch : ℕ) → crc < 2 ^ 16 → ch < 256 → hdlc_crc_byte crc ch < 2 ^ 16
unfolding hdlc_crc_byte
hdlc_crc_byte-lt crc ch p q =
    bit_xor-lt 16 (crc / 256) (table_at (bit_xor crc ch % 256)) (omega arith)
      (table_at-lt _ (omega arith))

complements : ℕ → Bool
complements l = bit_xor l (255 - l) == 255

complement_table : passes_below complements 256 ≡ true
unfolding passes_below complements
complement_table = refl

leaves_residue : ℕ → Bool
leaves_residue h = hdlc_crc_byte (bit_xor h (table_at 255)) (255 - h) == 0xf0b8

residue_table : passes_below leaves_residue 256 ≡ true
unfolding passes_below leaves_residue hdlc_crc_byte crc_table
residue_table = refl

-- The first byte of the complement.
first_check_byte :
    (crc : ℕ) → hdlc_crc_byte crc (255 - crc % 256) ≡ bit_xor (crc / 256) (table_at 255)
unfolding hdlc_crc_byte complements
first_check_byte crc =
    ap (λ i. bit_xor (crc / 256) (table_at i))
      (xor-mod crc (255 - crc % 256) (omega arith)
        ∙ (==_iff _ _).0
            (passes_below-lt complements 256 {i = crc % 256} (omega arith) complement_table))

-- The register after a list of bytes.
unfoldable pub crc_from : ℕ → List ℕ → ℕ
crc_from crc [] = crc
crc_from crc (s ∷ src) = crc_from (hdlc_crc_byte crc s) src

abbrev pub IsByte : ℕ → Type 0
IsByte b = b < 256

-- The check sequence that `hdlc_encode` sends, low byte first.
abbrev pub check_bytes : ℕ → List ℕ
check_bytes crc = (255 - crc % 256) ∷ (255 - crc / 256 % 256) ∷ []

check_bytes-residue : (crc : ℕ) → crc < 2 ^ 16 → crc_from crc (check_bytes crc) ≡ 0xf0b8
unfolding crc_from leaves_residue
check_bytes-residue crc p =
    rw (first_check_byte crc, high)
      ((==_iff _ _).0
        (passes_below-lt leaves_residue 256 {i = crc / 256} (omega arith) residue_table))
  where
    high : crc / 256 % 256 ≡ crc / 256
    high = omega arith

-- From any 16-bit register, over any bytes followed by the check sequence of the register they
-- leave, the register ends in the constant 0xf0b8.
pub crc_from-residue :
    (crc : ℕ) (src : List ℕ)
    → crc < 2 ^ 16
    → All IsByte src
    → crc_from crc (src ++ check_bytes (crc_from crc src)) ≡ 0xf0b8
unfolding crc_from
crc_from-residue crc [] p h = check_bytes-residue crc p
crc_from-residue crc (s ∷ src) p h =
    crc_from-residue (hdlc_crc_byte crc s) src (hdlc_crc_byte-lt crc s p h.0) h.1
