-- ===== src/Cntl/Layout/Fields.antt =====
-- Structures that are packed and read back.
use diag.Base.{
  ℕ, zero, suc, ◌+◌, ◌*◌, ◌/◌, ◌%◌, ◌<◌, ◌≡◌, refl, sym, ap, ap₂, ◌∙◌, List, [], ◌∷◌, ◌++◌,
  append_assoc, arith, drop,
}
use diag.Bytes.{Bytes, le16, le32}
use diag.Cntl.Layout.{le, number, pack, fields}

-- A number fits in a field.
unfoldable pub Fits : ℕ → ℕ → Type 0
Fits zero n = n ≡ 0
Fits (suc width) n = Fits width (n / 256)

unfoldable pub AllFit : List ℕ → List ℕ → Type 0
unfolding Fits
AllFit [] [] = Unit
AllFit (width ∷ layout) (n ∷ values) = Fits width n × AllFit layout values
AllFit _ _ = ⊥

number-le : (width n : ℕ) (rest : Bytes) → Fits width n → number width (le width n ++ rest) ≡ n
unfolding number le Fits
number-le zero n rest h = sym h
number-le (suc width) n rest h =
    ap (λ m. n % 256 + 256 * m) (number-le width (n / 256) rest h) ∙ omega arith

drop-le : (width n : ℕ) (rest : Bytes) → drop width (le width n ++ rest) ≡ rest
unfolding le
drop-le zero n rest = refl
drop-le (suc width) n rest = drop-le width (n / 256) rest

-- A structure that is packed is read back, whatever lies behind it.
fields-pack :
    (layout values : List ℕ) (rest : Bytes)
    → AllFit layout values
    → fields layout (pack layout values ++ rest) ≡ values
unfolding fields pack AllFit
fields-pack [] [] rest h = refl
fields-pack [] (n ∷ values) rest h = absurd h
fields-pack (width ∷ layout) [] rest h = absurd h
fields-pack (width ∷ layout) (n ∷ values) rest h =
    ap (λ s. number width s ∷ fields layout (drop width s))
      (append_assoc (le width n) (pack layout values) rest)
    ∙ ap₂ (λ m s. m ∷ fields layout s) (number-le width n (pack layout values ++ rest) h.0)
        (drop-le width n (pack layout values ++ rest))
    ∙ ap (λ t. n ∷ t) (fields-pack layout values rest h.1)

pub le32-le : (n : ℕ) → le32 n ≡ le 4 n
unfolding le32 le
le32-le n =
    ap₂ (λ a b. n % 256 ∷ n / 256 % 256 ∷ a % 256 ∷ b % 256 ∷ []) (omega arith) (omega arith)

pub le16-le : (n : ℕ) → le16 n ≡ le 2 n
unfolding le16 le
le16-le n = refl

pub Fits-word : (n : ℕ) → n < 4294967296 → Fits 4 n
unfolding Fits
Fits-word n h = omega (arith, h)

pub Fits-byte : (n : ℕ) → n < 256 → Fits 1 n
unfolding Fits
Fits-byte n h = omega (arith, h)

pub Fits-half : (n : ℕ) → n < 65536 → Fits 2 n
unfolding Fits
Fits-half n h = omega (arith, h)

-- A packet that is a structure and what lies behind it.
pub fields-packet :
    (layout values : List ℕ) (packet rest : Bytes)
    → packet ≡ pack layout values ++ rest
    → AllFit layout values
    → fields layout packet ≡ values
fields-packet layout values packet rest e h =
    ap (fields layout) e ∙ fields-pack layout values rest h
