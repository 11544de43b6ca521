-- ===== src/SendData/Laws.antt =====
-- What tools/send_data.c prints and when it ends.
use diag.Base.{
  ℕ, zero, suc, ◌+◌, ◌-◌, ◌*◌, ◌%◌, ◌≡◌, refl, ap, ◌∙◌, Bool, true, false, ◌||◌, some, [], ◌∷◌,
  ◌++◌, arith, ◌==◌, if◌then◌else◌, length,
}
use diag.Bytes.{Bytes}
use diag.Cstrings.{isdigit, nonempty, digits, decimal}
use diag.Cstrings.Laws.{AreDigits, decimal-AreDigits, digits-decimal, nonempty-decimal}
use diag.SendData.{before, line_end, print_char, print_from}

-- The numbers in a text: runs of digits, whatever stands between them. The flag says whether the text
-- before ended in digits, and `n` is their number.
unfoldable pub numbers_from : Bool → ℕ → Bytes → Bytes
numbers_from true n [] = n ∷ []
numbers_from false n [] = []
numbers_from inside n (c ∷ s) =
    let outside = numbers_from false 0 s in
    if isdigit c
    then numbers_from true (10 * n + (c - 48)) s
    else if inside
    then n ∷ outside
    else outside

unfoldable pub numbers : Bytes → Bytes
unfolding numbers_from
numbers s = numbers_from false 0 s

numbers_from-AreDigits :
    (n : ℕ) (xs rest : Bytes)
    → AreDigits xs
    → numbers_from true n (xs ++ rest) ≡ numbers_from true (digits n xs) rest
unfolding numbers_from digits
numbers_from-AreDigits n [] rest h = refl
numbers_from-AreDigits n (x ∷ xs) rest h =
    rw h.0 (numbers_from-AreDigits (10 * n + (x - 48)) xs rest h.1)

numbers_from-nonempty :
    (xs rest : Bytes)
    → AreDigits xs
    → nonempty xs ≡ some xs
    → numbers_from false 0 (xs ++ rest) ≡ numbers_from true (digits 0 xs) rest
unfolding numbers_from digits
numbers_from-nonempty [] rest h e = absurd (ground (arith, e))
numbers_from-nonempty (x ∷ xs) rest h e =
    rw h.0 (numbers_from-AreDigits (10 * 0 + (x - 48)) xs rest h.1)

numbers_from-decimal :
    (c : ℕ) (rest : Bytes) → numbers_from false 0 (decimal c ++ rest) ≡ numbers_from true c rest
numbers_from-decimal c rest =
    numbers_from-nonempty (decimal c) rest (decimal-AreDigits c) (nonempty-decimal c)
    ∙ ap (λ n. numbers_from true n rest) (digits-decimal c)

numbers_from-line_end :
    (b : Bool) (n : ℕ) (rest s : Bytes)
    → numbers_from false 0 rest ≡ s
    → numbers_from true n rest ≡ n ∷ s
    → numbers_from true n (line_end b ++ rest) ≡ n ∷ s
unfolding line_end numbers_from
numbers_from-line_end true n rest s e f = ap (λ s. n ∷ s) e
numbers_from-line_end false n rest s e f = f

numbers_from-before :
    (i : ℕ) (rest : Bytes) → numbers_from false 0 (before i ++ rest) ≡ numbers_from false 0 rest
unfolding before numbers_from
numbers_from-before zero rest = refl
numbers_from-before (suc i) rest = refl

-- A number and what ends its line.
numbers_from-number :
    (c : ℕ) (b : Bool) (rest s : Bytes)
    → numbers_from false 0 rest ≡ s
    → numbers_from true c rest ≡ c ∷ s
    → numbers_from false 0 (decimal c ++ (line_end b ++ rest)) ≡ c ∷ s
numbers_from-number c b rest s e f =
    numbers_from-decimal c (line_end b ++ rest) ∙ numbers_from-line_end b c rest s e f

-- What is printed holds the numbers of the packet, behind another number too.
numbers_from-print :
    (s : Bytes) (i : ℕ)
    → (numbers_from false 0 (print_from false i s) ≡ s)
      × ((n : ℕ) → numbers_from true n (print_from false (suc i) s) ≡ n ∷ s)
unfolding print_from print_char numbers_from
numbers_from-print [] i = (refl, λ n. refl)
numbers_from-print (c ∷ s) i =
    let here = numbers_from-print s i in
    let next = numbers_from-print s (suc i) in
    (
      numbers_from-before i (decimal c ++ (line_end (ends i) ++ print_from false (suc i) s))
          ∙ numbers_from-number c (ends i) (print_from false (suc i) s) s next.0 (here.1 c),
      λ n.
          ap (λ s. n ∷ s)
            (numbers_from-number c (ends (suc i)) (print_from false (suc (suc i)) s) s
              (numbers_from-print s (suc (suc i))).0 (next.1 c)),
    )
  where
    ends : ℕ → Bool
    ends i = (i % 16 == 15) || (length s == 0)

pub numbers-print_from : (s : Bytes) → numbers (print_from false 0 s) ≡ s
unfolding numbers
numbers-print_from s = (numbers_from-print s 0).0
