-- ===== src/Cstrings/Laws.antt =====
-- Numbers that are printed and read.
use diag.Base.{
  ℕ, zero, suc, ◌+◌, ◌-◌, ◌*◌, ◌/◌, ◌%◌, ◌≤◌, ◌<◌, ◌≡◌, refl, ap, ◌∙◌, ◌≢◌, inl, inr, true, false,
  some, [], ◌∷◌, ◌++◌, arith, ltb, ◌==◌, ==_refl, Bool-cases, All, All-append,
}
use diag.Bytes.{Bytes}
use diag.Cstrings.{
  atoi, decimal, skip_space, signed, isspace, nonempty, split_at, strtok, skip, isdigit, digits,
  decimal_in,
}

abbrev pub AreDigits : Bytes → Type 0
AreDigits = All (λ c. isdigit c ≡ true)

-- A digit behind digits is the last of the number.
differ : (c d : ℕ) → c ≢ d → (c == d) ≡ false
differ c d ne = ground (arith, ne)

digits-append :
    (n d : ℕ) (xs : Bytes)
    → AreDigits xs
    → d < 10
    → digits n (xs ++ ((48 + d) ∷ [])) ≡ 10 * digits n xs + d
unfolding digits
digits-append n d [] h l = ground arith
digits-append n d (x ∷ xs) h l = rw (h.0) (digits-append (10 * n + (x - 48)) d xs h.1 l)

pub decimal_in-AreDigits : (fuel n : ℕ) → AreDigits (decimal_in fuel n)
unfolding decimal_in
decimal_in-AreDigits zero n = (ground arith, tt)
decimal_in-AreDigits (suc fuel) n = elim (Bool-cases (ltb n 10)) [
  | inl small ↦ rw small (ground (arith, small), tt)
  | inr large ↦ rw large (
      All-append (λ c. isdigit c ≡ true) (decimal_in fuel (n / 10)) ((48 + n % 10) ∷ [])
        (decimal_in-AreDigits fuel (n / 10)) (ground arith, tt))
]

-- A number is read back.
digits-decimal_in : (fuel n : ℕ) → n ≤ fuel → digits 0 (decimal_in fuel n) ≡ n
unfolding decimal_in digits
digits-decimal_in zero n h = ground (arith, h)
digits-decimal_in (suc fuel) n h = elim (Bool-cases (ltb n 10)) [
  | inl small ↦ rw small (ground (arith, small))
  | inr large ↦ rw large (
      digits-append 0 (n % 10) (decimal_in fuel (n / 10)) (decimal_in-AreDigits fuel (n / 10))
        (omega arith)
      ∙ ap (λ m. 10 * m + n % 10) (digits-decimal_in fuel (n / 10) (omega (arith, h)))
      ∙ omega arith)
]

atoi-AreDigits : (xs : Bytes) → AreDigits xs → atoi xs ≡ digits 0 xs % 4294967296
unfolding atoi skip_space signed digits
atoi-AreDigits [] h = refl
atoi-AreDigits (x ∷ xs) h = rw (no_space x h.0, no_minus x h.0, no_plus x h.0) refl
  where
    no_space : (c : ℕ) → isdigit c ≡ true → isspace c ≡ false
    no_space c h = ground (arith, h)

    no_minus : (c : ℕ) → isdigit c ≡ true → (c == 45) ≡ false
    no_minus c h = ground (arith, h)

    no_plus : (c : ℕ) → isdigit c ≡ true → (c == 43) ≡ false
    no_plus c h = ground (arith, h)

-- A word that is printed is read back.
pub atoi-decimal : (n : ℕ) → n < 4294967296 → atoi (decimal n) ≡ n
unfolding decimal
atoi-decimal n h =
    atoi-AreDigits (decimal_in n n) (decimal_in-AreDigits n n)
    ∙ ap (λ m. m % 4294967296) (digits-decimal_in n n (omega arith))
    ∙ omega (arith, h)

nonempty-snoc : (xs : Bytes) (c : ℕ) → nonempty (xs ++ (c ∷ [])) ≡ some (xs ++ (c ∷ []))
nonempty-snoc [] c = refl
nonempty-snoc (x ∷ xs) c = refl

pub nonempty-decimal : (n : ℕ) → nonempty (decimal n) ≡ some (decimal n)
unfolding decimal decimal_in
nonempty-decimal n = ends n n
  where
    ends : (fuel n : ℕ) → nonempty (decimal_in fuel n) ≡ some (decimal_in fuel n)
    ends zero n = refl
    ends (suc fuel) n = elim (Bool-cases (ltb n 10)) [
      | inl small ↦ rw small refl
      | inr large ↦ rw large (nonempty-snoc (decimal_in fuel (n / 10)) (48 + n % 10))
    ]

-- The token before the first delimiter, and what is behind it.
split_at-append :
    (delim : ℕ) (token rest : Bytes)
    → All (λ c. c ≢ delim) token
    → split_at delim (token ++ (delim ∷ rest)) ≡ (token, rest)
unfolding split_at
split_at-append delim [] rest h = rw (==_refl delim) refl
split_at-append delim (c ∷ token) rest h =
    rw (differ c delim h.0, split_at-append delim token rest h.1) refl

-- strtok gives both parts of a string with a delimiter between them.
pub strtok-append :
    (delim c : ℕ) (token rest : Bytes)
    → c ≢ delim
    → All (λ c. c ≢ delim) token
    → strtok delim ((c ∷ token) ++ (delim ∷ rest)) ≡ (some (c ∷ token), nonempty rest)
unfolding strtok skip split_at
strtok-append delim c token rest ne h =
    rw (differ c delim ne, split_at, differ c delim ne, split_at-append delim token rest h) refl

pub decimal-AreDigits : (n : ℕ) → AreDigits (decimal n)
unfolding decimal
decimal-AreDigits n = decimal_in-AreDigits n n

pub digits-decimal : (n : ℕ) → digits 0 (decimal n) ≡ n
unfolding decimal
digits-decimal n = digits-decimal_in n n (omega arith)
