-- ===== src/Text/Decimal.antt =====
-- `parse::<usize>()`, `parse::<u64>()` and the printing of numbers, with their round trip.
use rationale.Prelude.{
  ℕ, zero, suc, ◌+◌, ◌-◌, ◌*◌, ◌/◌, ◌%◌, ◌^◌, ◌<◌, true, ◌&&◌, Option, none, some, [], ◌∷◌, ◌++◌,
  ◌≡◌, ltb, ◌==◌, All, All-append, false, arith, if◌then◌else◌, Bool-cases, inl, inr,
}
use rationale.Text.{Text, is_ascii_digit, is_empty}
use rationale.Text.Split.{Lacks}

-- The digits, most significant first; a non-digit and a value past the limit are errors.
unfoldable pub parse_digits : ℕ → ℕ → Text → Option ℕ
unfolding is_ascii_digit
parse_digits limit acc [] = some acc
parse_digits limit acc (c ∷ s) =
    let next = acc * 10 + (c - b'0') in
    if is_ascii_digit c && ltb next limit then parse_digits limit next s else none

-- One leading `+` is allowed, and no digit at all is an error.
unfoldable pub parse_unsigned : ℕ → Text → Option ℕ
unfolding parse_digits
parse_unsigned limit [] = none
parse_unsigned limit (c ∷ s) =
    if c == b'+'
    then (if is_empty s then none else parse_digits limit 0 s)
    else parse_digits limit 0 (c ∷ s)

-- Words of 64 bits.
abbrev pub word_limit : ℕ
word_limit = 2 ^ 64

unfoldable pub parse_usize : Text → Option ℕ
unfolding parse_unsigned
parse_usize = parse_unsigned word_limit

print_fuel : ℕ → ℕ → Text
print_fuel zero n = []
print_fuel (suc f) n =
    let front = print_fuel f (n / 10) in
    if ltb n 10 then (b'0' + n) ∷ [] else front ++ (b'0' + n % 10) ∷ []

-- The `Display` of a number: its decimal digits, with no leading zero. The fuel is past the number.
unfoldable pub print : ℕ → Text
unfolding print_fuel
print n = print_fuel (suc n) n

parse_digits-append :
    (limit acc n : ℕ) (s t : Text)
    → parse_digits limit acc s ≡ some n
    → parse_digits limit acc (s ++ t) ≡ parse_digits limit n t
unfolding parse_digits
parse_digits-append limit acc n [] t h = ground arith
parse_digits-append limit acc n (c ∷ s) t h =
    ground (arith, parse_digits-append limit (acc * 10 + (c - b'0')) n s t)

parse_digits-print_fuel :
    (limit f n : ℕ) → n < f → n < limit → parse_digits limit 0 (print_fuel f n) ≡ some n
unfolding print_fuel
parse_digits-print_fuel limit zero n h k = absurd (omega arith)
parse_digits-print_fuel limit (suc f) n h k = elim (Bool-cases (ltb n 10)) [
  | inl e ↦ rw e (unfold parse_digits in ground arith)
  | inr e ↦
      let ih : parse_digits limit 0 (print_fuel f (n / 10)) ≡ some (n / 10) =
        parse_digits-print_fuel limit f (n / 10) (ground arith) (ground arith) in
      rw (e, parse_digits-append limit 0 (n / 10) _ _ ih) (unfold parse_digits in ground arith)
]

-- Every character of a printed number is a digit.
abbrev pub AllDigits : Text → Type 0
AllDigits s = All (λ c. is_ascii_digit c ≡ true) s

print_fuel-head :
    (f n : ℕ) → n < f → (c : ℕ) × (s : Text) × (print_fuel f n ≡ c ∷ s) × (is_ascii_digit c ≡ true)
unfolding print_fuel is_ascii_digit
print_fuel-head zero n h = absurd (omega arith)
print_fuel-head (suc f) n h = elim (Bool-cases (ltb n 10)) [
  | inl e ↦ (b'0' + n, [], rw e, ground arith)
  | inr e ↦
      let (c, s, p, q) = print_fuel-head f (n / 10) (ground arith) in
      (c, s ++ (b'0' + n % 10) ∷ [], rw (e, p), q)
]

-- What was printed is read back, below the limit of the word.
pub parse_unsigned-print : (limit n : ℕ) → n < limit → parse_unsigned limit (print n) ≡ some n
unfolding print
parse_unsigned-print limit n h =
    let (c, s, p, q) = print_fuel-head (suc n) n (omega arith) in
    let r : parse_digits limit 0 (c ∷ s) ≡ some n =
      rw (← p) (parse_digits-print_fuel limit (suc n) n (omega arith) h) in
    rw p (unfold parse_unsigned is_ascii_digit in ground arith)

print_fuel-AllDigits : (f n : ℕ) → AllDigits (print_fuel f n)
unfolding print_fuel
print_fuel-AllDigits zero n = tt
print_fuel-AllDigits (suc f) n = elim (Bool-cases (ltb n 10)) [
  | inl e ↦ rw e (unfold is_ascii_digit in ground arith, tt)
  | inr e ↦ rw e (
      All-append _ (print_fuel f (n / 10)) _ (print_fuel-AllDigits f (n / 10))
        (unfold is_ascii_digit in ground arith, tt))
]

pub print-AllDigits : (n : ℕ) → AllDigits (print n)
unfolding print
print-AllDigits n = print_fuel-AllDigits (suc n) n

-- A character that is no digit does not occur among digits.
pub Lacks-of_AllDigits : (c : ℕ) (s : Text) → is_ascii_digit c ≡ false → AllDigits s → Lacks c s
Lacks-of_AllDigits c [] h a = tt
Lacks-of_AllDigits c (d ∷ s) h a =
    (unfold is_ascii_digit in ground arith, Lacks-of_AllDigits c s h a.1)

pub parse_usize-print : (n : ℕ) → n < word_limit → parse_usize (print n) ≡ some n
unfolding parse_usize
parse_usize-print n h = parse_unsigned-print word_limit n h
