-- ===== src/Std/Decimal.antt =====
-- Decimal numbers: `to_string` of the unsigned integers, and `str::parse` of a `u16`.
use mathlib.Core.List.{append_assoc, append-nil}
use utx0_node.Base.{
  ℕ, zero, suc, ◌+◌, ◌-◌, ◌*◌, ◌/◌, ◌%◌, ◌^◌, ◌<◌, ◌≡◌, refl, ap, sym, ◌∙◌, Bool, true, ◌&&◌, Text,
  [], ◌∷◌, ◌++◌, Result, ok, err, ltb, leb, ◌==◌, Bool-cases, inl, inr, if◌then◌else◌, arith,
}

-- The digits of `n`, with as many rounds as it is ever divided.
digits : ℕ → ℕ → Text
digits zero n = []
digits (suc rounds) n =
    let front = digits rounds (n / 10) in
    if ltb n 10 then (48 + n) ∷ [] else front ++ (48 + n % 10) ∷ []

unfoldable pub to_string : ℕ → Text
unfolding digits
to_string n = digits (suc n) n

-- `std::num::IntErrorKind`, as far as it can occur.
pub data ParseIntError : Type 0 where
  empty invalid_digit pos_overflow : ParseIntError

abbrev pub is_digit : ℕ → Bool
is_digit c = leb 48 c && leb c 57

unfoldable pub parse_digits : ℕ → Text → Result ParseIntError ℕ
parse_digits acc [] = ok acc
parse_digits acc (c ∷ s) =
    let more = parse_digits (acc * 10 + (c - 48)) s in
    if is_digit c
    then (if ltb (acc * 10 + (c - 48)) (2 ^ 16) then more else err pos_overflow)
    else err invalid_digit

-- One leading plus sign is allowed, before at least one digit.
unfoldable pub parse_u16 : Text → Result ParseIntError ℕ
unfolding parse_digits
parse_u16 [] = err empty
parse_u16 (c ∷ []) = if c == b'+' then err invalid_digit else parse_digits 0 (c ∷ [])
parse_u16 (c ∷ d ∷ s) = if c == b'+' then parse_digits 0 (d ∷ s) else parse_digits 0 (c ∷ d ∷ s)

prints : to_string 18018 ≡ b'1' ∷ b'8' ∷ b'0' ∷ b'1' ∷ b'8' ∷ []
unfolding to_string
prints = refl

-- Reading the digits of `n`, and then the rest.
parse_digits-digits :
    (rounds n : ℕ) (rest : Text)
    → n < rounds
    → n < 2 ^ 16
    → parse_digits 0 (digits rounds n ++ rest) ≡ parse_digits n rest
unfolding digits parse_digits
parse_digits-digits zero n rest h small = elim h [ ]
parse_digits-digits (suc rounds) n rest h small = elim (Bool-cases (ltb n 10)) [
  | inl one ↦ rw one (ground arith)
  | inr more ↦
      let front =
        parse_digits-digits rounds (n / 10) ((48 + n % 10) ∷ rest) (ground arith) (omega arith) in
      rw (more, append_assoc, front) (ground arith)
]

-- Nothing but digits.
abbrev pub IsDigits : Text → Type 0
IsDigits [] = Unit
IsDigits (c ∷ s) = (is_digit c ≡ true) × IsDigits s

IsDigits-append : (s t : Text) → IsDigits s → IsDigits t → IsDigits (s ++ t)
IsDigits-append [] t h k = k
IsDigits-append (c ∷ s) t (d, h) k = (d, IsDigits-append s t h k)

digits-IsDigits : (rounds n : ℕ) → IsDigits (digits rounds n)
unfolding digits
digits-IsDigits zero n = tt
digits-IsDigits (suc rounds) n = elim (Bool-cases (ltb n 10)) [
  | inl one ↦ rw one (ground arith, tt)
  | inr more ↦ rw more (
      IsDigits-append (digits rounds (n / 10)) ((48 + n % 10) ∷ [])
        (digits-IsDigits rounds (n / 10)) (ground arith, tt))
]

pub to_string-IsDigits : (n : ℕ) → IsDigits (to_string n)
unfolding to_string
to_string-IsDigits n = digits-IsDigits (suc n) n

-- The last character, a digit, and what stands before it.
pub to_string-last :
    (n : ℕ) → (s : Text) × (c : ℕ) × (to_string n ≡ s ++ c ∷ []) × (is_digit c ≡ true)
unfolding to_string digits
to_string-last n = elim (Bool-cases (ltb n 10)) [
  | inl one ↦ ([], 48 + n, rw one, ground arith)
  | inr more ↦ (digits n (n / 10), 48 + n % 10, rw more, ground arith)
]

-- The first character is a digit.
pub data StartsWithDigit : Text → Type 0 where
  starts : {c : ℕ} (s : Text) → is_digit c ≡ true → StartsWithDigit (c ∷ s)

pub StartsWithDigit-append : {s : Text} (t : Text) → StartsWithDigit s → StartsWithDigit (s ++ t)
StartsWithDigit-append t (starts s d) = starts (s ++ t) d

digits-StartsWithDigit : (rounds n : ℕ) → n < rounds → StartsWithDigit (digits rounds n)
unfolding digits
digits-StartsWithDigit zero n h = elim h [ ]
digits-StartsWithDigit (suc rounds) n h = elim (Bool-cases (ltb n 10)) [
  | inl one ↦ rw one (starts [] (ground arith))
  | inr more ↦ rw more (
      StartsWithDigit-append ((48 + n % 10) ∷ [])
        (digits-StartsWithDigit rounds (n / 10) (ground arith)))
]

pub to_string-StartsWithDigit : (n : ℕ) → StartsWithDigit (to_string n)
unfolding to_string
to_string-StartsWithDigit n = digits-StartsWithDigit (suc n) n (omega arith)

parse_u16-eq-parse_digits : {s : Text} → StartsWithDigit s → parse_u16 s ≡ parse_digits 0 s
unfolding parse_u16
parse_u16-eq-parse_digits (starts [] d) = ground arith
parse_u16-eq-parse_digits (starts (c ∷ s) d) = ground arith

-- Every u16 is read back from its decimal text.
pub parse_u16-to_string : (n : ℕ) → n < 2 ^ 16 → parse_u16 (to_string n) ≡ ok n
unfolding to_string parse_digits
parse_u16-to_string n small =
    parse_u16-eq-parse_digits (to_string-StartsWithDigit n)
    ∙ (rw append-nil at (parse_digits-digits (suc n) n [] (omega arith) small))

parse_digits-lt :
    (acc : ℕ) (s : Text) (n : ℕ) → acc < 2 ^ 16 → parse_digits acc s ≡ ok n → n < 2 ^ 16
unfolding parse_digits
parse_digits-lt acc [] n small h = ground arith
parse_digits-lt acc (c ∷ s) n small h = ground (arith, parse_digits-lt (acc * 10 + (c - 48)) s n)

-- What `parse` accepts fits a u16.
pub parse_u16-lt : (s : Text) (n : ℕ) → parse_u16 s ≡ ok n → n < 2 ^ 16
unfolding parse_u16
parse_u16-lt [] n h = cc
parse_u16-lt (c ∷ []) n h = ground (arith, parse_digits-lt 0 (c ∷ []) n)
parse_u16-lt (c ∷ d ∷ s) n h =
    ground (arith, parse_digits-lt 0 (d ∷ s) n, parse_digits-lt 0 (c ∷ d ∷ s) n)

-- What the digits say, after the number `acc`.
digits_value : ℕ → Text → ℕ
digits_value acc [] = acc
digits_value acc (c ∷ s) = digits_value (acc * 10 + (c - 48)) s

digits_value-append :
    (acc : ℕ) (s t : Text) → digits_value acc (s ++ t) ≡ digits_value (digits_value acc s) t
unfolding digits_value
digits_value-append acc [] t = refl
digits_value-append acc (c ∷ s) t = digits_value-append (acc * 10 + (c - 48)) s t

digits_value-digits : (rounds n : ℕ) → n < rounds → digits_value 0 (digits rounds n) ≡ n
unfolding digits digits_value
digits_value-digits zero n h = elim h [ ]
digits_value-digits (suc rounds) n h = elim (Bool-cases (ltb n 10)) [
  | inl one ↦ rw one (omega arith)
  | inr more ↦ rw more (
      digits_value-append 0 (digits rounds (n / 10)) ((48 + n % 10) ∷ [])
      ∙ ap (λ (t : ℕ). t * 10 + (48 + n % 10 - 48))
          (digits_value-digits rounds (n / 10) (ground arith))
      ∙ omega arith)
]

-- Numbers with the same decimal text are the same.
pub to_string-injective : (n m : ℕ) → to_string n ≡ to_string m → n ≡ m
unfolding to_string
to_string-injective n m e =
    sym (digits_value-digits (suc n) n (omega arith))
    ∙ ap (digits_value 0) e
    ∙ digits_value-digits (suc m) m (omega arith)
