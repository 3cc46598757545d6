-- ===== src/Numbers.antt =====
-- pkg/utils/convert.go, with the functions of `strconv` that it calls.
use mathlib.Core.List.{append_assoc, append-nil}
use sapper.Base.{
  ltb→lt, sym, nat_eq, ℕ, zero, suc, ◌+◌, ◌-◌, ◌*◌, ◌/◌, ◌%◌, ◌^◌, ◌<◌, ◌≡◌, ◌↔◌, refl, ap, ◌∙◌,
  Text, Bool, ◌&&◌, [], ◌∷◌, ◌++◌, Result, ok, err, ltb, leb, if◌then◌else◌, arith, Bool-cases, inl,
  inr,
}

-- Go's 64-bit `int`, as far as the conversions read it.
pub data ℤ : Type 0 where
  pos : ℕ → ℤ
  negsuc : ℕ → ℤ

pub data NumberError : Type 0 where
  bad_syntax out_of_range : NumberError

-- strconv.FormatUint(n, 10); the fuel bounds the number of digits.
unfoldable pub digits : ℕ → ℕ → Text
digits zero n = []
digits (suc fuel) n =
    let rest = digits fuel (n / 10) in
    if ltb n 10 then (48 + n) ∷ [] else rest ++ (48 + n % 10) ∷ []

unfoldable pub uint32_to_str : ℕ → Text
unfolding digits
uint32_to_str n = digits (suc n) n

abbrev pub is_digit : ℕ → Bool
is_digit c = leb 48 c && leb c 57

-- The loop of strconv.ParseUint(s, 10, 32), which stops at the first character that is no digit or
-- takes the number out of its range.
unfoldable pub parse_digits : ℕ → Text → Result NumberError ℕ
parse_digits acc [] = ok acc
parse_digits acc (c ∷ cs) =
    let n = acc * 10 + (c - 48) in
    let rest = parse_digits n cs in
    if is_digit c then if ltb n (2 ^ 32) then rest else err out_of_range else err bad_syntax

unfoldable pub str_to_uint32 : Text → Result NumberError ℕ
unfolding parse_digits
str_to_uint32 [] = err bad_syntax
str_to_uint32 (c ∷ cs) = parse_digits 0 (c ∷ cs)

unfoldable pub int_to_uint32 : ℤ → Result NumberError ℕ
int_to_uint32 (negsuc n) = err out_of_range
int_to_uint32 (pos n) = if ltb (2 ^ 32 - 1) n then err out_of_range else ok (n % 2 ^ 32)

append-ne-nil : (xs : Text) (c : ℕ) → xs ++ c ∷ [] ≡ [] → ⊥
append-ne-nil [] c e = cc
append-ne-nil (x ∷ xs) c e = cc

digits-ne-nil : (fuel n : ℕ) → n < fuel → digits fuel n ≡ [] → ⊥
unfolding digits
digits-ne-nil zero n h e = absurd (omega arith)
digits-ne-nil (suc fuel) n h e = elim (Bool-cases (ltb n 10)) [
  | inl small ↦ ground arith
  | inr large ↦ append-ne-nil (digits fuel (n / 10)) (48 + n % 10) (ground arith)
]

parse_digit :
    (acc d : ℕ) (rest : Text)
    → d < 10
    → acc * 10 + d < 2 ^ 32
    → parse_digits acc ((48 + d) ∷ rest) ≡ parse_digits (acc * 10 + d) rest
unfolding parse_digits
parse_digit acc d rest h room = ground (arith, ap (λ (k : ℕ). acc * 10 + k) (shift d))
  where
    shift : (d : ℕ) → 48 + d - 48 ≡ d
    shift d = omega arith

-- Parsing reads the printed digits back, whatever stands after them.
parse_digits-digits :
    (fuel n : ℕ) (rest : Text)
    → n < fuel
    → n < 2 ^ 32
    → parse_digits 0 (digits fuel n ++ rest) ≡ parse_digits n rest
unfolding digits
parse_digits-digits zero n rest h room = absurd (omega arith)
parse_digits-digits (suc fuel) n rest h room = elim (Bool-cases (ltb n 10)) [
  | inl small ↦
      rw (small, digits)
        (parse_digit 0 n rest (ltb→lt n 10 small) (omega arith)
          ∙ ap (λ (m : ℕ). parse_digits m rest) (omega arith))
  | inr large ↦
      rw (large, digits)
        (ap (parse_digits 0) (append_assoc (digits fuel (n / 10)) ((48 + n % 10) ∷ []) rest)
          ∙ parse_digits-digits fuel (n / 10) ((48 + n % 10) ∷ rest) (ground arith) (omega arith)
          ∙ parse_digit (n / 10) (n % 10) rest (omega arith) (omega arith)
          ∙ ap (λ (m : ℕ). parse_digits m rest) (omega arith))
]

parse_nothing : (n : ℕ) → parse_digits n [] ≡ ok n
unfolding parse_digits
parse_nothing n = refl

str_to_uint32-parse_digits : (s : Text) → (s ≡ [] → ⊥) → str_to_uint32 s ≡ parse_digits 0 s
unfolding str_to_uint32
str_to_uint32-parse_digits [] h = absurd (h refl)
str_to_uint32-parse_digits (c ∷ cs) h = refl

-- A uint32 is read back from its decimal digits.
pub str_to_uint32-uint32_to_str : (n : ℕ) → n < 2 ^ 32 → str_to_uint32 (uint32_to_str n) ≡ ok n
unfolding uint32_to_str
str_to_uint32-uint32_to_str n h =
    str_to_uint32-parse_digits (digits (suc n) n) (digits-ne-nil (suc n) n (omega arith))
    ∙ ap (parse_digits 0) (sym (append-nil (digits (suc n) n)))
    ∙ parse_digits-digits (suc n) n [] (omega arith) h
    ∙ parse_nothing n

-- An int becomes a uint32 exactly when it is in its range, and keeps its value.
pub int_to_uint32_iff : (i : ℤ) (n : ℕ) → (int_to_uint32 i ≡ ok n) ↔ ((i ≡ pos n) × (n < 2 ^ 32))
unfolding int_to_uint32
int_to_uint32_iff (negsuc k) n = (λ h. cc, λ (e, _). cc)
int_to_uint32_iff (pos k) n = (λ h. ground arith, λ (e, h). ground arith)
