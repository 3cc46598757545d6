-- ===== src/Tests/Numbers.antt =====
-- The conversions of numbers.
use sapper.Base.{nat_eq, text_eq, ◌≡◌, ◌<◌, ◌^◌, ◌↔◌, refl, text, ok, err, arith}
use sapper.Numbers.{
  pos, out_of_range, bad_syntax, digits, parse_digits, uint32_to_str, str_to_uint32, int_to_uint32,
  str_to_uint32-uint32_to_str, int_to_uint32_iff,
}

print_run : (uint32_to_str 4096 ≡ text "4096") × (uint32_to_str 0 ≡ text "0")
unfolding uint32_to_str digits
print_run = (refl, refl)

read_run :
    (str_to_uint32 (text "4294967295") ≡ ok 4294967295)
    × (str_to_uint32 (text "4294967296") ≡ err out_of_range)
    × (str_to_uint32 (text "-1") ≡ err bad_syntax)
    × (str_to_uint32 (text "99999999999x") ≡ err out_of_range)
unfolding str_to_uint32 parse_digits
read_run = (refl, refl, refl, refl)

str_to_uint32-uint32_to_str_example : str_to_uint32 (uint32_to_str 4096) ≡ ok 4096
str_to_uint32-uint32_to_str_example = str_to_uint32-uint32_to_str 4096 (omega arith)

int_to_uint32_iff_example : (int_to_uint32 (pos 7) ≡ ok 7) ↔ ((pos 7 ≡ pos 7) × (7 < 2 ^ 32))
int_to_uint32_iff_example = int_to_uint32_iff (pos 7) 7
