-- ===== src/WadRay/Defs.antt =====
-- The methods that test-suites/helpers/utils/wadraymath.ts adds to `BigNumber`, and the constants of
-- helpers/constants.ts that the calculations use.
use kza_lending.Base.{◌^◌, ◌≡◌, refl}
use kza_lending.Base.Int.{ℤ, pos, negsuc, ◌+ℤ◌, ◌*ℤ◌, ◌/ℤ◌}
use kza_lending.Base.Result.{Result, ok, err, division_by_zero, div}

abbrev pub percentage_factor : ℤ
percentage_factor = pos 10000

abbrev pub half_percentage : ℤ
half_percentage = pos 5000

abbrev pub wad : ℤ
wad = pos 1000000000000000000

abbrev pub half_wad : ℤ
half_wad = pos 500000000000000000

abbrev pub ray : ℤ
ray = pos 1000000000000000000000000000

abbrev pub half_ray : ℤ
half_ray = pos 500000000000000000000000000

abbrev pub wad_ray_ratio : ℤ
wad_ray_ratio = pos 1000000000

abbrev pub one_year : ℤ
one_year = pos 31536000

-- 2^256 - 1, the amount that stands for "everything".
abbrev pub max_uint_amount : ℤ
max_uint_amount = pos 115792089237316195423570985008687907853269984665640564039457584007913129639935

unfoldable pub wad_mul : ℤ → ℤ → ℤ
wad_mul a other = (half_wad +ℤ a *ℤ other) /ℤ wad

unfoldable pub wad_div : ℤ → ℤ → Result ℤ
unfolding div
wad_div a other = let half_other = other /ℤ pos 2 in div (half_other +ℤ a *ℤ wad) other

unfoldable pub ray_mul : ℤ → ℤ → ℤ
ray_mul a other = (half_ray +ℤ a *ℤ other) /ℤ ray

unfoldable pub ray_div : ℤ → ℤ → Result ℤ
unfolding div
ray_div a other = let half_other = other /ℤ pos 2 in div (half_other +ℤ a *ℤ ray) other

unfoldable pub percent_mul : ℤ → ℤ → ℤ
percent_mul a bps = (half_percentage +ℤ a *ℤ bps) /ℤ percentage_factor

unfoldable pub percent_div : ℤ → ℤ → Result ℤ
unfolding div
percent_div a bps = let half_bps = bps /ℤ pos 2 in div (half_bps +ℤ a *ℤ percentage_factor) bps

unfoldable pub ray_to_wad : ℤ → ℤ
ray_to_wad a = let half_ratio = wad_ray_ratio /ℤ pos 2 in (half_ratio +ℤ a) /ℤ wad_ray_ratio

unfoldable pub wad_to_ray : ℤ → ℤ
wad_to_ray a = a *ℤ wad_ray_ratio

unfoldable pub negated : ℤ → ℤ
negated a = a *ℤ negsuc 0

constants :
    (wad ≡ pos (10 ^ 18))
    × (ray ≡ pos (10 ^ 27))
    × (wad_ray_ratio ≡ pos (10 ^ 9))
    × (max_uint_amount +ℤ pos 1 ≡ pos (2 ^ 256))
unfolding ◌+ℤ◌
constants = (refl, refl, refl, refl)

two_thirds : ray_div (pos 2) (pos 3) ≡ ok (pos 666666666666666666666666667)
unfolding ray_div ◌+ℤ◌ ◌*ℤ◌ ◌/ℤ◌
two_thirds = refl

by_zero : ray_div (pos 2) (pos 0) ≡ err division_by_zero
unfolding ray_div ◌+ℤ◌ ◌*ℤ◌ ◌/ℤ◌
by_zero = refl
