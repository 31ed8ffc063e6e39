-- ===== src/WadRay/Examples.antt =====
-- The theorems on the fixed-point arithmetic at concrete numbers.
use kza_lending.Base.{ℕ, ◌+◌, ◌*◌, ◌/◌, ◌≤◌, ◌<◌, ◌≡◌, arith}
use kza_lending.Base.Int.{pos}
use kza_lending.Base.Result.{ok, ◌>>=◌}
use kza_lending.WadRay.Defs.{ray_mul, ray_div, wad_to_ray, ray_to_wad}
use kza_lending.WadRay.Natural.{nat_ray, nat_half_ray}
use kza_lending.WadRay.Rounding.{
  ray_nearest, scale_round_trip, unscale_round_trip, ray_to_wad-wad_to_ray,
}

ray_nearest_example :
    (p : ℕ) × (q : ℕ) × (ray_mul (pos 7) (pos 3) ≡ pos p)
    × (ray_div (pos 7) (pos 3) ≡ ok (pos q))
    × (p * nat_ray ≤ 7 * 3 + nat_half_ray)
    × (7 * 3 + nat_half_ray < p * nat_ray + nat_ray)
    × (q * 3 ≤ 7 * nat_ray + 3 / 2)
    × (7 * nat_ray + 3 / 2 < q * 3 + 3)
ray_nearest_example = ray_nearest 7 3 (omega arith)

scale_round_trip_example :
    (b : ℕ) × ((ray_div (pos 100) (pos 700000000000000000000000000) >>= λ s.
    ok (ray_mul s (pos 700000000000000000000000000)))
      ≡ ok (pos b))
    × (b * nat_ray ≤ 100 * nat_ray + nat_half_ray + 700000000000000000000000000 / 2)
    × (100 * nat_ray ≤ b * nat_ray + nat_half_ray + 700000000000000000000000000 / 2)
    × (700000000000000000000000000 ≤ nat_ray → b ≡ 100)
scale_round_trip_example = scale_round_trip 100 700000000000000000000000000 (omega arith)

unscale_round_trip_example :
    ray_div (ray_mul (pos 55) (pos 1300000000000000000000000001)) (pos 1300000000000000000000000001)
    ≡ ok (pos 55)
unscale_round_trip_example = unscale_round_trip 55 1300000000000000000000000001 (omega arith)

ray_to_wad-wad_to_ray_example : ray_to_wad (wad_to_ray (pos 12345)) ≡ pos 12345
ray_to_wad-wad_to_ray_example = ray_to_wad-wad_to_ray 12345
