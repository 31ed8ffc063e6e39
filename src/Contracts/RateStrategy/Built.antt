-- ===== src/Contracts/RateStrategy/Built.antt =====
-- The constructor of contracts/protocol/pool/DefaultReserveInterestRateStrategy.sol.
use kza_lending.Base.{ℕ, ◌≡◌, refl, sym, some, leb, arith, Bool-cases, inl, inr}
use kza_lending.Base.Int.{pos}
use kza_lending.WadRay.{nat_ray}
use kza_lending.Contracts.RateStrategy.{Strategy, constructor}
use kza_lending.Contracts.RateStrategy.Steps.{params_of, IsBuilt}

some_inj : {a b : Strategy} → some a ≡ some b → a ≡ b
some_inj h = cc

-- A strategy that the constructor builds stores the parameters that it was given, each at its place,
-- and its two ratios are at most one ray, with the excesses that are left to one ray.
pub constructor-IsBuilt :
    (optimal base slope1 slope2 stable1 stable2 offset excess optimal_stable : ℕ) (s : Strategy)
    → constructor optimal base slope1 slope2 stable1 stable2 offset excess optimal_stable ≡ some s
    → IsBuilt s
      × (params_of s ≡ record {
        optimal_usage_ratio = pos optimal;
        base_variable_borrow_rate = pos base;
        variable_rate_slope1 = pos slope1;
        variable_rate_slope2 = pos slope2;
        stable_rate_slope1 = pos stable1;
        stable_rate_slope2 = pos stable2;
        base_stable_rate_offset = pos offset;
        stable_rate_excess_offset = pos excess;
        optimal_stable_to_total_debt_ratio = pos optimal_stable;
      })
unfolding constructor
constructor-IsBuilt optimal base slope1 slope2 stable1 stable2 offset excess optimal_stable s h =
    elim (Bool-cases (leb optimal nat_ray)) [
      | inl a ↦ elim (Bool-cases (leb optimal_stable nat_ray)) [
        | inl b ↦
            let e = some_inj (rw (a, b) at h) in
            rw (sym e) (
              record {
                usage_le = ground arith;
                usage_excess = refl;
                stable_le = ground arith;
                stable_excess = refl;
              },
              refl,
            )
        | inr b ↦ let k = rw (a, b) at h in cc
      ]
      | inr a ↦ let k = rw a at h in cc
    ]
