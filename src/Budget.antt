-- ===== src/Budget.antt =====
-- src/detail/budget_meter.hpp: the ceiling that every proportional allocation passes through.
pub mod Invariant
pub mod Allocator
use utxo_z.Common.{
  ℕ, ◌+◌, ◌*◌, ◌/◌, ◌%◌, Bool, true, false, List, [], ◌∷◌, ltb, if◌then◌else◌, u64_mod, u64_max,
  sub64,
}

-- `class budget_meter`.
pub record Meter : Type 0 where
  pub ceiling : ℕ
  pub outstanding : ℕ
  pub peak : ℕ
  pub refusals : ℕ
  pub unbalanced : Bool

unfoldable pub new : ℕ → Meter
new ceiling = record {
  ceiling = ceiling;
  outstanding = 0;
  peak = 0;
  refusals = 0;
  unbalanced = false;
}

refuse : Meter → Meter × Bool
refuse m = (record m { refusals = (m.refusals + 1) % u64_mod }, false)

grant : Meter → ℕ → Meter × Bool
grant m bytes =
    let outstanding = (m.outstanding + bytes) % u64_mod in
    (
      record m {
        outstanding = outstanding;
        peak = if ltb m.peak outstanding then outstanding else m.peak;
      },
      true,
    )

unfoldable pub acquire : Meter → ℕ → Meter × Bool
unfolding refuse grant
acquire m bytes =
    if m.unbalanced
    then refuse m
    else if ltb (sub64 m.ceiling m.outstanding) bytes
    then refuse m
    else grant m bytes

unfoldable pub release : Meter → ℕ → Meter
release m bytes =
    if ltb m.outstanding bytes
    then record m { unbalanced = true; outstanding = 0 }
    else record m { outstanding = sub64 m.outstanding bytes }

-- What the containers of a walk ask of the meter, in any order.
pub data Request : Type 0 where
  acquires releases : ℕ → Request

unfoldable pub step : Meter → Request → Meter
unfolding acquire release
step m (acquires bytes) = (acquire m bytes).0
step m (releases bytes) = release m bytes

unfoldable pub run : Meter → List Request → Meter
unfolding step
run m [] = m
run m (r ∷ rs) = run (step m r) rs
