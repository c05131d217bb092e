-- ===== src/Budget/Invariant.antt =====
-- What holds of a meter after any history of requests.
use utxo_z.Common.{ℕ, ◌+◌, ◌^◌, ◌≤◌, ◌<◌, ◌≡◌, refl, ◌↔◌, true, false, List, [], ◌∷◌, arith}
use utxo_z.Budget.{Meter, Request, acquires, releases, new, acquire, release, step, run}

pub record Inv (m : Meter) : Type 0 where
  pub word : m.ceiling < 2 ^ 64
  pub held : m.outstanding ≤ m.peak
  pub bounded : m.peak ≤ m.ceiling

pub new-Inv : (c : ℕ) → c < 2 ^ 64 → Inv (new c)
unfolding new
new-Inv c h = record { word = h; held = omega arith; bounded = omega arith }

pub acquire-Inv : (m : Meter) (bytes : ℕ) → Inv m → Inv (acquire m bytes).0
unfolding acquire
acquire-Inv m bytes v = ground arith

pub release-Inv : (m : Meter) (bytes : ℕ) → Inv m → Inv (release m bytes)
unfolding release
release-Inv m bytes v = ground arith

step-Inv : (m : Meter) (r : Request) → Inv m → Inv (step m r)
unfolding step
step-Inv m (acquires bytes) v = acquire-Inv m bytes v
step-Inv m (releases bytes) v = release-Inv m bytes v

pub run-Inv : (m : Meter) (rs : List Request) → Inv m → Inv (run m rs)
unfolding run
run-Inv m [] v = v
run-Inv m (r ∷ rs) v = run-Inv (step m r) rs (step-Inv m r v)

step-ceiling : (m : Meter) (r : Request) → (step m r).ceiling ≡ m.ceiling
unfolding step acquire release
step-ceiling m (acquires bytes) = ground arith
step-ceiling m (releases bytes) = ground arith

run-ceiling : (m : Meter) (rs : List Request) → (run m rs).ceiling ≡ m.ceiling
unfolding run
run-ceiling m [] = refl
run-ceiling m (r ∷ rs) = omega (arith, run-ceiling (step m r) rs, step-ceiling m r)

-- From a fresh meter, whatever is acquired and released and in whatever order, what is held
-- never exceeds the recorded peak, and the peak never exceeds the ceiling the meter was given.
pub run_within_ceiling :
    (c : ℕ) (rs : List Request)
    → c < 2 ^ 64
    → ((run (new c) rs).outstanding ≤ (run (new c) rs).peak) × ((run (new c) rs).peak ≤ c)
unfolding new
run_within_ceiling c rs h =
    let v = run-Inv (new c) rs (new-Inv c h) in
    (v.held, omega (arith, v.bounded, run-ceiling (new c) rs))

-- On a meter in a valid state, an acquisition is granted exactly if the books balance and the
-- request fits under the ceiling together with what is held; then it is added to what is held,
-- and otherwise nothing is taken.
pub acquire_exact :
    (m : Meter) (bytes : ℕ)
    → Inv m
    → (((acquire m bytes).1 ≡ true)
        ↔ ((m.unbalanced ≡ false) × (m.outstanding + bytes ≤ m.ceiling)))
      × ((acquire m bytes).1 ≡ true → (acquire m bytes).0.outstanding ≡ m.outstanding + bytes)
      × ((acquire m bytes).1 ≡ false → (acquire m bytes).0.outstanding ≡ m.outstanding)
unfolding acquire
acquire_exact m bytes v =
    (((λ h. ground arith), (λ h. ground arith)), (λ h. ground arith), (λ h. ground arith))

-- Closed for good: a meter that saw a mismatched release.
pub record IsClosed (m : Meter) : Type 0 where
  pub latched : m.unbalanced ≡ true
  pub empty : m.outstanding ≡ 0

step-IsClosed : (m : Meter) (r : Request) → IsClosed m → IsClosed (step m r)
unfolding step acquire release
step-IsClosed m (acquires bytes) v = ground arith
step-IsClosed m (releases bytes) v = ground arith

run-IsClosed : (m : Meter) (rs : List Request) → IsClosed m → IsClosed (run m rs)
unfolding run
run-IsClosed m [] v = v
run-IsClosed m (r ∷ rs) v = run-IsClosed (step m r) rs (step-IsClosed m r v)

release_mismatch : (m : Meter) (bytes : ℕ) → m.outstanding < bytes → IsClosed (release m bytes)
unfolding release
release_mismatch m bytes h = ground arith

closed_refuses : (m : Meter) (bytes : ℕ) → IsClosed m → (acquire m bytes).1 ≡ false
unfolding acquire
closed_refuses m bytes v = ground arith

-- After a release of more than is held, no later acquisition of any size is ever granted,
-- whatever is acquired and released in between.
pub release_fails_closed :
    (m : Meter) (bytes : ℕ) (rs : List Request) (wanted : ℕ)
    → m.outstanding < bytes
    → (acquire (run (release m bytes) rs) wanted).1 ≡ false
release_fails_closed m bytes rs wanted h =
    closed_refuses (run (release m bytes) rs) wanted
      (run-IsClosed (release m bytes) rs (release_mismatch m bytes h))
