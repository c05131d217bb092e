-- ===== src/Catalog/Order.antt =====
-- The order of the catalogue, and what it holds after a change.
use utxo_z.Common.{
  ℕ, ◌<◌, ◌≤◌, ◌≡◌, refl, true, false, ◌&&◌, ◌||◌, not, List, [], ◌∷◌, ltb, ◌==◌, max, All, arith,
  Bool-cases, inl, inr,
}
use utxo_z.Catalog.{Catalog, insert_version, erase_version, has_version, contains, add, remove}

-- Each version is below all those after it.
abbrev pub Ordered : List ℕ → Type 0
Ordered [] = Unit
Ordered (v ∷ vs) = All (λ w. v < w) vs × Ordered vs

pub record IsOrdered {D : Type 0} (c : Catalog D) : Type 0 where
  pub ordered : Ordered c.versions
  pub issued : All (λ v. v ≤ c.highest_issued) c.versions

has_version-insert_version :
    (v n : ℕ) (vs : List ℕ) → has_version n (insert_version v vs) ≡ (v == n || has_version n vs)
unfolding has_version insert_version
has_version-insert_version v n [] = refl
has_version-insert_version v n (w ∷ ws) = ground (arith, has_version-insert_version v n ws)

All-insert_version :
    (P : ℕ → Type 0) (v : ℕ) (vs : List ℕ) → P v → All P vs → All P (insert_version v vs)
unfolding insert_version
All-insert_version P v [] h a = (h, tt)
All-insert_version P v (w ∷ ws) h a = elim (Bool-cases (ltb w v)) [
  | inl e ↦ rw e (a.0, All-insert_version P v ws h a.1)
  | inr e ↦ rw e (elim (Bool-cases (w == v)) [ inl e' ↦ rw e' a | inr e' ↦ rw e' (h, a) ])
]

All-erase_version : (P : ℕ → Type 0) (v : ℕ) (vs : List ℕ) → All P vs → All P (erase_version v vs)
unfolding erase_version
All-erase_version P v [] a = tt
All-erase_version P v (w ∷ ws) a = elim (Bool-cases (ltb w v)) [
  | inl e ↦ rw e (a.0, All-erase_version P v ws a.1)
  | inr e ↦ rw e (elim (Bool-cases (w == v)) [ inl e' ↦ rw e' a.1 | inr e' ↦ rw e' a ])
]

pub All-mono : {P Q : ℕ → Type 0} (vs : List ℕ) → ((n : ℕ) → P n → Q n) → All P vs → All Q vs
All-mono [] h a = tt
All-mono (v ∷ vs) h a = (h v a.0, All-mono vs h a.1)

Ordered-insert_version : (v : ℕ) (vs : List ℕ) → Ordered vs → Ordered (insert_version v vs)
unfolding insert_version
Ordered-insert_version v [] o = (tt, tt)
Ordered-insert_version v (w ∷ ws) o = elim (Bool-cases (ltb w v)) [
  | inl e ↦
      rw e
        (All-insert_version (λ n. w < n) v ws (ground arith) o.0, Ordered-insert_version v ws o.1)
  | inr e ↦ rw e (elim (Bool-cases (w == v)) [
    | inl e' ↦ rw e' o
    | inr e' ↦
        let lt : v < w = ground arith in
        rw e' ((lt, All-mono ws (λ n h. omega (arith, lt, h)) o.0), o)
  ])
]

Ordered-erase_version : (v : ℕ) (vs : List ℕ) → Ordered vs → Ordered (erase_version v vs)
unfolding erase_version
Ordered-erase_version v [] o = tt
Ordered-erase_version v (w ∷ ws) o = elim (Bool-cases (ltb w v)) [
  | inl e ↦ rw e (All-erase_version (λ n. w < n) v ws o.0, Ordered-erase_version v ws o.1)
  | inr e ↦ rw e (elim (Bool-cases (w == v)) [ inl e' ↦ rw e' o.1 | inr e' ↦ rw e' o ])
]

-- A version below all of a list is not in it.
below-All : (v : ℕ) (vs : List ℕ) → All (λ w. v < w) vs → has_version v vs ≡ false
unfolding has_version
below-All v [] a = refl
below-All v (w ∷ ws) a = let h = a.0 in ground (arith, below-All v ws a.1)

has_version-erase_version :
    (v n : ℕ) (vs : List ℕ)
    → Ordered vs
    → has_version n (erase_version v vs) ≡ (not (v == n) && has_version n vs)
unfolding has_version erase_version
has_version-erase_version v n [] o = ground arith
has_version-erase_version v n (w ∷ ws) o =
    ground (arith, has_version-erase_version v n ws o.1, below-All w ws o.0, later w v ws)
  where
    later :
        (w v : ℕ) (ws : List ℕ)
        → Ordered (w ∷ ws)
        → ltb w v ≡ false
        → (w == v) ≡ false
        → has_version v ws ≡ false
    later w v ws o h k =
        below-All v ws
          (All-mono ws (λ n l. let b : v < w = ground arith in omega (arith, b, l)) o.0)

pub nothing : (n : ℕ) → ¬ (has_version n [] ≡ true)
unfolding has_version
nothing n h = cc h

pub bounded : (n b : ℕ) (vs : List ℕ) → All (λ v. v ≤ b) vs → has_version n vs ≡ true → n ≤ b
unfolding has_version
bounded n b [] a h = cc h
bounded n b (v ∷ vs) a h =
    let l = a.0 in
    elim (Bool-cases (v == n)) [ inl e ↦ ground arith | inr e ↦ bounded n b vs a.1 (rw e at h) ]

module _ {D : Type 0} where
  -- On a catalogue in order, adding a version adds that one to the versions it holds and removing
  -- one takes that one away, and both leave a catalogue in order.
  pub add-remove-exact :
      (c : Catalog D) (v : ℕ)
      → IsOrdered c
      → (IsOrdered (add c v) × ((n : ℕ) → contains (add c v) n ≡ (v == n || contains c n)))
        × (IsOrdered (remove c v)
            × ((n : ℕ) → contains (remove c v) n ≡ (not (v == n) && contains c n)))
  unfolding add remove contains
  add-remove-exact c v o = (
    (
      record {
        ordered = Ordered-insert_version v c.versions o.ordered;
        issued =
            All-insert_version (λ n. n ≤ max c.highest_issued v) v c.versions (omega arith)
              (All-mono c.versions (λ n h. omega (arith, h)) o.issued);
      },
      (λ n. has_version-insert_version v n c.versions),
    ),
    (
      record {
        ordered = Ordered-erase_version v c.versions o.ordered;
        issued = All-erase_version (λ n. n ≤ c.highest_issued) v c.versions o.issued;
      },
      (λ n. has_version-erase_version v n c.versions o.ordered),
    ),
  )
