-- ===== src/Catalog/Issued.antt =====
-- The numbers the catalogue issues, over any history of changes.
use utxo_z.Common.{
  ℕ, zero, suc, ◌+◌, ◌<◌, ◌≤◌, ◌≡◌, refl, true, false, ◌&&◌, List, [], ◌∷◌, ◌==◌, if◌then◌else◌,
  All, arith, inl, inr, ◌⊎◌,
}
use utxo_z.Catalog.{
  Catalog, has_version, is_nil, contains, no_versions, add, next_version, remove, set_metadata,
  erase_metadata, clear, clear_metadata,
}
use utxo_z.Catalog.Order.{IsOrdered, All-mono, nothing, bounded, add-remove-exact}

-- One change to a catalogue.
pub data Change (D : Type 0) : Type 0 where
  adds removes undescribes : ℕ → Change D
  describes : ℕ → D → Change D
  clears undescribes_all : Change D

-- The versions added since the catalogue was last cleared, whether or not they are still there.
abbrev pub ever_added : {D : Type 0} → List ℕ → List (Change D) → List ℕ
ever_added vs [] = vs
ever_added vs (adds v ∷ xs) = ever_added (v ∷ vs) xs
ever_added vs (clears ∷ xs) = ever_added [] xs
ever_added vs (removes v ∷ xs) = ever_added vs xs
ever_added vs (describes v m ∷ xs) = ever_added vs xs
ever_added vs (undescribes v ∷ xs) = ever_added vs xs
ever_added vs (undescribes_all ∷ xs) = ever_added vs xs

module _ {D : Type 0} where
  abbrev pub change : Change D → Catalog D → Catalog D
  change (adds v) c = add c v
  change (removes v) c = remove c v
  change (describes v m) c = set_metadata c v m
  change (undescribes v) c = erase_metadata c v
  change clears c = clear c
  change undescribes_all c = clear_metadata c

  abbrev pub change_all : List (Change D) → Catalog D → Catalog D
  change_all [] c = c
  change_all (x ∷ xs) c = change_all xs (change x c)

  -- A catalogue in order that has issued all of the versions.
  record Issued (vs : List ℕ) (c : Catalog D) : Type 0 where
    in_order : IsOrdered c
    within : All (λ v. v ≤ c.highest_issued) vs

  described :
      (vs : List ℕ) (c : Catalog D)
      → Issued vs c
      → (ms : List (ℕ × D)) → Issued vs (record c { metadata = ms })
  described vs c i ms = record {
    in_order = record { ordered = i.in_order.ordered; issued = i.in_order.issued };
    within = i.within;
  }

  above_held :
      (c : Catalog D) (n : ℕ)
      → All (λ v. v ≤ c.highest_issued) c.versions
      → contains c n ≡ true
      → n < next_version c
  unfolding contains next_version
  above_held c n = above c.versions
    where
      above :
          (vs : List ℕ)
          → All (λ v. v ≤ c.highest_issued) vs
          → has_version n vs ≡ true
          → n < (if is_nil vs && c.highest_issued == 0 then 0 else c.highest_issued + 1)
      above [] a h = absurd (nothing n h)
      above (v ∷ vs) a h = let l = bounded n c.highest_issued (v ∷ vs) a h in omega (arith, l)

  -- What was issued is below the next version, unless that starts again at zero.
  above_issued :
      (c : Catalog D) (n : ℕ)
      → n ≤ c.highest_issued
      → (n < next_version c) ⊎ ((n ≡ 0) × (next_version c ≡ 0) × (contains c n ≡ false))
  unfolding contains next_version has_version
  above_issued c n = above c.versions c.highest_issued
    where
      above :
          (vs : List ℕ) (b : ℕ)
          → n ≤ b
          → (n < (if is_nil vs && b == 0 then 0 else b + 1))
            ⊎ ((n ≡ 0)
                × ((if is_nil vs && b == 0 then 0 else b + 1) ≡ 0)
                × (has_version n vs ≡ false))
      above [] zero l = inr (omega arith, refl, refl)
      above [] (suc b) l = inl (grind (arith, l))
      above (v ∷ vs) b l = inl (omega (arith, l))

  change_all-Issued :
      (vs : List ℕ) (xs : List (Change D)) (c : Catalog D)
      → Issued vs c
      → Issued (ever_added vs xs) (change_all xs c)
  unfolding add remove set_metadata erase_metadata clear clear_metadata
  change_all-Issued vs [] c i = i
  change_all-Issued vs (adds v ∷ xs) c i = change_all-Issued (v ∷ vs) xs (add c v) (record {
    in_order = (add-remove-exact c v i.in_order).0.0;
    within = (omega arith, All-mono vs (λ n h. omega (arith, h)) i.within);
  })
  change_all-Issued vs (removes v ∷ xs) c i =
      change_all-Issued vs xs (remove c v)
        (record { in_order = (add-remove-exact c v i.in_order).1.0; within = i.within })
  change_all-Issued vs (describes v m ∷ xs) c i =
      change_all-Issued vs xs (set_metadata c v m) (described vs c i _)
  change_all-Issued vs (undescribes v ∷ xs) c i =
      change_all-Issued vs xs (erase_metadata c v) (described vs c i _)
  change_all-Issued vs (undescribes_all ∷ xs) c i =
      change_all-Issued vs xs (clear_metadata c) (described vs c i _)
  change_all-Issued vs (clears ∷ xs) c i =
      change_all-Issued [] xs (clear c)
        (record { in_order = record { ordered = tt; issued = tt }; within = tt })

  -- After any changes to a catalogue that was empty, the next version is above every version that it
  -- holds and above every version added since it was last cleared, also those removed since. The one
  -- exception is version zero, which may be issued again once the catalogue no longer holds it.
  pub next_version-above :
      (changes : List (Change D)) (n : ℕ)
      → ((contains (change_all changes no_versions) n ≡ true)
          ⊎ (has_version n (ever_added [] changes) ≡ true))
      → (n < next_version (change_all changes no_versions))
        ⊎ ((n ≡ 0)
            × (next_version (change_all changes no_versions) ≡ 0)
            × (contains (change_all changes no_versions) n ≡ false))
  unfolding contains
  next_version-above changes n known = elim known [
    | inl held ↦ inl (above_held c n i.in_order.issued held)
    | inr added ↦ above_issued c n (bounded n c.highest_issued _ i.within added)
  ]
    where
      c : Catalog D
      c = change_all changes no_versions

      i : Issued (ever_added [] changes) c
      i =
          change_all-Issued [] changes no_versions
            (record { in_order = record { ordered = tt; issued = tt }; within = tt })
