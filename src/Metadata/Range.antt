-- ===== src/Metadata/Range.antt =====
-- The range of heights that a metadata record keeps.
use utxo_z.Common.{ℕ, ◌+◌, ◌<◌, ◌^◌, ◌≡◌, true, List, [], ◌∷◌, arith, All, length}
use utxo_z.FlatMap.{Key}
use utxo_z.Metadata.{FileMetadata, update_on_insert, block_in_range}

module _ {K : Type 0} ⦃key : Key K⦄ where
  pub insert_all : FileMetadata K → List (K × ℕ) → FileMetadata K
  insert_all m [] = m
  insert_all m ((k, height) ∷ es) = insert_all (update_on_insert m k height) es

  update-count :
      (m : FileMetadata K) (k : K) (height : ℕ)
      → m.entry_count + 1 < 2 ^ 64
      → (update_on_insert m k height).entry_count ≡ m.entry_count + 1
  unfolding update_on_insert
  update-count m k height fits = ground arith

  update-in_range :
      (m : FileMetadata K) (k : K) (height : ℕ)
      → m.entry_count + 1 < 2 ^ 64
      → block_in_range (update_on_insert m k height) height ≡ true
  unfolding update_on_insert block_in_range
  update-in_range m k height fits = ground arith

  update_keeps_range :
      (m : FileMetadata K) (k : K) (height h : ℕ)
      → m.entry_count + 1 < 2 ^ 64
      → block_in_range m h ≡ true
      → block_in_range (update_on_insert m k height) h ≡ true
  unfolding update_on_insert block_in_range
  update_keeps_range m k height h fits r = ground arith

  insert_all_keeps_range :
      (m : FileMetadata K) (es : List (K × ℕ)) (h : ℕ)
      → m.entry_count + length es < 2 ^ 64
      → block_in_range m h ≡ true
      → block_in_range (insert_all m es) h ≡ true
  unfolding insert_all
  insert_all_keeps_range m [] h fits r = r
  insert_all_keeps_range m ((k, height) ∷ es) h fits r =
      let one : m.entry_count + 1 < 2 ^ 64 = omega (arith, fits) in
      insert_all_keeps_range (update_on_insert m k height) es h
        (omega (arith, fits, update-count m k height one)) (update_keeps_range m k height h one r)

  -- As long as the count fits in 64 bits, a metadata record counts every entry that goes into it, and
  -- the height of each lies in the range that it keeps.
  pub insert_all-covers :
      (m : FileMetadata K) (es : List (K × ℕ))
      → m.entry_count + length es < 2 ^ 64
      → ((insert_all m es).entry_count ≡ m.entry_count + length es)
        × All (λ e. block_in_range (insert_all m es) e.1 ≡ true) es
  unfolding insert_all
  insert_all-covers m [] fits = (omega arith, tt)
  insert_all-covers m ((k, height) ∷ es) fits =
      let one : m.entry_count + 1 < 2 ^ 64 = omega (arith, fits) in
      let next : (update_on_insert m k height).entry_count + length es < 2 ^ 64 =
        omega (arith, fits, update-count m k height one) in
      let (n, a) = insert_all-covers (update_on_insert m k height) es next in
      (
        omega (arith, n, update-count m k height one),
        (
          insert_all_keeps_range (update_on_insert m k height) es height next
              (update-in_range m k height one),
          a,
        ),
      )
