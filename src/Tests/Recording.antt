-- ===== src/Tests/Recording.antt =====
-- A merge record of too many sources.
use utxo_z.Common.{ℕ, zero, suc, ◌+◌, ◌≡◌, refl, true, false, List, [], ◌∷◌, some, length, arith}
use utxo_z.Sidecar.{Plan, encode_merge_plan}
use utxo_z.Errors.{recovery_failed}
use utxo_z.FlatMap.{FlatMap}
use utxo_z.FlatMap.Reference.{nat_key, list_map}
use utxo_z.Dir.{raw, file_at}
use utxo_z.Io.{done, failed}
use utxo_z.Instance.{State}
use utxo_z.Catalog.{no_versions}
use utxo_z.Merge.{Policy, write_merge_sidecar, sidecar_path}
use utxo_z.Recovery.{recover_record}
use utxo_z.Recovery.Overlong.{write_merge_sidecar-overlong}

abbrev F : FlatMap ℕ ℕ
F = list_map 10

abbrev policy : Policy ℕ ℕ
policy = record { index = 0; min_buckets = 15; height_of = λ v. v; render = λ m. [] }

count_from : ℕ → ℕ → List ℕ
count_from n zero = []
count_from n (suc k) = n ∷ count_from (n + 1) k

length-count_from : (n k : ℕ) → length (count_from n k) ≡ k
unfolding count_from
length-count_from n zero = refl
length-count_from n (suc k) = omega (arith, length-count_from (n + 1) k)

-- Versions 0 to 64.
abbrev too_many : Plan
too_many = record {
  container = 0;
  target = 65;
  id = record { high = 1; low = 1 };
  sources = count_from 0 65;
}

abbrev start : State ℕ (List (ℕ × ℕ))
start = record { dir = []; catalog = no_versions; dirty = []; cleanup_pending = false }

write_merge_sidecar-overlong_example :
    (t : State ℕ (List (ℕ × ℕ))) × (write_merge_sidecar F policy too_many
        (record { state = start; verdicts = []; entropy = [] })
      ≡ done true (record { state = t; verdicts = []; entropy = [] }))
    × (file_at (sidecar_path F policy 65) t.dir ≡ some (raw (encode_merge_plan too_many)))
    × (recover_record 0 65 (record { state = t; verdicts = []; entropy = [] })
        ≡ failed recovery_failed (record { state = t; verdicts = []; entropy = [] }))
write_merge_sidecar-overlong_example =
    write_merge_sidecar-overlong F policy too_many start [] (omega (arith, length-count_from 0 65))
