-- ===== src/Merge/Before.antt =====
-- Up to the publication of the record a merge touches no version file and no record, and what it
-- builds holds exactly what the sources hold.
use utxo_z.Common.{
  ℕ, ◌≡◌, refl, sym, ◌∙◌, ap, List, [], ◌∷◌, ◌++◌, Option, none, some, if◌then◌else◌, ◌==◌, ◌⊎◌,
  arith, leb, ==_refl, Bool-cases, Option-cases, inl, inr, ==_iff,
}
use utxo_z.Sidecar.{Marker, contains}
use utxo_z.Errors.{insufficient_space, file_open_failed}
use utxo_z.FlatMap.{Key, FlatMap, lookup, Emplaced, present, refused, added}
use utxo_z.Capacity.{max_size_without_rehash}
use utxo_z.Dir.{Dir, data_file, building_file, Content, segment, raw, write, file_at}
use utxo_z.Io.{World, pure, fail}
use utxo_z.Io.Rules.{
  Ensures, on_done, on_failed, Ensures-and_then, Ensures-ignore, Ensures-on_failure,
  Ensures-barrier, Ensures-if, Ensures-mono,
}
use utxo_z.Instance.{State, on_dir, remove_file}
use utxo_z.Instance.Rules.{
  Ensures-remove_file, Ensures-store_mapped, Ensures-checkpoint, Ensures-create_file,
  Ensures-open_map,
}
use utxo_z.Merge.{
  Policy, data_path, building_path, placed, copy_entry, copy_entries, copy_sources, build,
}
use utxo_z.Merge.View.{
  files, view, map_of, Merged, Merged-congr, contains_middle, contains-append_nil, files-write_self,
  files-file_at,
}
use utxo_z.Merge.States.{Same, Same-unlink, Same-write}

module _ {K V : Type 0} ⦃key : Key K⦄ (F : FlatMap K V) (p : Policy K V) (d₀ : Dir F.Map) where
  abbrev pub Untouched : State K F.Map → Type 0
  Untouched s = Same p.index d₀ s.dir

  -- The building file holds the map, with the marker.
  abbrev pub Built : ℕ → Marker → F.Map → State K F.Map → Type 0
  Built target id t s =
      Untouched s × (files building_file p.index s.dir target ≡ some (segment (some id) t))

  -- What one entry adds.
  abbrev Adds : F.Map → K → V → F.Map → Type 0
  Adds t k v t' = (j : K) → F.find t' j ≡ (if key.beq k j then some v else F.find t j)

  Built-store :
      (target : ℕ) (id : Marker) (t : F.Map) (s : State K F.Map)
      → Untouched s
      → Built target id t (on_dir (write (building_path F p target) (segment (some id) t)) s)
  Built-store target id t s u = (
    Same-write p.index d₀ building_file target _ s.dir (refl, refl) u,
    rw (
      files-write_self building_file p.index target (segment (some id) t) s.dir target,
      ==_refl target,
    ),
  )

  emplace_new :
      (t : F.Map) (k : K) (v : V) (t' : F.Map) → F.emplace t k v ≡ added t' → F.find t k ≡ none
  emplace_new t k v t' e = elim (Option-cases (F.find t k)) [
    | inl new ↦ new
    | inr (x, old) ↦ absurd (cc (F.emplace_present t k v (λ n. cc (n, old)), e))
  ]

  module _ (target : ℕ) (id : Marker) (limit buckets : ℕ) where
    placed_ensures :
        (k : K) (v : V) (t : F.Map) (x : Emplaced F.Map) (w : World (State K F.Map))
        → F.emplace t k v ≡ x
        → Built target id t w.state
        → Ensures
            (λ t' s. Built target id t' s × (F.find t k ≡ none) × Adds t k v t')
            (λ _. Untouched)
            Untouched
            (placed F p target id buckets x w)
    unfolding placed
    placed_ensures k v t present w e b = on_failed b.0
    placed_ensures k v t refused w e b = on_failed b.0
    placed_ensures k v t (added t') w e b =
        Ensures-and_then {Q = λ _. Built target id t'} _
          (Ensures-store_mapped w (building_path F p target) (segment (some id) t') b.0 b.0
            (Built-store target id t' w.state b.0))
          (λ _ w' b'.
            Ensures-if (F.bucket_count t' == buckets) (pure t') (fail insufficient_space) w'
              (λ _. on_done (b', emplace_new t k v t' e, (F.emplace_added t k v t' e).1))
              (λ _. on_failed b'.0))

    copy_entry_ensures :
        (k : K) (v : V) (t : F.Map) (w : World (State K F.Map))
        → Built target id t w.state
        → Ensures
            (λ t' s. Built target id t' s × (F.find t k ≡ none) × Adds t k v t')
            (λ _. Untouched)
            Untouched
            (copy_entry F p target id limit buckets k v t w)
    unfolding copy_entry
    copy_entry_ensures k v t w b =
        Ensures-if (leb limit (F.size t)) _ _ w (λ _. on_failed b.0)
          (λ _. placed_ensures k v t (F.emplace t k v) w refl b)

    -- The target after a source: what it held and what the entries name, never both.
    abbrev Joined : F.Map → List (K × V) → F.Map → Type 0
    Joined t es t' =
        ((j : K) (v : V) → F.find t' j ≡ some v → (F.find t j ≡ some v) ⊎ (lookup j es ≡ some v))
        × ((j : K) (v : V) → F.find t j ≡ some v → F.find t' j ≡ some v)
        × ((j : K) (v : V) → lookup j es ≡ some v → F.find t' j ≡ some v)

    join :
        (t t' t'' : F.Map) (k : K) (v : V) (es : List (K × V))
        → F.find t k ≡ none
        → Adds t k v t'
        → Joined t' es t''
        → Joined t ((k, v) ∷ es) t''
    unfolding lookup
    join t t' t'' k v es new adds j = (
      (λ i x h. elim (Bool-cases (key.beq k i)) [
        | inl hit ↦
            let at : F.find t' i ≡ some v = adds i ∙ rw hit in inr (rw hit (sym (j.1 i v at) ∙ h))
        | inr miss ↦
            let at : F.find t' i ≡ F.find t i = adds i ∙ rw miss in
            rw miss (elim (j.0 i x h) [ inl a ↦ inl (sym at ∙ a) | inr b ↦ inr b ])
      ]),
      (λ i x h. elim (Bool-cases (key.beq k i)) [
        | inl hit ↦
            let same : k ≡ i = (key.beq_iff k i).0 hit in absurd (cc (ap (F.find t) same, new, h))
        | inr miss ↦ j.1 i x (adds i ∙ rw miss h)
      ]),
      (λ i x h. elim (Bool-cases (key.beq k i)) [
        | inl hit ↦ j.1 i x (adds i ∙ rw hit (rw hit at h))
        | inr miss ↦ j.2 i x (rw miss at h)
      ]),
    )

    copy_entries_ensures :
        (es : List (K × V)) (t : F.Map) (w : World (State K F.Map))
        → Built target id t w.state
        → Ensures
            (λ t' s. Built target id t' s × Joined t es t')
            (λ _. Untouched)
            Untouched
            (copy_entries F p target id limit buckets es t w)
    unfolding copy_entries lookup
    copy_entries_ensures [] t w b = on_done (b, ((λ j v h. inl h), (λ j v h. h), (λ j v h. cc)))
    copy_entries_ensures ((k, v) ∷ es) t w b =
        Ensures-and_then _ (copy_entry_ensures k v t w b) (λ t' w' (b', new, adds).
          Ensures-mono (λ t'' s (b'', j). (b'', join t t' t'' k v es new adds j)) (λ _ s h. h)
            (λ s h. h) (copy_entries_ensures es t' w' b'))

    another_source :
        (s : ℕ) (m : F.Map) (before : List ℕ) (t t' : F.Map)
        → view p.index d₀ s ≡ some m
        → Merged F (view p.index d₀) before t
        → Joined t (F.entries m) t'
        → Merged F (view p.index d₀) (s ∷ before) t'
    unfolding contains
    another_source s m before t t' at old j = record {
      from = λ k v h. elim (j.0 k v h) [
        | inl a ↦ let (n, m', is, here, has) = old.from k v a in (n, m', ground arith, here, has)
        | inr b ↦ (s, m, ground arith, at, F.find-entries m k ∙ b)
      ];
      to = λ n m' k v is here has. elim (Bool-cases (s == n)) [
        | inl hit ↦
            let e : s ≡ n = (==_iff s n).0 hit in
            let same : some m ≡ some m' = sym at ∙ ap (view p.index d₀) e ∙ here in
            j.2 k v (sym (F.find-entries m k) ∙ some_congr k m m' same ∙ has)
        | inr miss ↦ j.1 k v (old.to n m' k v (rw miss at is) here has)
      ];
      there = λ n is. elim (Bool-cases (s == n)) [
        | inl hit ↦
            let e : s ≡ n = (==_iff s n).0 hit in λ gone. cc (at, ap (view p.index d₀) e, gone)
        | inr miss ↦ old.there n (rw miss at is)
      ];
    }
      where
        some_congr : (k : K) (x y : F.Map) → some x ≡ some y → F.find x k ≡ F.find y k
        some_congr k x y e = cc

    -- The sources read so far are in the target, and nothing else is.
    copy_sources_ensures :
        (ss before : List ℕ) (t : F.Map) (w : World (State K F.Map))
        → Built target id t w.state
        → Merged F (view p.index d₀) before t
        → Ensures
            (λ t' s. Built target id t' s × Merged F (view p.index d₀) (ss ++ before) t')
            (λ _. Untouched)
            Untouched
            (copy_sources F p target id limit buckets ss t w)
    unfolding copy_sources
    copy_sources_ensures [] before t w b old = on_done (b, old)
    copy_sources_ensures (s ∷ ss) before t w b old =
        Ensures-and_then {Q = λ m s'. Built target id t s' × (view p.index d₀ s ≡ some m)} _
          (Ensures-open_map w (data_path F p s) b.0 b.0
            (λ m at. (b, (read_back s m w.state b.0 at))))
          (λ m w₁ (b₁, at).
            Ensures-and_then _ (copy_entries_ensures (F.entries m) t w₁ b₁) (λ t' w₂ (b₂, j).
              Ensures-mono
                (λ t'' _ (b₃, all). (
                  b₃,
                  Merged-congr F _ (ss ++ (s ∷ before)) ((s ∷ ss) ++ before) t''
                      (λ n. contains_middle n s ss before) all,
                ))
                (λ _ _ h. h) (λ _ h. h)
                (copy_sources_ensures ss (s ∷ before) t' w₂ b₂
                  (another_source s m before t t' at old j))))
      where
        read_back :
            (v : ℕ) (m : F.Map) (s' : State K F.Map)
            → Untouched s'
            → map_of (file_at (data_path F p v) s'.dir) ≡ some m
            → view p.index d₀ v ≡ some m
        read_back v m s' u at =
            ap (λ (g : ℕ → Option (Content F.Map)). map_of (g v)) (sym u.data_same)
            ∙ ap map_of (files-file_at data_file p.index v s'.dir)
            ∙ at

  nothing-Merged : (n : ℕ) → Merged F (view p.index d₀) [] (F.construct n)
  unfolding contains
  nothing-Merged n = record {
    from = λ k v h. absurd (cc (F.find-construct n k, h));
    to = λ s m k v is. absurd (cc is);
    there = λ s is. absurd (cc is);
  }

  module _ (target : ℕ) (w : World (State K F.Map)) where
    -- Taking away what was being built, whether that succeeds or not.
    pub discard_building :
        Untouched w.state
        → Ensures
            (λ _. Untouched)
            (λ _. Untouched)
            Untouched
            (remove_file (building_path F p target) w)
    discard_building u =
        Ensures-remove_file w (building_path F p target) u u
          (Same-unlink p.index d₀ building_file target w.state.dir (refl, refl) u)

    write_building :
        (x : Content F.Map)
        → Untouched w.state
        → Untouched (on_dir (write (building_path F p target) x) w.state)
    write_building x u = Same-write p.index d₀ building_file target x w.state.dir (refl, refl) u

  pub build_ensures :
      (target : ℕ) (id : Marker) (sources : List ℕ) (w : World (State K F.Map))
      → Untouched w.state
      → Ensures
          (λ t s. Built target id t s × Merged F (view p.index d₀) sources t)
          (λ _. Untouched)
          Untouched
          (build F p target id sources w)
  unfolding build
  build_ensures target id sources w u =
      Ensures-and_then {Q = λ _. Untouched} _
        (Ensures-ignore (remove_file (building_path F p target)) w (discard_building target w u))
        (λ _ w₁ u₁.
          Ensures-on_failure {E = λ _. Untouched} {F = λ _. Untouched}
            (remove_file (building_path F p target))
            (Ensures-and_then {Q = λ _. Untouched} _
              (Ensures-create_file w₁ (building_path F p target) (raw []) u₁ u₁
                (write_building target w₁ (raw []) u₁))
              (λ _ w₂ u₂.
                Ensures-and_then {Q = λ _. Untouched} _
                  (Ensures-checkpoint w₂ file_open_failed u₂ u₂ u₂)
                  (λ _ w₃ u₃.
                    Ensures-and_then {Q = λ _. Untouched} _
                      (Ensures-store_mapped w₃ (building_path F p target) (segment none empty) u₃ u₃
                        (write_building target w₃ (segment none empty) u₃))
                      (λ _ w₄ u₄.
                        Ensures-and_then {Q = λ _. Built target id empty} _
                          (Ensures-store_mapped w₄ (building_path F p target)
                            (segment (some id) empty) u₄ u₄
                            (Built-store target id empty w₄.state u₄))
                          (λ _ w₅ b₅.
                            Ensures-and_then _
                              (copy_sources_ensures target id
                                (max_size_without_rehash (F.bucket_count empty))
                                (F.bucket_count empty) sources [] empty w₅ b₅
                                (nothing-Merged p.min_buckets))
                              (λ t w₆ (b₆, all).
                                Ensures-and_then {Q = λ _. Built target id t} _
                                  (Ensures-barrier w₆ b₆.0 b₆.0 b₆)
                                  (λ _ w₇ b₇. on_done (
                                    b₇,
                                    Merged-congr F _ (sources ++ []) sources t
                                        (λ n. contains-append_nil n sources) all,
                                  ))))))))
            (λ e w₂ u₂. discard_building target w₂ u₂))
    where
      empty : F.Map
      empty = F.construct p.min_buckets
