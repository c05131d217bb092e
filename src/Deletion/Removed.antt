-- ===== src/Deletion/Removed.antt =====
-- What a batch that ends without an error has removed.
use utxo_z.Common.{
  ◌≡◌, ◌≢◌, refl, sym, ◌∙◌, ap, Bool, true, false, ◌||◌, List, [], ◌∷◌, Option, none, some,
  if◌then◌else◌, Bool-cases, inl, inr, All,
}
use mathlib.Core.Path.{subst, fun_ext}
use utxo_z.FlatMap.{Key, FlatMap}
use utxo_z.Deletion.{Request, FileId, Store, Faults, Mode, classes}
use utxo_z.Deletion.Sweep.{maps}
use mathlib.Core.List.Perm
use mathlib.Core.List.{Mem, mem-cons_self, mem-cons_of_mem}
use mathlib.Core.HLevel.{¬_prop}
use utxo_z.Merge.View.{ContentOf}
use utxo_z.Deletion.{working_set_of, first_seen, key_in, DeletionProgress}
use utxo_z.Deletion.Batch.{apply_deletes}
use utxo_z.Deletion.Erases.{minus, minus_other, All-map}
use utxo_z.Deletion.Working.{All-Mem, Mem-All}
use utxo_z.Deletion.Erases.{minus-some}
use mathlib.Core.List.{not-mem-nil, eq-or-mem_of_mem-cons, Mem-prop}
use utxo_z.Deletion.Outcome.{Filed, Answers, apply_deletes-Answers}
use mathlib.Core.List.{mem-append}
use mathlib.Core.Logic.Or

module _ {K : Type 0} ⦃key : Key K⦄ where
  wanted : List (Request K) → K → Bool
  wanted [] k = false
  wanted (r ∷ rs) k = key.beq r.key k || wanted rs k

  wanted-Mem :
      (rs : List (Request K)) (k : K)
      → wanted rs k ≡ false
      → (r : Request K) → Mem r rs
      → key.beq r.key k ≢ true
  unfolding wanted
  wanted-Mem rs k h = All-Mem (λ r. ¬_prop) rs (each rs h)
    where
      each : (rs : List (Request K)) → wanted rs k ≡ false → All (λ r. key.beq r.key k ≢ true) rs
      each [] h = tt
      each (r ∷ rs) h = elim (Bool-cases (key.beq r.key k)) [
        | inl hit ↦ let no : true ≡ false = rw hit at h in cc no
        | inr miss ↦ ((λ hit. cc (hit, miss)), each rs (rw miss at h))
      ]

  first_seen-Mem :
      (seen : List K) (rs : List (Request K)) (r : Request K)
      → Mem r (first_seen seen rs)
      → Mem r rs
  unfolding first_seen
  first_seen-Mem seen [] r m = m
  first_seen-Mem seen (q ∷ rs) r m = elim (Bool-cases (key_in seen q.key)) [
    | inl hit ↦ mem-cons_of_mem q (first_seen-Mem seen rs r (rw hit at m))
    | inr miss ↦
        Or.elim Mem-prop (eq-or-mem_of_mem-cons (rw miss at m))
          (λ e. subst (λ x. Mem x (q ∷ rs)) (sym e) mem-cons_self)
          (λ m'. mem-cons_of_mem q (first_seen-Mem (q.key ∷ seen) rs r m'))
  ]

  -- Each key that was asked for is asked for once.
  first_seen-wanted :
      (seen : List K) (rs : List (Request K)) (k : K)
      → wanted rs k ≡ true
      → key_in seen k ≡ false
      → (r : Request K) × Mem r (first_seen seen rs) × (r.key ≡ k)
  unfolding first_seen wanted key_in
  first_seen-wanted seen [] k h new = cc h
  first_seen-wanted seen (q ∷ rs) k h new = elim (Bool-cases (key.beq q.key k)) [
    | inl hit ↦
        let same : q.key ≡ k = (key.beq_iff q.key k).0 hit in
        let fresh : key_in seen q.key ≡ false = ap (key_in seen) same ∙ new in
        rw fresh (q, mem-cons_self, same)
    | inr miss ↦ elim (Bool-cases (key_in seen q.key)) [
      | inl old ↦ rw old (first_seen-wanted seen rs k (rw miss at h) new)
      | inr fresh ↦
          let (r, m, e) = first_seen-wanted (q.key ∷ seen) rs k (rw miss at h) (rw (miss, new)) in
          rw fresh (r, mem-cons_of_mem q m, e)
    ]
  ]

module _ {K V : Type 0} ⦃key : Key K⦄ (F : FlatMap K V) where
  minus-Mem :
      (f : K → Option V) (rs : List (Request K)) (r : Request K)
      → Mem r rs
      → (v : V) → minus F f rs r.key ≢ some v
  unfolding minus
  minus-Mem f [] r m v = absurd (not-mem-nil m)
  minus-Mem f (q ∷ rs) r m v =
      Or.elim ¬_prop (eq-or-mem_of_mem-cons m)
        (λ e h.
          let was = minus-some F (λ j. if key.beq q.key j then none else f j) rs r.key v h in
          let hit : key.beq q.key r.key ≡ true =
            (key.beq_iff q.key r.key).1 (ap (λ x. x.key) (sym e)) in
          let no : none ≡ some v = rw hit at was in cc no)
        (λ m'. minus-Mem (λ j. if key.beq q.key j then none else f j) rs r m' v)

  pub never-none : (x : Option V) → ((v : V) → x ≢ some v) → x ≡ none
  never-none none h = refl
  never-none (some v) h = absurd (h v refl)

  no_wanted :
      (rs : List (Request K)) (k : K)
      → ((r : Request K) → Mem r rs → key.beq r.key k ≢ true)
      → All (λ r. key.beq r.key k ≡ false) rs
  no_wanted rs k h = Mem-All rs (λ r m. elim (Bool-cases (key.beq r.key k)) [
    | inl hit ↦ absurd (h r m hit)
    | inr miss ↦ miss
  ])

  module _ (mode : Mode) (s : Store K F.Map) (requests : List (Request K)) (f : K → Option V)
      (p : DeletionProgress K) (t : Store K F.Map) (a : Answers F mode s requests f p t)
      (settled : p.unresolved ≡ []) where
    from_erased : (r : Request K) → Mem r p.erased → Mem r requests
    unfolding working_set_of
    from_erased r m = first_seen-Mem [] requests r (Perm.subset a.perm r (mem-append.1 ∣ inl m ∣₁))

    -- Nothing is left of a key that was asked for.
    gone :
        (r : Request K)
        → Mem r (working_set_of requests)
        → (v : V) → minus F f p.erased r.key ≢ some v
    gone r m v =
        Or.elim ¬_prop (mem-append.0 ((Perm.mem_iff a.perm).1 m))
          (λ here. minus-Mem f p.erased r here v)
          (λ rest.
            Or.elim ¬_prop (mem-append.0 rest)
              (λ away h.
                All-Mem {P = λ q. f q.key ≢ some v} (λ q. ¬_prop) p.absent
                  (All-map p.absent (λ q z here. cc (z, here)) a.missing) r away
                  (minus-some F f p.erased r.key v h))
              (λ owed. absurd (not-mem-nil (subst (λ x. Mem r x) settled owed))))

    same_left : (k : K) → minus F f p.erased k ≡ minus F f requests k
    unfolding working_set_of first_seen key_in
    same_left k = elim (Bool-cases (wanted requests k)) [
      | inr free ↦
          minus_other F f p.erased k
            (no_wanted p.erased k (λ r m. wanted-Mem requests k free r (from_erased r m)))
          ∙ sym (minus_other F f requests k (no_wanted requests k (wanted-Mem requests k free)))
      | inl asked ↦ both (first_seen-wanted [] requests k asked refl)
    ]
      where
        both :
            (r : Request K) × Mem r (first_seen [] requests) × (r.key ≡ k)
            → minus F f p.erased k ≡ minus F f requests k
        both (r, m, e) =
            subst (λ j. minus F f p.erased j ≡ minus F f requests j) e
              (never-none (minus F f p.erased r.key) (gone r m)
                ∙ sym (
                    never-none (minus F f requests r.key)
                      (minus-Mem f requests r (first_seen-Mem [] requests r m))))

    pub all_gone : ContentOf F (maps F (classes mode) t) (minus F f requests)
    all_gone = subst (ContentOf F (maps F (classes mode) t)) (fun_ext same_left) a.content

  -- For a store that holds `f`, with its files filed in the catalogues: a batch that reports no error
  -- leaves `f` without the keys of the requests.
  pub apply_deletes-minus :
      (mode : Mode) (s : Store K F.Map) (faults : Faults) (cached : List FileId)
      (requests : List (Request K)) (f : K → Option V)
      → ContentOf F (maps F (classes mode) s) f
      → Filed F mode s
      → (apply_deletes F mode faults cached requests s).0.error ≡ none
      → ContentOf F
          (maps F (classes mode) (apply_deletes F mode faults cached requests s).1)
          (minus F f requests)
  apply_deletes-minus mode s faults cached requests f holds filed ok =
      let a = apply_deletes-Answers F mode s faults cached requests f holds filed in
      all_gone mode s requests f (apply_deletes F mode faults cached requests s).0
        (apply_deletes F mode faults cached requests s).1 a
        (elim a.owed [ inl done ↦ done.1 | inr bad ↦ absurd (bad.0 ok) ])
