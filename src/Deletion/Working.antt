-- ===== src/Deletion/Working.antt =====
-- The working set of a batch, and the order of the cached files.
use utxo_z.Common.{
  ◌≡◌, ◌≢◌, refl, sym, ◌∙◌, ap, Bool, true, false, ◌||◌, List, [], ◌∷◌, if◌then◌else◌, Bool-cases,
  inl, inr, All,
}
use mathlib.Core.Path.{subst}
use utxo_z.FlatMap.{Key}
use utxo_z.Deletion.{Request, FileId, file_in, same_file}
use mathlib.Core.Logic.Or
use utxo_z.Deletion.{before}
use mathlib.Core.List.{
  not-mem-nil, eq-or-mem_of_mem-cons, Pairwise, Mem, mem-cons_self, mem-cons_of_mem,
}
use mathlib.Core.HLevel.{¬_prop}
use utxo_z.Deletion.{working_set_of, first_seen, key_in, sort_files, insert_file}

or_swap : (a b c : Bool) → (a || (b || c)) ≡ (b || (a || c))
or_swap true true c = refl
or_swap true false c = refl
or_swap false true c = refl
or_swap false false c = refl

or_true : (a b : Bool) → a ≡ true → (a || b) ≡ true
or_true true b h = refl
or_true false b h = cc h

pub or_true_right : (a b : Bool) → b ≡ true → (a || b) ≡ true
or_true_right true b h = refl
or_true_right false b h = h

insert_file-file_in :
    (a : FileId) (bs : List FileId) (x : FileId)
    → file_in (insert_file a bs) x ≡ (same_file a x || file_in bs x)
unfolding insert_file file_in
insert_file-file_in a [] x = refl
insert_file-file_in a (b ∷ bs) x = placed (before b a) (insert_file-file_in a bs x)
  where
    placed :
        (t : Bool)
        → file_in (insert_file a bs) x ≡ (same_file a x || file_in bs x)
        → file_in (if t then b ∷ insert_file a bs else a ∷ b ∷ bs) x
          ≡ (same_file a x || file_in (b ∷ bs) x)
    placed true ih =
        ap (λ y. same_file b x || y) ih ∙ or_swap (same_file b x) (same_file a x) (file_in bs x)
    placed false ih = refl

pub All-Mem :
    {A : Type 0} {P : A → Type 0}
    → ((a : A) → IsProp (P a))
    → (xs : List A) → All P xs
    → (a : A) → Mem a xs
    → P a
All-Mem p [] h a m = absurd (not-mem-nil m)
All-Mem {P = P} p (x ∷ xs) h a m =
    Or.elim (p a) (eq-or-mem_of_mem-cons m) (λ e. subst P (sym e) h.0) (λ m'. All-Mem p xs h.1 a m')

pub Mem-All : {A : Type 0} {P : A → Type 0} (xs : List A) → ((a : A) → Mem a xs → P a) → All P xs
Mem-All [] h = tt
Mem-All (x ∷ xs) h = (h x mem-cons_self, Mem-All xs (λ a m. h a (mem-cons_of_mem x m)))

pub sort_files-file_in :
    (as_ : List FileId) (x : FileId) → file_in (sort_files as_) x ≡ file_in as_ x
unfolding sort_files file_in
sort_files-file_in [] x = refl
sort_files-file_in (a ∷ as_) x =
    insert_file-file_in a (sort_files as_) x
    ∙ ap (λ y. same_file a x || y) (sort_files-file_in as_ x)

pub insert_file-All :
    (P : FileId → Type 0) (a : FileId) (bs : List FileId)
    → P a
    → All P bs
    → All P (insert_file a bs)
unfolding insert_file
insert_file-All P a [] h all = (h, tt)
insert_file-All P a (b ∷ bs) h all = elim (Bool-cases (before b a)) [
  | inl further ↦ rw further (all.0, insert_file-All P a bs h all.1)
  | inr here ↦ rw here (h, all)
]

pub sort_files-All : (P : FileId → Type 0) (as_ : List FileId) → All P as_ → All P (sort_files as_)
unfolding sort_files
sort_files-All P [] all = tt
sort_files-All P (a ∷ as_) all =
    insert_file-All P a (sort_files as_) all.0 (sort_files-All P as_ all.1)

module _ {K : Type 0} ⦃key : Key K⦄ where
  abbrev pub OtherKeys : Request K → Request K → Type 0
  OtherKeys a b = a.key ≢ b.key

  -- A key seen before is not among those that are kept.
  first_seen-All :
      (seen : List K) (rs : List (Request K)) (k : K)
      → key_in seen k ≡ true
      → All (λ q. k ≢ q.key) (first_seen seen rs)
  unfolding first_seen key_in
  first_seen-All seen [] k h = tt
  first_seen-All seen (q ∷ rs) k h = elim (Bool-cases (key_in seen q.key)) [
    | inl hit ↦ rw hit (first_seen-All seen rs k h)
    | inr miss ↦ rw miss (
      (λ e.
          let seen_q : key_in seen q.key ≡ true = ap (key_in seen) (sym e) ∙ h in
          cc (seen_q, miss)),
      first_seen-All (q.key ∷ seen) rs k (or_true_right (key.beq q.key k) (key_in seen k) h),
    )
  ]

  first_seen-Pairwise :
      (seen : List K) (rs : List (Request K)) → Pairwise OtherKeys (first_seen seen rs)
  unfolding first_seen key_in
  first_seen-Pairwise seen [] = Pairwise.nil
  first_seen-Pairwise seen (r ∷ rs) = elim (Bool-cases (key_in seen r.key)) [
    | inl hit ↦ rw hit (first_seen-Pairwise seen rs)
    | inr miss ↦ rw miss (
        Pairwise.cons
          (All-Mem (λ q. ¬_prop) (first_seen (r.key ∷ seen) rs)
            (first_seen-All (r.key ∷ seen) rs r.key (
              or_true (key.beq r.key r.key) (key_in seen r.key)
                ((key.beq_iff r.key r.key).1 refl))))
          (first_seen-Pairwise (r.key ∷ seen) rs))
  ]

  pub working_set_of-Pairwise : (rs : List (Request K)) → Pairwise OtherKeys (working_set_of rs)
  unfolding working_set_of
  working_set_of-Pairwise rs = first_seen-Pairwise [] rs
