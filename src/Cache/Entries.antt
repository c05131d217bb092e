-- ===== src/Cache/Entries.antt =====
-- The entries of the file cache as a list: what an assignment and an erasure do to it.
use utxo_z.Common.{
  ℕ, suc, ◌+◌, ◌≤◌, ◌≡◌, refl, sym, ◌∙◌, ap, Bool, true, false, ◌&&◌, ◌||◌, not, List, [], ◌∷◌,
  none, some, ◌==◌, length, All, Bool-cases, inl, inr, arith, ==_refl,
}
use mathlib.Core.Path.{subst}
use utxo_z.Deletion.{FileId, same_file, is_some}
use utxo_z.Cache.{CachedFile, find_entry, put_entry, erase_entry}

pub same_file-true : (a b : FileId) → same_file a b ≡ true → a ≡ b
unfolding same_file
same_file-true (c, v) (d, u) h = let (p, q) = both c v d u h in cc (p, q)
  where
    both : (c v d u : ℕ) → (c == d && v == u) ≡ true → (c ≡ d) × (v ≡ u)
    both c v d u h = ground arith

pub same_file_refl : (a : FileId) → same_file a a ≡ true
unfolding same_file
same_file_refl a = rw (==_refl a.0, ==_refl a.1)

module _ {M : Type 0} where
  pub put_entry-All :
      (P : FileId × CachedFile M → Type 0) (a : FileId) (e : CachedFile M)
      (es : List (FileId × CachedFile M))
      → P (a, e)
      → All P es
      → All P (put_entry a e es)
  unfolding put_entry
  put_entry-All P a e [] p all = (p, tt)
  put_entry-All P a e ((b, d) ∷ es) p all = elim (Bool-cases (same_file b a)) [
    | inl hit ↦ rw hit (subst (λ x. P (x, e)) (sym (same_file-true b a hit)) p, all.1)
    | inr miss ↦ rw miss (all.0, put_entry-All P a e es p all.1)
  ]

  pub erase_entry-All :
      (P : FileId × CachedFile M → Type 0) (a : FileId) (es : List (FileId × CachedFile M))
      → All P es
      → All P (erase_entry a es)
  unfolding erase_entry
  erase_entry-All P a [] all = tt
  erase_entry-All P a ((b, d) ∷ es) all = elim (Bool-cases (same_file b a)) [
    | inl hit ↦ rw hit all.1
    | inr miss ↦ rw miss (all.0, erase_entry-All P a es all.1)
  ]

  pub find_entry-All :
      (P : FileId × CachedFile M → Type 0) (a : FileId) (e : CachedFile M)
      (es : List (FileId × CachedFile M))
      → All P es
      → find_entry a es ≡ some e
      → P (a, e)
  unfolding find_entry
  find_entry-All P a e [] all h = cc h
  find_entry-All P a e ((b, d) ∷ es) all h = elim (Bool-cases (same_file b a)) [
    | inl hit ↦
        let this : some d ≡ some e = rw hit at h in
        let here : P (a, d) = subst (λ x. P (x, d)) (same_file-true b a hit) all.0 in
        subst (λ x. elim x [ some y ↦ P (a, y) | none ↦ Unit ]) this here
    | inr miss ↦ find_entry-All P a e es all.1 (rw miss at h)
  ]

  pub put_entry-length-found :
      (a : FileId) (e d : CachedFile M) (es : List (FileId × CachedFile M))
      → find_entry a es ≡ some d
      → length (put_entry a e es) ≡ length es
  unfolding put_entry find_entry
  put_entry-length-found a e d [] h = cc h
  put_entry-length-found a e d ((b, c) ∷ es) h = elim (Bool-cases (same_file b a)) [
    | inl hit ↦ rw hit
    | inr miss ↦ rw (miss, put_entry-length-found a e d es (rw miss at h))
  ]

  pub put_entry-length :
      (a : FileId) (e : CachedFile M) (es : List (FileId × CachedFile M))
      → length (put_entry a e es) ≤ length es + 1
  unfolding put_entry
  put_entry-length a e [] = omega arith
  put_entry-length a e ((b, c) ∷ es) = elim (Bool-cases (same_file b a)) [
    | inl hit ↦ rw hit (omega arith)
    | inr miss ↦ rw miss (omega (arith, put_entry-length a e es))
  ]

  pub erase_entry-length :
      (a : FileId) (es : List (FileId × CachedFile M))
      → is_some (find_entry a es) ≡ true
      → suc (length (erase_entry a es)) ≡ length es
  unfolding erase_entry find_entry is_some
  erase_entry-length a [] h = cc h
  erase_entry-length a ((b, c) ∷ es) h = elim (Bool-cases (same_file b a)) [
    | inl hit ↦ rw hit
    | inr miss ↦ rw (miss, erase_entry-length a es (rw miss at h))
  ]

  -- What is found after an assignment.
  pub find_entry-put :
      (a x : FileId) (e : CachedFile M) (es : List (FileId × CachedFile M))
      → is_some (find_entry x (put_entry a e es)) ≡ (same_file a x || is_some (find_entry x es))
  unfolding find_entry put_entry is_some
  find_entry-put a x e [] = elim (Bool-cases (same_file a x)) [ inl h ↦ rw h | inr h ↦ rw h ]
  find_entry-put a x e ((b, c) ∷ es) = elim (Bool-cases (same_file b a)) [
    | inl hit ↦
        rw (hit, same_file-true b a hit)
          (elim (Bool-cases (same_file a x)) [ inl h ↦ rw h | inr h ↦ rw h ])
    | inr miss ↦ rw miss (elim (Bool-cases (same_file b x)) [
      | inl here ↦ rw here (absorbs (same_file a x))
      | inr there ↦ rw there (find_entry-put a x e es)
    ])
  ]
    where
      absorbs : (t : Bool) → true ≡ (t || true)
      absorbs true = refl
      absorbs false = refl

  -- No file stands twice.
  abbrev pub IsDistinct : List (FileId × CachedFile M) → Type 0
  IsDistinct [] = Unit
  IsDistinct (e ∷ es) = (is_some (find_entry e.0 es) ≡ false) × IsDistinct es

  pub find_entry-erase :
      (a x : FileId) (es : List (FileId × CachedFile M))
      → IsDistinct es
      → is_some (find_entry x (erase_entry a es))
        ≡ (not (same_file a x) && is_some (find_entry x es))
  unfolding find_entry erase_entry is_some
  find_entry-erase a x [] d = elim (Bool-cases (same_file a x)) [ inl h ↦ rw h | inr h ↦ rw h ]
  find_entry-erase a x ((b, c) ∷ es) d = elim (Bool-cases (same_file b a)) [
    | inl hit ↦ rw hit (elim (Bool-cases (same_file a x)) [
      | inl h ↦ rw h (
          subst (λ y. is_some (find_entry y es) ≡ false)
            (same_file-true b a hit ∙ same_file-true a x h) d.0)
      | inr h ↦
          let other : same_file b x ≡ false =
            ap (λ y. same_file y x) (same_file-true b a hit) ∙ h in
          rw (h, other)
    ])
    | inr miss ↦ rw miss (elim (Bool-cases (same_file b x)) [
      | inl here ↦
          let ax : same_file a x ≡ false = elim (Bool-cases (same_file a x)) [
            | inl h ↦
                let again : same_file b a ≡ true = ap (same_file b) (same_file-true a x h) ∙ here in
                cc (again, miss)
            | inr h ↦ h
          ] in
          rw (here, ax)
      | inr there ↦ rw there (find_entry-erase a x es d.1)
    ])
  ]

  pub put_entry-IsDistinct :
      (a : FileId) (e : CachedFile M) (es : List (FileId × CachedFile M))
      → IsDistinct es
      → IsDistinct (put_entry a e es)
  unfolding put_entry find_entry is_some
  put_entry-IsDistinct a e [] d = (refl, tt)
  put_entry-IsDistinct a e ((b, c) ∷ es) d = elim (Bool-cases (same_file b a)) [
    | inl hit ↦ rw hit d
    | inr miss ↦
        let other : same_file a b ≡ false = elim (Bool-cases (same_file a b)) [
          | inl h ↦
              let again : same_file b a ≡ true =
                ap (λ y. same_file y a) (sym (same_file-true a b h)) ∙ same_file_refl a in
              cc (again, miss)
          | inr h ↦ h
        ] in
        rw miss (find_entry-put a b e es ∙ rw (other, d.0), put_entry-IsDistinct a e es d.1)
  ]

  pub erase_entry-IsDistinct :
      (a : FileId) (es : List (FileId × CachedFile M))
      → IsDistinct es
      → IsDistinct (erase_entry a es)
  unfolding erase_entry
  erase_entry-IsDistinct a [] d = tt
  erase_entry-IsDistinct a ((b, c) ∷ es) d = elim (Bool-cases (same_file b a)) [
    | inl hit ↦ rw hit d.1
    | inr miss ↦ rw miss (
      find_entry-erase a b es d.1 ∙ rest (same_file a b) (is_some (find_entry b es)) d.0,
      erase_entry-IsDistinct a es d.1,
    )
  ]
    where
      rest : (s t : Bool) → t ≡ false → (not s && t) ≡ false
      rest true t h = refl
      rest false t h = h

  pub is_found :
      (a : FileId) (es : List (FileId × CachedFile M)) (e : CachedFile M)
      → find_entry a es ≡ some e
      → is_some (find_entry a es) ≡ true
  unfolding is_some
  is_found a es e h = rw h

  All-map :
      {P Q : FileId × CachedFile M → Type 0} (es : List (FileId × CachedFile M))
      → ((x : FileId × CachedFile M) → P x → Q x)
      → All P es
      → All Q es
  All-map [] h a = tt
  All-map (e ∷ es) h a = (h e a.0, All-map es h a.1)

  -- Where no file stands twice, each entry is what is found for its file.
  pub all_found :
      (es : List (FileId × CachedFile M))
      → IsDistinct es
      → All (λ x. find_entry x.0 es ≡ some x.1) es
  unfolding find_entry is_some
  all_found [] d = tt
  all_found (e ∷ es) d =
      (rw (same_file_refl e.0), All-map es (λ x h. further x h) (all_found es d.1))
    where
      further :
          (x : FileId × CachedFile M)
          → find_entry x.0 es ≡ some x.1
          → find_entry x.0 (e ∷ es) ≡ some x.1
      further x h = elim (Bool-cases (same_file e.0 x.0)) [
        | inl same ↦
            let bad : is_some (find_entry x.0 es) ≡ false =
              subst (λ y. is_some (find_entry y es) ≡ false) (same_file-true e.0 x.0 same) d.0 in
            let good = is_found x.0 es x.1 h in cc (bad, good)
        | inr other ↦ rw other h
      ]
