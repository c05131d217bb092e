-- ===== src/Cache/Choice.antt =====
-- The entry of the file cache that is chosen to be closed.
use utxo_z.Common.{
  ℕ, ◌≤◌, ◌≡◌, sym, ap, Bool, true, false, List, [], ◌∷◌, if◌then◌else◌, ltb, All, Bool-cases, inl,
  inr, arith,
}
use mathlib.Core.Path.{subst}
use utxo_z.Deletion.{FileId}
use utxo_z.Cache.{CachedFile, evict_before, min_element}

module _ {M : Type 0} where
  -- When nothing is pinned, no entry was used longer ago than the one to evict.
  pub min_element-least :
      (best : FileId × CachedFile M) (es : List (FileId × CachedFile M))
      → All (λ x. x.1.is_pinned ≡ false) (best ∷ es)
      → All (λ x. (min_element best es).1.last_used ≤ x.1.last_used) (best ∷ es)
  unfolding min_element evict_before
  min_element-least best [] p = (omega arith, tt)
  min_element-least best (e ∷ es) (pb, (pe, ps)) = elim (Bool-cases (evict_before e.1 best.1)) [
    | inl sooner ↦
        let (ih, rest) = min_element-least e es (pe, ps) in
        let less : ltb e.1.last_used best.1.last_used ≡ true = rw (pb, pe) at sooner in
        subst IsLeast (sym (chosen true sooner))
          (below (min_element e es).1.last_used e.1.last_used best.1.last_used ih less, (ih, rest))
    | inr later ↦
        let (ih, rest) = min_element-least best es (pb, ps) in
        let more : ltb e.1.last_used best.1.last_used ≡ false = rw (pb, pe) at later in
        subst IsLeast (sym (chosen false later)) (
          ih,
          (above (min_element best es).1.last_used e.1.last_used best.1.last_used ih more, rest),
        )
  ]
    where
      IsLeast : FileId × CachedFile M → Type 0
      IsLeast m = All (λ x. m.1.last_used ≤ x.1.last_used) (best ∷ e ∷ es)

      chosen :
          (b : Bool)
          → evict_before e.1 best.1 ≡ b
          → min_element best (e ∷ es) ≡ (if b then min_element e es else min_element best es)
      chosen b h = ap (λ c. if c then min_element e es else min_element best es) h

      below : (m e b : ℕ) → m ≤ e → ltb e b ≡ true → m ≤ b
      below m e b h l = ground arith

      above : (m e b : ℕ) → m ≤ b → ltb e b ≡ false → m ≤ e
      above m e b h l = ground arith

  pub min_element-All :
      (P : FileId × CachedFile M → Type 0) (best : FileId × CachedFile M)
      (es : List (FileId × CachedFile M))
      → All P (best ∷ es)
      → P (min_element best es)
  unfolding min_element
  min_element-All P best [] p = p.0
  min_element-All P best (e ∷ es) (pb, (pe, ps)) =
      one (evict_before e.1 best.1) (min_element-All P e es (pe, ps))
        (min_element-All P best es (pb, ps))
    where
      one :
          (b : Bool)
          → P (min_element e es)
          → P (min_element best es)
          → P (if b then min_element e es else min_element best es)
      one true x y = x
      one false x y = y
