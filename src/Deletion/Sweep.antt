-- ===== src/Deletion/Sweep.antt =====
-- What the phases of a batch do to the maps, and which files they leave without a pending key.
use utxo_z.Common.{
  ℕ, ◌≡◌, refl, sym, ◌∙◌, ap, Bool, true, false, ◌&&◌, List, [], ◌∷◌, ◌++◌, Option, none, some,
  if◌then◌else◌, All, length, sub64,
}
use mathlib.Core.Path.{subst}
use mathlib.Core.List.{Perm, append_assoc, append-nil}
use mathlib.Core.List.Perm
use utxo_z.Errors.{ErrorCode}
use utxo_z.Sidecar.{contains}
use utxo_z.FlatMap.{Key, FlatMap}
use utxo_z.Deletion.{Request, Store, Sweeping}
use utxo_z.Deletion.Batch.{count_off}
use utxo_z.Deletion.Erases.{Erases, stop, Erases-append, Erases-shrinks, All-map}
use utxo_z.Deletion.Walk.{Place, open_version, behind, places}

pub and-left : (a b : Bool) → (a && b) ≡ true → a ≡ true
and-left true b h = refl
and-left false b h = cc h

pub and-right : (a b : Bool) → (a && b) ≡ true → b ≡ true
and-right true b h = h
and-right false b h = cc h

count_off-append :
    {A : Type 0} (xs ys : List A) (n : ℕ)
    → count_off (length ys) (count_off (length xs) n) ≡ count_off (length (xs ++ ys)) n
unfolding count_off
count_off-append [] ys n = refl
count_off-append (x ∷ xs) ys n = count_off-append xs ys (sub64 n 1)

module _ {K V : Type 0} ⦃key : Key K⦄ (F : FlatMap K V) (cs : List ℕ) where
  -- The maps of the open versions of the given classes, and those of the files.
  abbrev pub maps : Store K F.Map → Place → Option F.Map
  maps s (open_version c) = if contains cs c then some (s.active c) else none
  maps s (behind c v) = s.file c v

  -- No key that is still wanted is in the map at a place.
  abbrev pub Clear : Place → Sweeping K F.Map → Type 0
  Clear p w = (m : F.Map) → maps w.store p ≡ some m → All (λ r. F.find m r.key ≡ none) w.pending

  pub record Moved (w x : Sweeping K F.Map) : Type 1 where
    pub gone : List (Request K)
    pub erased : x.erased ≡ w.erased ++ gone
    pub erases : Erases F places (maps w.store) gone (maps x.store)
    pub perm : Perm (gone ++ x.pending) w.pending
    pub keeps : (P : Request K → Type 0) → All P w.pending → All P x.pending
    pub complete : x.complete ≡ true → w.complete ≡ true
    pub counted : x.store.entries_count ≡ count_off (length gone) w.store.entries_count
    pub versions : (c : ℕ) → (x.store.catalog c).versions ≡ (w.store.catalog c).versions
    pub current : x.store.current ≡ w.store.current

  pub Moved-refl : (w : Sweeping K F.Map) → Moved w w
  unfolding count_off
  Moved-refl w = record {
    gone = [];
    erased = sym (append-nil w.erased);
    erases = stop refl;
    perm = Perm.refl w.pending;
    keeps = λ P a. a;
    complete = λ h. h;
    counted = refl;
    versions = λ c. refl;
    current = refl;
  }

  pub Moved-trans : (w x y : Sweeping K F.Map) → Moved w x → Moved x y → Moved w y
  Moved-trans w x y a b = record {
    gone = a.gone ++ b.gone;
    erased = b.erased ∙ ap (λ z. z ++ b.gone) a.erased ∙ append_assoc w.erased a.gone b.gone;
    erases =
        Erases-append F places (maps w.store) (maps x.store) (maps y.store) a.gone b.gone a.erases
          b.erases;
    perm =
        subst (λ z. Perm z w.pending) (sym (append_assoc a.gone b.gone y.pending))
          (Perm.trans (Perm.append_left a.gone b.perm) a.perm);
    keeps = λ P h. b.keeps P (a.keeps P h);
    complete = λ h. a.complete (b.complete h);
    counted =
        b.counted
        ∙ ap (count_off (length b.gone)) a.counted
        ∙ count_off-append a.gone b.gone w.store.entries_count;
    versions = λ c. b.versions c ∙ a.versions c;
    current = b.current ∙ a.current;
  }

  -- A place that is clear stays clear.
  pub Moved-Clear : (p : Place) (w x : Sweeping K F.Map) → Moved w x → Clear p w → Clear p x
  Moved-Clear p w x a c m at =
      let (m₀, e, s) =
        Erases-shrinks F places (maps w.store) a.gone (maps x.store) p m a.erases at in
      a.keeps (λ r. F.find m r.key ≡ none) (All-map w.pending (λ r z. s r.key z) (c m₀ e))

  -- A failure moves nothing.
  pub failed-Moved :
      (w : Sweeping K F.Map) (e : ErrorCode) → Moved w (record w { complete = false; failure = e })
  unfolding count_off
  failed-Moved w e = record {
    gone = [];
    erased = sym (append-nil w.erased);
    erases = stop refl;
    perm = Perm.refl w.pending;
    keeps = λ P a. a;
    complete = λ h. cc h;
    counted = refl;
    versions = λ c. refl;
    current = refl;
  }
