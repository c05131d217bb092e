-- ===== src/Catalog.antt =====
-- src/detail/version_catalog.hpp, `class version_catalog`: the version files a container has and
-- the metadata describing them. Versions are numbers; they do not reach 2^64.
pub mod Order
pub mod Issued
use utxo_z.Common.{
  ℕ, suc, ◌+◌, Bool, true, false, ◌&&◌, ◌||◌, List, [], ◌∷◌, Option, none, some, ltb, ◌==◌, max,
  if◌then◌else◌,
}
use mathlib.Core.List.{reverse}

pub record Catalog (D : Type 0) : Type 0 where
  pub versions : List ℕ
  pub metadata : List (ℕ × D)
  pub highest_issued : ℕ

-- `lower_bound` and the insertion there, unless the version stands there already.
unfoldable pub insert_version : ℕ → List ℕ → List ℕ
insert_version v [] = v ∷ []
insert_version v (w ∷ ws) =
    if ltb w v then w ∷ insert_version v ws else if w == v then w ∷ ws else v ∷ w ∷ ws

-- `lower_bound` and the erasure there, if the version stands there.
unfoldable pub erase_version : ℕ → List ℕ → List ℕ
erase_version v [] = []
erase_version v (w ∷ ws) = if ltb w v then w ∷ erase_version v ws else if w == v then ws else w ∷ ws

unfoldable pub has_version : ℕ → List ℕ → Bool
has_version v [] = false
has_version v (w ∷ ws) = w == v || has_version v ws

-- The versions before the first that is not below `v`.
unfoldable pub prefix_below : ℕ → List ℕ → List ℕ
prefix_below v [] = []
prefix_below v (w ∷ ws) = if ltb w v then w ∷ prefix_below v ws else []

unfoldable pub back_or : ℕ → List ℕ → ℕ
back_or d [] = d
back_or d (w ∷ ws) = back_or w ws

abbrev pub is_nil : List ℕ → Bool
is_nil [] = true
is_nil (v ∷ vs) = false

module _ {D : Type 0} where
  unfoldable pub metadata_of : ℕ → List (ℕ × D) → Option D
  metadata_of v [] = none
  metadata_of v ((w, m) ∷ ms) = if w == v then some m else metadata_of v ms

  unfoldable pub drop_metadata : ℕ → List (ℕ × D) → List (ℕ × D)
  drop_metadata v [] = []
  drop_metadata v ((w, m) ∷ ms) = if w == v then drop_metadata v ms else (w, m) ∷ drop_metadata v ms

  abbrev pub no_versions : Catalog D
  no_versions = record { versions = []; metadata = []; highest_issued = 0 }

  unfoldable pub active : Catalog D → ℕ
  unfolding back_or
  active c = back_or 0 c.versions

  -- The code searches by bisection, which answers the same on an ascending list.
  unfoldable pub contains : Catalog D → ℕ → Bool
  contains c v = has_version v c.versions

  unfoldable pub add : Catalog D → ℕ → Catalog D
  add c v = record c {
    versions = insert_version v c.versions;
    highest_issued = max c.highest_issued v;
  }

  unfoldable pub next_version : Catalog D → ℕ
  next_version c = if is_nil c.versions && c.highest_issued == 0 then 0 else c.highest_issued + 1

  unfoldable pub remove : Catalog D → ℕ → Catalog D
  remove c v = record c {
    versions = erase_version v c.versions;
    metadata = drop_metadata v c.metadata;
  }

  unfoldable pub below : Catalog D → ℕ → List ℕ
  below c v = reverse (prefix_below v c.versions)

  unfoldable pub find_metadata : Catalog D → ℕ → Option D
  find_metadata c v = metadata_of v c.metadata

  unfoldable pub set_metadata : Catalog D → ℕ → D → Catalog D
  set_metadata c v m = record c { metadata = (v, m) ∷ drop_metadata v c.metadata }

  unfoldable pub clear : Catalog D → Catalog D
  clear c = no_versions

  unfoldable pub erase_metadata : Catalog D → ℕ → Catalog D
  erase_metadata c v = record c { metadata = drop_metadata v c.metadata }

  unfoldable pub clear_metadata : Catalog D → Catalog D
  clear_metadata c = record c { metadata = [] }
