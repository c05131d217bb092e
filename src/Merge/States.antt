-- ===== src/Merge/States.antt =====
-- The states of a directory during a merge, seen from recovery.
use utxo_z.Common.{ℕ, ◌≡◌, refl, ◌∙◌, false, Option, none, some, if◌then◌else◌, ◌==◌}
use utxo_z.Sidecar.{Plan, contains, encode_merge_plan}
use utxo_z.Sidecar.Coherent.{IsCoherent, Fits}
use utxo_z.FlatMap.{Key, FlatMap}
use utxo_z.Dir.{
  Dir, Kind, affix, data_file, sidecar_file, Content, segment, raw, name, unlink, write,
}
use utxo_z.Merge.View.{files, view, aside, ContentOf, files-unlink, files-write}

-- The version files and the merge records are those of another directory.
pub record Same {Map : Type 0} (c : ℕ) (d₀ d : Dir Map) : Type 0 where
  pub data_same : files data_file c d ≡ files data_file c d₀
  pub side_same : files sidecar_file c d ≡ files sidecar_file c d₀

-- Neither a version file nor a merge record.
abbrev pub IsPrivate : Kind → Type 0
IsPrivate k = ((affix k == affix data_file) ≡ false) × ((affix k == affix sidecar_file) ≡ false)

module _ {Map : Type 0} (c : ℕ) (d₀ : Dir Map) where
  pub Same-refl : Same c d₀ d₀
  Same-refl = record { data_same = refl; side_same = refl }

  pub Same-unlink :
      (k : Kind) (v : ℕ) (d : Dir Map)
      → IsPrivate k
      → Same c d₀ d
      → Same c d₀ (unlink (name k c v) d)
  Same-unlink k v d h s = record {
    data_same = files-unlink data_file k c v d h.0 ∙ s.data_same;
    side_same = files-unlink sidecar_file k c v d h.1 ∙ s.side_same;
  }

  pub Same-write :
      (k : Kind) (v : ℕ) (x : Content Map) (d : Dir Map)
      → IsPrivate k
      → Same c d₀ d
      → Same c d₀ (write (name k c v) x d)
  Same-write k v x d h s = record {
    data_same = files-write data_file k c v x d h.0 ∙ s.data_same;
    side_same = files-write sidecar_file k c v x d h.1 ∙ s.side_same;
  }

module _ {K V : Type 0} ⦃key : Key K⦄ (F : FlatMap K V) (c : ℕ) (f : K → Option V) where
  -- No merge is recorded, and the version files hold `f`.
  pub record Settled (d : Dir F.Map) : Type 0 where
    pub clear : (n : ℕ) → files sidecar_file c d n ≡ none
    pub content : ContentOf F (view c d) f

  -- The only merge record is that of the plan, which can be read back.
  pub record Recorded (plan : Plan) (d : Dir F.Map) : Type 0 where
    pub here : plan.container ≡ c
    pub only :
        (n : ℕ)
        → files sidecar_file c d n
          ≡ (if plan.target == n then some (raw (encode_merge_plan plan)) else none)
    pub fits : Fits plan
    pub coherent : IsCoherent plan

  -- The record is there and the target is not: the version files are untouched.
  pub record Pending (plan : Plan) (d : Dir F.Map) : Type 0 where
    pub recorded : Recorded plan d
    pub free : files data_file c d plan.target ≡ none
    pub content : ContentOf F (view c d) f

  -- The target is there with the marker: with the sources set aside the files hold `f`.
  pub record Published (plan : Plan) (d : Dir F.Map) : Type 0 where
    pub recorded : Recorded plan d
    pub target : F.Map
    pub built : files data_file c d plan.target ≡ some (segment (some plan.id) target)
    pub outside : contains plan.sources plan.target ≡ false
    pub content : ContentOf F (aside plan.sources (view c d)) f

  pub data Recoverable (d : Dir F.Map) : Type 0 where
    settled : Settled d → Recoverable d
    pending : (plan : Plan) → Pending plan d → Recoverable d
    published : (plan : Plan) → Published plan d → Recoverable d
