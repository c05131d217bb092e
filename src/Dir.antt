-- ===== src/Dir.antt =====
-- The directory of a database: the files of each container under the names of
-- src/database_impl.cpp (`data_path`, `building_path`, `sidecar_path`, `metadata_path`).
pub mod Listing
use utxo_z.Common.{
  ℕ, suc, ◌+◌, ◌≡◌, refl, Bool, true, false, ◌&&◌, List, [], ◌∷◌, Option, none, some, ◌==◌, ltb,
  if◌then◌else◌, arith, Bool-cases, inl, inr,
}
use utxo_z.Sidecar.{Marker}

pub data Kind : Type 0 where
  data_file metadata_file building_file sidecar_file sidecar_temp : Kind

-- The part of a file's name that tells its kind.
abbrev pub affix : Kind → ℕ
affix data_file = 0
affix metadata_file = 1
affix building_file = 2
affix sidecar_file = 3
affix sidecar_temp = 4

pub record Name : Type 0 where
  pub kind : Kind
  pub container : ℕ
  pub version : ℕ

abbrev pub name : Kind → ℕ → ℕ → Name
name k c v = record { kind = k; container = c; version = v }

unfoldable pub same_name : Name → Name → Bool
same_name a b =
    affix a.kind == affix b.kind && (a.container == b.container && a.version == b.version)

-- A segment holds a map and perhaps the marker of the merge that built it; anything else is bytes.
pub data Content (Map : Type 0) : Type 0 where
  segment : Option Marker → Map → Content Map
  raw : List ℕ → Content Map

unfoldable pub insert_sorted : ℕ → List ℕ → List ℕ
insert_sorted v [] = v ∷ []
insert_sorted v (w ∷ ws) = if ltb w v then w ∷ insert_sorted v ws else v ∷ w ∷ ws

-- `std::ranges::sort` and `std::ranges::unique`.
unfoldable pub sort : List ℕ → List ℕ
sort [] = []
sort (v ∷ vs) = insert_sorted v (sort vs)

unfoldable pub unique : List ℕ → List ℕ
unique [] = []
unique (v ∷ []) = v ∷ []
unique (v ∷ w ∷ ws) = if v == w then unique (w ∷ ws) else v ∷ unique (w ∷ ws)

abbrev pub Dir : Type 0 → Type 0
Dir Map = List (Name × Content Map)

unfoldable pub exists_in : {Map : Type 0} → Option (Content Map) → Bool
exists_in none = false
exists_in (some c) = true

pub same_name_symm : (a b : Name) → same_name a b ≡ same_name b a
unfolding same_name
same_name_symm a b = ground arith

pub same_name_congr : (a b c : Name) → same_name a b ≡ true → same_name a c ≡ same_name b c
unfolding same_name
same_name_congr a b c h = ground arith

module _ {Map : Type 0} where
  unfoldable pub file_at : Name → Dir Map → Option (Content Map)
  file_at n [] = none
  file_at n ((m, c) ∷ d) = if same_name m n then some c else file_at n d

  -- The versions of the files of a kind in a container, in the order of the directory.
  unfoldable pub collect : Kind → ℕ → Dir Map → List ℕ
  collect k c [] = []
  collect k c ((m, x) ∷ d) =
      if affix m.kind == affix k && m.container == c
      then m.version ∷ collect k c d
      else collect k c d

  unfoldable pub unlink : Name → Dir Map → Dir Map
  unlink n [] = []
  unlink n ((m, c) ∷ d) = if same_name m n then unlink n d else (m, c) ∷ unlink n d

  unfoldable pub write : Name → Content Map → Dir Map → Dir Map
  write n c d = (n, c) ∷ unlink n d

  pub file_at-unlink :
      (d : Dir Map) (n j : Name)
      → file_at j (unlink n d) ≡ (if same_name n j then none else file_at j d)
  unfolding file_at unlink
  file_at-unlink [] n j = ground arith
  file_at-unlink ((m, c) ∷ d) n j = elim (Bool-cases (same_name m n)) [
    | inl e ↦ rw (e, file_at-unlink d n j, same_name_congr m n j e) (ground arith)
    | inr e ↦
        rw (e, file_at-unlink d n j)
          (ground (arith, same_name_congr n j m, same_name_symm j m, same_name_symm m n))
  ]

  pub file_at-write :
      (d : Dir Map) (n j : Name) (c : Content Map)
      → file_at j (write n c d) ≡ (if same_name n j then some c else file_at j d)
  unfolding file_at write
  file_at-write d n j c = ground (arith, file_at-unlink d n j)
