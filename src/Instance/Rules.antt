-- ===== src/Instance/Rules.antt =====
-- What each file operation ensures, from what holds before it and after its effect.
use utxo_z.Common.{◌≡◌, refl, Bool, Option, none, some, List}
use utxo_z.Sidecar.{Marker}
use utxo_z.Errors.{
  ErrorCode, removal_failed, catalog_unreadable, file_open_failed, identity_collision,
  rename_failed, recovery_failed,
}
use utxo_z.Dir.{Name, Content, segment, raw, exists_in, file_at, unlink, write}
use utxo_z.Io.{World, Verdict, and_then, syscall, modify, pure}
use utxo_z.Io.Rules.{Ensures, on_done, on_failed, Ensures-syscall, Ensures-and_then, Ensures-ignore}
use utxo_z.Instance.{
  State, on_dir, path_exists, remove_file, create_unless, create_file, store_mapped, move,
  replace_file, link, publish_new_file, marker_in, read_target_marker, map_in, open_map, checkpoint,
}
use utxo_z.Merge.View.{map_of}

module _ {K Map : Type 0} {E : ErrorCode → State K Map → Type 0} {I : State K Map → Type 0}
    (w : World (State K Map)) where
  module _ {Q : Unit {0} → State K Map → Type 0} where
    pub Ensures-modify :
        (f : State K Map → State K Map) (e : ErrorCode)
        → E e w.state
        → I w.state
        → Q tt (f w.state)
        → Ensures Q E I (syscall e (modify f) w)
    Ensures-modify f e he hi h = Ensures-syscall e (modify f) w he hi (λ us. on_done h)

    pub Ensures-remove_file :
        (n : Name)
        → E removal_failed w.state
        → I w.state
        → Q tt (on_dir (unlink n) w.state)
        → Ensures Q E I (remove_file n w)
    unfolding remove_file
    Ensures-remove_file n he hi h = Ensures-modify (on_dir (unlink n)) removal_failed he hi h

    pub Ensures-store_mapped :
        (n : Name) (c : Content Map)
        → E file_open_failed w.state
        → I w.state
        → Q tt (on_dir (write n c) w.state)
        → Ensures Q E I (store_mapped n c w)
    unfolding store_mapped
    Ensures-store_mapped n c he hi h = Ensures-modify (on_dir (write n c)) file_open_failed he hi h

    pub Ensures-checkpoint :
        (e : ErrorCode) → E e w.state → I w.state → Q tt w.state → Ensures Q E I (checkpoint e w)
    unfolding checkpoint
    Ensures-checkpoint e he hi h = Ensures-syscall e (pure tt) w he hi (λ us. on_done h)

    pub Ensures-create_file :
        (n : Name) (c : Content Map)
        → E file_open_failed w.state
        → I w.state
        → Q tt (on_dir (write n c) w.state)
        → Ensures Q E I (create_file n c w)
    unfolding create_file and_then file_at
    Ensures-create_file n c he hi h =
        Ensures-syscall file_open_failed _ w he hi (λ us. go us (file_at n w.state.dir))
      where
        go :
            (us : List Verdict) (x : Option (Content Map))
            → Ensures Q E I (create_unless x n c (record w { verdicts = us }))
        go us none = on_done h
        go us (some x) = on_failed he

    pub Ensures-replace_file :
        (from to : Name)
        → E rename_failed w.state
        → I w.state
        → ((c : Content Map)
            → file_at from w.state.dir ≡ some c
            → Q tt (on_dir (λ d. write to c (unlink from d)) w.state))
        → Ensures Q E I (replace_file from to w)
    unfolding replace_file and_then
    Ensures-replace_file from to he hi h =
        Ensures-syscall rename_failed _ w he hi (λ us. go us (file_at from w.state.dir) h)
      where
        go :
            (us : List Verdict) (x : Option (Content Map))
            → ((c : Content Map)
                → x ≡ some c
                → Q tt (on_dir (λ d. write to c (unlink from d)) w.state))
            → Ensures Q E I (move x from to (record w { verdicts = us }))
        go us none k = on_failed he
        go us (some c) k = on_done (k c refl)

    -- Between the link and the unlink both names stand for the file.
    pub Ensures-publish_new_file :
        (from to : Name)
        → E rename_failed w.state
        → E identity_collision w.state
        → I w.state
        → ((c : Content Map)
            → file_at from w.state.dir ≡ some c
            → file_at to w.state.dir ≡ none
            → I (on_dir (write to c) w.state)
              × Q tt (on_dir (write to c) w.state)
              × Q tt (on_dir (unlink from) (on_dir (write to c) w.state)))
        → Ensures Q E I (publish_new_file from to w)
    unfolding publish_new_file and_then
    Ensures-publish_new_file from to he hc hi h =
        Ensures-and_then {Q = λ _. Ready} _
          (Ensures-syscall rename_failed _ w he hi
            (λ us. go us (file_at to w.state.dir) (file_at from w.state.dir) h))
          (λ _ w' r.
            Ensures-ignore {P = Q tt} (syscall removal_failed (modify (on_dir (unlink from)))) w' (
              Ensures-syscall removal_failed (modify (on_dir (unlink from))) w' (r.1) (r.0)
                (λ us. on_done r.2)))
      where
        Ready : State K Map → Type 0
        Ready s = I s × Q tt s × Q tt (on_dir (unlink from) s)

        go :
            (us : List Verdict) (x y : Option (Content Map))
            → ((c : Content Map) → y ≡ some c → x ≡ none → Ready (on_dir (write to c) w.state))
            → Ensures (λ _. Ready) E I (link x y to (record w { verdicts = us }))
        go us (some taken) y k = on_failed hc
        go us none none k = on_failed he
        go us none (some c) k = on_done (k c refl refl)

  pub Ensures-path_exists :
      {Q : Bool → State K Map → Type 0} (n : Name)
      → E catalog_unreadable w.state
      → I w.state
      → Q (exists_in (file_at n w.state.dir)) w.state
      → Ensures Q E I (path_exists n w)
  unfolding path_exists and_then
  Ensures-path_exists n he hi h = Ensures-syscall catalog_unreadable _ w he hi (λ us. on_done h)

  pub Ensures-open_map :
      {Q : Map → State K Map → Type 0} (n : Name)
      → E file_open_failed w.state
      → I w.state
      → ((m : Map) → map_of (file_at n w.state.dir) ≡ some m → Q m w.state)
      → Ensures Q E I (open_map n w)
  unfolding open_map and_then
  Ensures-open_map {Q} n he hi h =
      Ensures-syscall file_open_failed _ w he hi (λ us. go us (file_at n w.state.dir) h)
    where
      go :
          (us : List Verdict) (x : Option (Content Map))
          → ((m : Map) → map_of x ≡ some m → Q m w.state)
          → Ensures Q E I (map_in x (record w { verdicts = us }))
      go us none k = on_failed he
      go us (some (raw bytes)) k = on_failed he
      go us (some (segment id m)) k = on_done (k m refl)

  pub Ensures-read_target_marker :
      {Q : Marker → State K Map → Type 0} (n : Name)
      → E recovery_failed w.state
      → I w.state
      → ((id : Marker) (m : Map)
          → file_at n w.state.dir ≡ some (segment (some id) m)
          → Q id w.state)
      → Ensures Q E I (read_target_marker n w)
  unfolding read_target_marker and_then
  Ensures-read_target_marker {Q} n he hi h =
      Ensures-syscall recovery_failed _ w he hi (λ us. go us (file_at n w.state.dir) h)
    where
      go :
          (us : List Verdict) (x : Option (Content Map))
          → ((id : Marker) (m : Map) → x ≡ some (segment (some id) m) → Q id w.state)
          → Ensures Q E I (marker_in x (record w { verdicts = us }))
      go us none k = on_failed he
      go us (some (raw bytes)) k = on_failed he
      go us (some (segment none m)) k = on_failed he
      go us (some (segment (some id) m)) k = on_done (k id m refl)
