-- ===== src/Recovery/Overlong.antt =====
-- A merge record that names more sources than a record may have: `write_merge_sidecar` against
-- `read_merge_sidecar` of src/detail/merge_sidecar.hpp.
use utxo_z.Common.{◌<◌, ◌≡◌, true, List, [], Option, some, ltb, length, arith}
use utxo_z.Sidecar.{Marker, Plan, max_sources, encoded_size_for, encode_merge_plan}
use utxo_z.Sidecar.RoundTrip.{length-encoded}
use utxo_z.Errors.{recovery_failed}
use utxo_z.FlatMap.{Key, FlatMap}
use utxo_z.Dir.{Dir, Name, Content, raw, same_name, file_at, unlink, write, file_at-write}
use utxo_z.Io.{done, failed, and_then, judge, barrier_judge, unwound, attempted, succeeds}
use utxo_z.Instance.{State, replace_file, move}
use utxo_z.Merge.{Policy, write_merge_sidecar, sidecar_path, temp_path}
use utxo_z.Recovery.{reading_of, untrusted, recover_record, recover_read}

overlong_untrusted :
    (Map : Type 0) (plan : Plan)
    → 64 < length plan.sources
    → reading_of {Map = Map} (some (raw (encode_merge_plan plan))) ≡ untrusted
unfolding reading_of
overlong_untrusted Map plan many =
    let over : ltb (encoded_size_for max_sources) (length (encode_merge_plan plan)) ≡ true =
      ground (arith, length-encoded plan, many) in
    rw over

same_name_refl : (n : Name) → same_name n n ≡ true
unfolding same_name
same_name_refl n = ground arith

module _ {Map : Type 0} where
  written_there : (n : Name) (x : Content Map) (d : Dir Map) → file_at n (write n x d) ≡ some x
  written_there n x d = rw (file_at-write, same_name_refl n)

module _ {K V : Type 0} ⦃key : Key K⦄ (F : FlatMap K V) (p : Policy K V) where
  -- The directory a record leaves: written under its temporary name, and renamed.
  abbrev recorded : Plan → Dir F.Map → Dir F.Map
  recorded plan d =
      let temp = temp_path F p plan.target in
      write (sidecar_path F p plan.target) (raw (encode_merge_plan plan))
        (unlink temp (write temp (raw (encode_merge_plan plan)) (write temp (raw []) d)))

  write_merge_sidecar-done :
      (plan : Plan) (s : State K F.Map) (entropy : List (Option Marker))
      → write_merge_sidecar F p plan (record { state = s; verdicts = []; entropy = entropy })
        ≡ done true (record {
          state = record s { dir = recorded plan s.dir };
          verdicts = [];
          entropy = entropy;
        })
  unfolding write_merge_sidecar and_then judge barrier_judge unwound attempted succeeds replace_file
      move
  write_merge_sidecar-done plan s entropy =
      let temp = temp_path F p plan.target in
      rw (written_there temp (raw (encode_merge_plan plan)) (write temp (raw []) s.dir))

  -- Where no call fails, a merge record of more than sixty-four sources is written and is durable
  -- under its name, as it was encoded, and recovery of that record then fails.
  pub write_merge_sidecar-overlong :
      (plan : Plan) (s : State K F.Map) (entropy : List (Option Marker))
      → 64 < length plan.sources
      → (t : State K F.Map) × (write_merge_sidecar F p plan
            (record { state = s; verdicts = []; entropy = entropy })
          ≡ done true (record { state = t; verdicts = []; entropy = entropy }))
        × (file_at (sidecar_path F p plan.target) t.dir ≡ some (raw (encode_merge_plan plan)))
        × (recover_record p.index plan.target
              (record { state = t; verdicts = []; entropy = entropy })
            ≡ failed recovery_failed (record { state = t; verdicts = []; entropy = entropy }))
  unfolding recover_record recover_read judge and_then
  write_merge_sidecar-overlong plan s entropy many =
      let t : State K F.Map = record s { dir = recorded plan s.dir } in
      let there : file_at (sidecar_path F p plan.target) t.dir
          ≡ some (raw (encode_merge_plan plan)) =
        written_there (sidecar_path F p plan.target) (raw (encode_merge_plan plan)) _ in
      (
        t,
        write_merge_sidecar-done plan s entropy,
        there,
        rw (there, overlong_untrusted F.Map plan many),
      )
