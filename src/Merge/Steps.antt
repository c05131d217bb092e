-- ===== src/Merge/Steps.antt =====
-- How the states of a directory during a merge follow one another.
use utxo_z.Common.{
  ℕ, ◌≡◌, refl, ◌∙◌, ap, Bool, true, false, Option, none, some, if◌then◌else◌, ◌==◌, ==_iff,
  ==_refl, Bool-cases, inl, inr,
}
use utxo_z.Sidecar.{Plan, contains, encode_merge_plan}
use utxo_z.Sidecar.Coherent.{IsCoherent, Fits}
use utxo_z.FlatMap.{Key, FlatMap}
use utxo_z.Dir.{Dir, Kind, data_file, sidecar_file, Content, segment, raw, name, unlink, write}
use utxo_z.Merge.View.{
  files, view, map_of, aside, Merged, ContentOf-congr, files-unlink, files-write, files-unlink_self,
  files-write_self, publish-ContentOf, target_not_source,
}
use utxo_z.Merge.States.{
  Same, Settled, Recorded, Pending, Published, Recoverable, settled, pending, published,
}

module _ {K V : Type 0} ⦃key : Key K⦄ (F : FlatMap K V) (c : ℕ) (f : K → Option V) where
  view_same :
      (d d' : Dir F.Map)
      → files data_file c d' ≡ files data_file c d
      → (n : ℕ) → view c d' n ≡ view c d n
  view_same d d' e n = ap (λ (g : ℕ → Option (Content F.Map)). map_of (g n)) e

  at_same :
      (kind : Kind) (d d' : Dir F.Map)
      → files kind c d' ≡ files kind c d
      → (n : ℕ) → files kind c d' n ≡ files kind c d n
  at_same kind d d' e n = ap (λ (g : ℕ → Option (Content F.Map)). g n) e

  -- Each state depends on the version files and the records alone.
  module _ (d d' : Dir F.Map) (same : Same c d d') where
    pub Settled-Same : Settled F c f d → Settled F c f d'
    Settled-Same s = record {
      clear = λ n. at_same sidecar_file d d' same.side_same n ∙ s.clear n;
      content = ContentOf-congr F _ _ f (view_same d d' same.data_same) s.content;
    }

    Recorded-Same : (plan : Plan) → Recorded F c f plan d → Recorded F c f plan d'
    Recorded-Same plan r = record {
      here = r.here;
      only = λ n. at_same sidecar_file d d' same.side_same n ∙ r.only n;
      fits = r.fits;
      coherent = r.coherent;
    }

    pub Pending-Same : (plan : Plan) → Pending F c f plan d → Pending F c f plan d'
    Pending-Same plan s = record {
      recorded = Recorded-Same plan s.recorded;
      free = at_same data_file d d' same.data_same plan.target ∙ s.free;
      content = ContentOf-congr F _ _ f (view_same d d' same.data_same) s.content;
    }

    pub Published-Same : (plan : Plan) → Published F c f plan d → Published F c f plan d'
    Published-Same plan s = record {
      recorded = Recorded-Same plan s.recorded;
      target = s.target;
      built = at_same data_file d d' same.data_same plan.target ∙ s.built;
      outside = s.outside;
      content =
          ContentOf-congr F _ _ f
            (λ n.
              ap (λ (x : Option F.Map). if contains plan.sources n then none else x)
                (view_same d d' same.data_same n))
            s.content;
    }

    pub Recoverable-Same : Recoverable F c f d → Recoverable F c f d'
    Recoverable-Same (settled s) = settled (Settled-Same s)
    Recoverable-Same (pending plan s) = pending plan (Pending-Same plan s)
    Recoverable-Same (published plan s) = published plan (Published-Same plan s)

  -- Naming the record over untouched version files.
  pub record_step :
      (plan : Plan) (d d' : Dir F.Map)
      → Settled F c f d
      → plan.container ≡ c
      → Fits plan
      → IsCoherent plan
      → files data_file c d plan.target ≡ none
      → files data_file c d' ≡ files data_file c d
      → ((n : ℕ)
          → files sidecar_file c d' n ≡ (
              if plan.target == n
              then some (raw (encode_merge_plan plan))
              else files sidecar_file c d n))
      → Pending F c f plan d'
  record_step plan d d' s here fits coherent free e side = record {
    recorded = record {
      here = here;
      only = λ n. side n ∙ rw (s.clear n);
      fits = fits;
      coherent = coherent;
    };
    free = at_same data_file d d' e plan.target ∙ free;
    content = ContentOf-congr F _ _ f (view_same d d' e) s.content;
  }

  -- Linking the built file under the identity of the plan.
  pub publish_step :
      (plan : Plan) (t : F.Map) (d : Dir F.Map)
      → Pending F c f plan d
      → Merged F (view c d) plan.sources t
      → Published F c f plan (write (name data_file c plan.target) (segment (some plan.id) t) d)
  publish_step plan t d s all = record {
    recorded = record {
      here = s.recorded.here;
      only = λ n.
          at_same sidecar_file d _ (files-write sidecar_file data_file c plan.target _ d refl) n
          ∙ s.recorded.only n;
      fits = s.recorded.fits;
      coherent = s.recorded.coherent;
    };
    target = t;
    built = rw (
      files-write_self data_file c plan.target (segment (some plan.id) t) d plan.target,
      ==_refl plan.target,
    );
    outside =
        target_not_source F (view c d) after f plan.sources plan.target t s.content free all shape;
    content =
        publish-ContentOf F (view c d) after f plan.sources plan.target t s.content free all shape;
  }
    where
      after : ℕ → Option F.Map
      after = view c (write (name data_file c plan.target) (segment (some plan.id) t) d)

      free : view c d plan.target ≡ none
      free = ap map_of s.free

      pick :
          (b : Bool) (x : Option (Content F.Map))
          → map_of (if b then some (segment (some plan.id) t) else x)
            ≡ (if b then some t else map_of x)
      pick true x = refl
      pick false x = refl

      shape : (n : ℕ) → after n ≡ (if plan.target == n then some t else view c d n)
      shape n =
          ap map_of (files-write_self data_file c plan.target (segment (some plan.id) t) d n)
          ∙ pick (plan.target == n) (files data_file c d n)

  -- Retiring one of the sources.
  pub retire_step :
      (plan : Plan) (v : ℕ) (d : Dir F.Map)
      → contains plan.sources v ≡ true
      → Published F c f plan d
      → Published F c f plan (unlink (name data_file c v) d)
  retire_step plan v d is s = record {
    recorded = record {
      here = s.recorded.here;
      only = λ n.
          at_same sidecar_file d _ (files-unlink sidecar_file data_file c v d refl) n
          ∙ s.recorded.only n;
      fits = s.recorded.fits;
      coherent = s.recorded.coherent;
    };
    target = s.target;
    built = elim (Bool-cases (v == plan.target)) [
      | inl hit ↦
          let e : v ≡ plan.target = (==_iff v plan.target).0 hit in
          absurd (cc (is, ap (contains plan.sources) e, s.outside))
      | inr miss ↦ rw (files-unlink_self data_file c v d plan.target, miss) s.built
    ];
    outside = s.outside;
    content = ContentOf-congr F _ _ f shape s.content;
  }
    where
      shape :
          (n : ℕ)
          → aside plan.sources (view c (unlink (name data_file c v) d)) n
            ≡ aside plan.sources (view c d) n
      shape n = elim (Bool-cases (contains plan.sources n)) [
        | inl in_ ↦ rw in_
        | inr out ↦ elim (Bool-cases (v == n)) [
          | inl hit ↦
              let e : v ≡ n = (==_iff v n).0 hit in
              absurd (cc (is, ap (contains plan.sources) e, out))
          | inr miss ↦ rw (files-unlink_self data_file c v d n, miss)
        ]
      ]

  -- Withdrawing the record: of a merge that never published, or whose sources are all gone.
  unrecord :
      (plan : Plan) (d : Dir F.Map) (n : ℕ)
      → Recorded F c f plan d
      → files sidecar_file c (unlink (name sidecar_file c plan.target) d) n ≡ none
  unrecord plan d n r = elim (Bool-cases (plan.target == n)) [
    | inl hit ↦ rw (files-unlink_self sidecar_file c plan.target d n, hit)
    | inr miss ↦ rw (files-unlink_self sidecar_file c plan.target d n, miss, r.only n, miss)
  ]

  pub abandon_step :
      (plan : Plan) (d : Dir F.Map)
      → Pending F c f plan d
      → Settled F c f (unlink (name sidecar_file c plan.target) d)
  abandon_step plan d s = record {
    clear = λ n. unrecord plan d n s.recorded;
    content =
        ContentOf-congr F _ _ f
          (view_same d _ (files-unlink data_file sidecar_file c plan.target d refl)) s.content;
  }

  pub conclude_step :
      (plan : Plan) (d : Dir F.Map)
      → Published F c f plan d
      → ((n : ℕ) → contains plan.sources n ≡ true → files data_file c d n ≡ none)
      → Settled F c f (unlink (name sidecar_file c plan.target) d)
  conclude_step plan d s gone = record {
    clear = λ n. unrecord plan d n s.recorded;
    content = ContentOf-congr F _ _ f shape s.content;
  }
    where
      shape :
          (n : ℕ)
          → view c (unlink (name sidecar_file c plan.target) d) n ≡ aside plan.sources (view c d) n
      shape n =
          view_same d _ (files-unlink data_file sidecar_file c plan.target d refl) n
          ∙ elim (Bool-cases (contains plan.sources n)) [
            | inl is ↦ rw is (ap map_of (gone n is))
            | inr out ↦ rw out
          ]
