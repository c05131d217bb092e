-- ===== src/Budget/Allocator.antt =====
-- src/detail/budget_meter.hpp, `class counted_allocator`: containers that share a meter. The blocks
-- that are in use are kept in a list; whether the system grants an allocation is given.
use utxo_z.Common.{
  ℕ, zero, suc, ◌+◌, ◌*◌, ◌^◌, ◌%◌, ◌≤◌, ◌<◌, ◌≡◌, refl, ◌∙◌, ap, Bool, true, false, List, [], ◌∷◌,
  Option, none, some, inl, inr, arith, Bool-cases, Option-cases, u64_mod, if◌then◌else◌, ltb,
  ltb→lt,
}
use utxo_z.Budget.{Meter, new, acquire, release}
use utxo_z.Budget.Invariant.{Inv, new-Inv, acquire-Inv, release-Inv}
use utxo_z.Census.{checked_mul}
use utxo_z.Census.Exact.{checked_mul-some, checked_mul-none}

pub record Block : Type 0 where
  pub count : ℕ
  pub size : ℕ

pub data Allocated : Type 0 where
  granted budget_exceeded bad_alloc : Allocated

-- What the system refuses is given back to the meter.
unfoldable pub ask_system : Bool → ℕ → Meter → Allocated × Meter
ask_system true bytes m = (granted, m)
ask_system false bytes m = (bad_alloc, release m bytes)

unfoldable pub ask_meter : Bool → ℕ → Meter × Bool → Allocated × Meter
ask_meter given bytes (m, true) = ask_system given bytes m
ask_meter given bytes (m, false) = (budget_exceeded, m)

unfoldable pub ask_for : Bool → Option ℕ → Meter → Allocated × Meter
ask_for given none m = (budget_exceeded, m)
ask_for given (some bytes) m = ask_meter given bytes (acquire m bytes)

unfoldable pub allocate : Bool → Block → Meter → Allocated × Meter
allocate given b m = ask_for given (checked_mul b.count b.size) m

unfoldable pub deallocate : Block → Meter → Meter
deallocate b m = release m ((b.count * b.size) % u64_mod)

-- The meter with the blocks in use, and what containers do: allocate a block, or free one of these.
pub record Heap : Type 0 where
  pub meter : Meter
  pub live : List Block

pub data Event : Type 0 where
  allocates : Block → Bool → Event
  frees : ℕ → Event

unfoldable pub take_block : ℕ → List Block → Option (Block × List Block)
take_block n [] = none
take_block zero (b ∷ bs) = some (b, bs)
take_block (suc n) (b ∷ bs) = elim (take_block n bs) [ none ↦ none | some x ↦ some (x.0, b ∷ x.1) ]

unfoldable pub keep_block : Block → List Block → Allocated × Meter → Heap
keep_block b bs (granted, m) = record { meter = m; live = b ∷ bs }
keep_block b bs (budget_exceeded, m) = record { meter = m; live = bs }
keep_block b bs (bad_alloc, m) = record { meter = m; live = bs }

unfoldable pub free_block : Option (Block × List Block) → Heap → Heap
free_block none h = h
free_block (some x) h = record { meter = deallocate x.0 h.meter; live = x.1 }

unfoldable pub event : Heap → Event → Heap
event h (allocates b given) = keep_block b h.live (allocate given b h.meter)
event h (frees n) = free_block (take_block n h.live) h

unfoldable pub serve : List Event → Heap → Heap
serve [] h = h
serve (e ∷ es) h = serve es (event h e)

-- The bytes that are in use.
unfoldable pub held : List Block → ℕ
held [] = 0
held (b ∷ bs) = b.count * b.size + held bs

-- The meter holds what the blocks hold.
record Books (c : ℕ) (h : Heap) : Type 0 where
  valid : Inv h.meter
  balanced : h.meter.unbalanced ≡ false
  ceiling : h.meter.ceiling ≡ c
  holds : h.meter.outstanding ≡ held h.live

acquire_all :
    (m : Meter) (bytes : ℕ)
    → Inv m
    → m.unbalanced ≡ false
    → ((acquire m bytes).0.unbalanced ≡ false)
      × ((acquire m bytes).0.ceiling ≡ m.ceiling)
      × ((acquire m bytes).0.outstanding
          ≡ (if (acquire m bytes).1 then m.outstanding + bytes else m.outstanding))
unfolding acquire
acquire_all m bytes v b = (ground arith, ground arith, ground arith)

release_all :
    (m : Meter) (bytes : ℕ)
    → Inv m
    → m.unbalanced ≡ false
    → bytes ≤ m.outstanding
    → ((release m bytes).unbalanced ≡ false)
      × ((release m bytes).ceiling ≡ m.ceiling)
      × ((release m bytes).outstanding + bytes ≡ m.outstanding)
unfolding release
release_all m bytes v b h = (ground arith, ground arith, ground arith)

ask_meter-Books :
    (c bytes : ℕ) (given : Bool) (b : Block) (h : Heap)
    → b.count * b.size ≡ bytes
    → Books c h
    → Books c (keep_block b h.live (ask_meter given bytes (acquire h.meter bytes)))
unfolding ask_meter ask_system keep_block held
ask_meter-Books c bytes given b h is k =
    answered given (acquire h.meter bytes).0 (acquire h.meter bytes).1 refl
      (acquire_all h.meter bytes k.valid k.balanced) (acquire-Inv h.meter bytes k.valid)
  where
    answered :
        (g : Bool) (m : Meter) (t : Bool)
        → (acquire h.meter bytes) ≡ (m, t)
        → (m.unbalanced ≡ false)
          × (m.ceiling ≡ h.meter.ceiling)
          × (m.outstanding ≡ (if t then h.meter.outstanding + bytes else h.meter.outstanding))
        → Inv m
        → Books c (keep_block b h.live (ask_meter g bytes (m, t)))
    answered true m true e (u, c', o) v = record {
      valid = v;
      balanced = u;
      ceiling = c' ∙ k.ceiling;
      holds = omega (arith, o, k.holds, is);
    }
    answered false m true e (u, c', o) v =
        let (u', c2, o') = release_all m bytes v u (omega (arith, o)) in
        record {
          valid = release-Inv m bytes v;
          balanced = u';
          ceiling = c2 ∙ c' ∙ k.ceiling;
          holds = omega (arith, o, o', k.holds);
        }
    answered true m false e (u, c', o) v = record {
      valid = v;
      balanced = u;
      ceiling = c' ∙ k.ceiling;
      holds = o ∙ k.holds;
    }
    answered false m false e (u, c', o) v = record {
      valid = v;
      balanced = u;
      ceiling = c' ∙ k.ceiling;
      holds = o ∙ k.holds;
    }

allocate-Books :
    (c : ℕ) (given : Bool) (b : Block) (h : Heap)
    → Books c h
    → Books c (event h (allocates b given))
unfolding event allocate ask_for keep_block
allocate-Books c given b h k = elim (Bool-cases (ltb (b.count * b.size) (2 ^ 64))) [
  | inl small ↦
      rw (checked_mul-some b.count b.size (ltb→lt (b.count * b.size) (2 ^ 64) small))
        (ask_meter-Books c (b.count * b.size) given b h refl k)
  | inr big ↦ rw (checked_mul-none b.count b.size (not_small (b.count * b.size) big)) k
]
  where
    not_small : (n : ℕ) → ltb n (2 ^ 64) ≡ false → 2 ^ 64 ≤ n
    not_small n h = ground arith

take_block-held :
    (n : ℕ) (bs : List Block) (b : Block) (rest : List Block)
    → take_block n bs ≡ some (b, rest)
    → held bs ≡ b.count * b.size + held rest
unfolding take_block held
take_block-held n [] b rest e = cc e
take_block-held zero (x ∷ xs) b rest e =
    let same : (x, xs) ≡ (b, rest) = cc e in
    ap (λ (y : Block × List Block). y.0.count * y.0.size + held y.1) same
take_block-held (suc n) (x ∷ xs) b rest e = elim (Option-cases (take_block n xs)) [
  | inl none_ ↦ let this : none ≡ some (b, rest) = rw none_ at e in cc this
  | inr ((d, ds), e') ↦
      let total : x.count * x.size + held xs ≡ d.count * d.size + held (x ∷ ds) =
        omega (arith, take_block-held n xs d ds e') in
      let this : some (d, x ∷ ds) ≡ some (b, rest) = rw e' at e in
      let same : (d, x ∷ ds) ≡ (b, rest) = cc this in
      total ∙ ap (λ (y : Block × List Block). y.0.count * y.0.size + held y.1) same
]

word_mod : (x : ℕ) → x < 2 ^ 64 → x % u64_mod ≡ x
word_mod x h = ground arith

-- A block in use is within the word.
frees-Books : (c n : ℕ) (h : Heap) → Books c h → Books c (event h (frees n))
unfolding event free_block deallocate
frees-Books c n h k = freed (take_block n h.live) refl
  where
    freed : (o : Option (Block × List Block)) → take_block n h.live ≡ o → Books c (free_block o h)
    freed none e = k
    freed (some (b, rest)) e =
        let total = take_block-held n h.live b rest e in
        let exact : (b.count * b.size) % u64_mod ≡ b.count * b.size =
          word_mod (b.count * b.size)
            (omega (arith, total, k.holds, k.valid.word, k.valid.held, k.valid.bounded)) in
        let (u, c', o) =
          release_all h.meter (b.count * b.size) k.valid k.balanced
            (omega (arith, total, k.holds)) in
        rw exact (record {
          valid = release-Inv h.meter (b.count * b.size) k.valid;
          balanced = u;
          ceiling = c' ∙ k.ceiling;
          holds = omega (arith, o, total, k.holds);
        })

serve-Books : (c : ℕ) (es : List Event) (h : Heap) → Books c h → Books c (serve es h)
unfolding serve
serve-Books c [] h k = k
serve-Books c (allocates b given ∷ es) h k =
    serve-Books c es (event h (allocates b given)) (allocate-Books c given b h k)
serve-Books c (frees n ∷ es) h k = serve-Books c es (event h (frees n)) (frees-Books c n h k)

-- Whatever containers allocate and free on a fresh meter, and whatever the system refuses them: the
-- meter counts exactly the bytes in use, these are within the ceiling, and the meter stays balanced.
pub serve_within_ceiling :
    (c : ℕ) (es : List Event)
    → c < 2 ^ 64
    → ((serve es (record { meter = new c; live = [] })).meter.outstanding
        ≡ held (serve es (record { meter = new c; live = [] })).live)
      × (held (serve es (record { meter = new c; live = [] })).live ≤ c)
      × ((serve es (record { meter = new c; live = [] })).meter.unbalanced ≡ false)
unfolding new held
serve_within_ceiling c es word =
    let k =
      serve-Books c es (record { meter = new c; live = [] })
        (record { valid = new-Inv c word; balanced = refl; ceiling = refl; holds = refl }) in
    (k.holds, omega (arith, k.holds, k.valid.held, k.valid.bounded, k.ceiling), k.balanced)
