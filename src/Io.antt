-- ===== src/Io.antt =====
-- Effects that can fail or be cut short. Each system call of the source takes one verdict from a
-- list: it proceeds, the platform lacks it, it fails, or the process dies before it. A statement
-- for all lists covers every failure and every crash. What a call that proceeded did stays; the
-- loss of unsynced writes in a power cut is not modelled, and a barrier changes nothing.
pub mod Rules
use utxo_z.Common.{ℕ, Bool, true, false, List, [], ◌∷◌, Option, none, some, if◌then◌else◌}
use utxo_z.Sidecar.{Marker}
use utxo_z.Errors.{ErrorCode, sync_failed}

pub data Verdict : Type 0 where
  proceeds unsupported fails crashes : Verdict

-- The verdicts and the random markers to come, `none` where the generator refuses.
pub record World (S : Type 0) : Type 0 where
  pub state : S
  pub verdicts : List Verdict
  pub entropy : List (Option Marker)

pub data Run (S A : Type 0) : Type 0 where
  done : A → World S → Run S A
  failed : ErrorCode → World S → Run S A
  crashed : World S → Run S A

pub data Attempt (A : Type 0) : Type 0 where
  ok : A → Attempt A
  err : ErrorCode → Attempt A

abbrev pub M : Type 0 → Type 0 → Type 0
M S A = World S → Run S A

is_ok : {A : Type 0} → Attempt A → Bool
is_ok (ok a) = true
is_ok (err e) = false

module _ {S : Type 0} where
  unfoldable pub and_then : {A B : Type 0} → Run S A → (A → M S B) → Run S B
  and_then (done a w) f = f a w
  and_then (failed e w) f = failed e w
  and_then (crashed w) f = crashed w

  infixl 5 ◌>>=◌ ◌>>◌
  abbrev pub ◌>>=◌ : {A B : Type 0} → M S A → (A → M S B) → M S B
  ◌>>=◌ m f w = and_then (m w) f

  abbrev pub ◌>>◌ : {B : Type 0} → M S (Unit {0}) → M S B → M S B
  ◌>>◌ m k w = and_then (m w) (λ _. k)

  abbrev pub pure : {A : Type 0} → A → M S A
  pure a w = done a w

  abbrev pub fail : {A : Type 0} → ErrorCode → M S A
  fail e w = failed e w

  abbrev pub get : M S S
  get w = done w.state w

  abbrev pub modify : (S → S) → M S (Unit {0})
  modify f w = done tt (record w { state = f w.state })

  -- The code looks at the error instead of passing it on.
  unfoldable pub attempted : {A : Type 0} → Run S A → Run S (Attempt A)
  attempted (done a w) = done (ok a) w
  attempted (failed e w) = done (err e) w
  attempted (crashed w) = crashed w

  abbrev pub attempt : {A : Type 0} → M S A → M S (Attempt A)
  attempt m w = attempted (m w)

  -- Only whether the operation failed is looked at.
  unfoldable pub succeeds : {A : Type 0} → M S A → M S Bool
  unfolding is_ok
  succeeds m w = and_then (attempted (m w)) (λ r. pure (is_ok r))

  unfoldable pub rule : {A : Type 0} → ErrorCode → Verdict → M S A → M S A
  rule e proceeds m w = m w
  rule e unsupported m w = failed e w
  rule e fails m w = failed e w
  rule e crashes m w = crashed w

  -- No verdicts left: everything proceeds.
  unfoldable pub judge : {A : Type 0} → ErrorCode → List Verdict → M S A → M S A
  judge e [] m w = m w
  judge e (v ∷ vs) m w = rule e v m (record w { verdicts = vs })

  -- A system call that answers `e` when it fails.
  abbrev pub syscall : {A : Type 0} → ErrorCode → M S A → M S A
  syscall e m w = judge e w.verdicts m w

  -- A barrier. Every caller takes `sync_unsupported` for success.
  unfoldable pub barrier_rule : Verdict → M S (Unit {0})
  barrier_rule proceeds w = done tt w
  barrier_rule unsupported w = done tt w
  barrier_rule fails w = failed sync_failed w
  barrier_rule crashes w = crashed w

  unfoldable pub barrier_judge : List Verdict → M S (Unit {0})
  barrier_judge [] w = done tt w
  barrier_judge (v ∷ vs) w = barrier_rule v (record w { verdicts = vs })

  abbrev pub barrier : M S (Unit {0})
  barrier w = barrier_judge w.verdicts w

  unfoldable pub draw_from : List (Option Marker) → M S (Option Marker)
  draw_from [] w = done none w
  draw_from (d ∷ ds) w = done d (record w { entropy = ds })

  abbrev pub draw : M S (Option Marker)
  draw w = draw_from w.entropy w

  unfoldable pub settle : {A : Type 0} → M S (Unit {0}) → ErrorCode → World S → Run S A
  settle cleanup e w = and_then (attempted (cleanup w)) (λ _. fail e)

  unfoldable pub unwound : {A : Type 0} → M S (Unit {0}) → Run S A → Run S A
  unwound cleanup (done a w) = done a w
  unwound cleanup (failed e w) = settle cleanup e w
  unwound cleanup (crashed w) = crashed w

  -- On failure the cleanup runs, whatever comes of it, and the first error is passed on.
  abbrev pub on_failure : {A : Type 0} → M S (Unit {0}) → M S A → M S A
  on_failure cleanup m w = unwound cleanup (m w)

  -- An operation whose failure the code ignores.
  abbrev pub ignore : M S (Unit {0}) → M S (Unit {0})
  ignore m w = and_then (attempted (m w)) (λ _. pure tt)
