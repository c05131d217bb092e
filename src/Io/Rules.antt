-- ===== src/Io/Rules.antt =====
-- Rules for what holds when an operation is done, when it fails, and if the process dies within it.
use utxo_z.Common.{◌≡◌, refl, Bool, true, false, if◌then◌else◌, List, [], ◌∷◌, Option, none}
use mathlib.Core.Path.{subst}
use utxo_z.Sidecar.{Marker}
use utxo_z.Errors.{ErrorCode, sync_failed}
use utxo_z.Io.{
  Verdict, proceeds, unsupported, fails, crashes, World, Run, done, failed, crashed, Attempt, ok,
  err, M, and_then, attempted, rule, judge, syscall, barrier_rule, barrier_judge, barrier,
  draw_from, draw, settle, succeeds, is_ok, unwound, ignore,
}

-- `Q` after success, `E` after failure, `I` in the state that a crash leaves.
pub data Ensures {S A : Type 0} (Q : A → S → Type 0) (E : ErrorCode → S → Type 0) (I : S → Type 0)
    : Run S A → Type 0 where
  on_done : {a : A} {w : World S} → Q a w.state → Ensures Q E I (done a w)
  on_failed : {e : ErrorCode} {w : World S} → E e w.state → Ensures Q E I (failed e w)
  on_crashed : {w : World S} → I w.state → Ensures Q E I (crashed w)

module _ {S : Type 0} {E : ErrorCode → S → Type 0} {I : S → Type 0} where
  module _ {A B : Type 0} {Q : A → S → Type 0} {R : B → S → Type 0} where
    pub Ensures-and_then :
        {r : Run S A} (f : A → M S B)
        → Ensures Q E I r
        → ((a : A) (w : World S) → Q a w.state → Ensures R E I (f a w))
        → Ensures R E I (and_then r f)
    unfolding and_then
    Ensures-and_then f (on_done {a} {w} h) k = k a w h
    Ensures-and_then f (on_failed h) k = on_failed h
    Ensures-and_then f (on_crashed h) k = on_crashed h

  module _ {A : Type 0} {Q : A → S → Type 0} (e : ErrorCode) (m : M S A) where
    judged :
        (vs : List Verdict) (w : World S)
        → E e w.state
        → I w.state
        → ((us : List Verdict) → Ensures Q E I (m (record w { verdicts = us })))
        → Ensures Q E I (judge e vs m w)
    unfolding judge rule
    judged [] w he hi k = k w.verdicts
    judged (proceeds ∷ vs) w he hi k = k vs
    judged (unsupported ∷ vs) w he hi k = on_failed he
    judged (fails ∷ vs) w he hi k = on_failed he
    judged (crashes ∷ vs) w he hi k = on_crashed hi

    -- A call that fails changes nothing.
    pub Ensures-syscall :
        (w : World S)
        → E e w.state
        → I w.state
        → ((us : List Verdict) → Ensures Q E I (m (record w { verdicts = us })))
        → Ensures Q E I (syscall e m w)
    Ensures-syscall w he hi k = judged w.verdicts w he hi k

  module _ {Q : Unit {0} → S → Type 0} where
    barrier_judged :
        (vs : List Verdict) (w : World S)
        → E sync_failed w.state
        → I w.state
        → Q tt w.state
        → Ensures Q E I (barrier_judge vs w)
    unfolding barrier_judge barrier_rule
    barrier_judged [] w he hi h = on_done h
    barrier_judged (proceeds ∷ vs) w he hi h = on_done h
    barrier_judged (unsupported ∷ vs) w he hi h = on_done h
    barrier_judged (fails ∷ vs) w he hi h = on_failed he
    barrier_judged (crashes ∷ vs) w he hi h = on_crashed hi

    pub Ensures-barrier :
        (w : World S) → E sync_failed w.state → I w.state → Q tt w.state → Ensures Q E I (barrier w)
    Ensures-barrier w he hi h = barrier_judged w.verdicts w he hi h

module _ {S A : Type 0} {Q : A → S → Type 0} {E : ErrorCode → S → Type 0} {I : S → Type 0} where
  pub Ensures-if :
      (b : Bool) (x y : M S A) (w : World S)
      → (b ≡ true → Ensures Q E I (x w))
      → (b ≡ false → Ensures Q E I (y w))
      → Ensures Q E I ((if b then x else y) w)
  Ensures-if true x y w h k = h refl
  Ensures-if false x y w h k = k refl

  -- What is ensured may be weakened.
  pub Ensures-mono :
      {Q' : A → S → Type 0} {E' : ErrorCode → S → Type 0} {I' : S → Type 0} {r : Run S A}
      → ((a : A) (s : S) → Q a s → Q' a s)
      → ((e : ErrorCode) (s : S) → E e s → E' e s)
      → ((s : S) → I s → I' s)
      → Ensures Q E I r
      → Ensures Q' E' I' r
  Ensures-mono q e i (on_done {a} {w} h) = on_done (q a w.state h)
  Ensures-mono q e i (on_failed {e = x} {w} h) = on_failed (e x w.state h)
  Ensures-mono q e i (on_crashed {w} h) = on_crashed (i w.state h)

-- What is ensured of each result.
abbrev pub Holds :
    {S A : Type 0} → (A → S → Type 0) → (ErrorCode → S → Type 0) → (S → Type 0) → Run S A → Type 0
Holds Q E I (done a w) = Q a w.state
Holds Q E I (failed e w) = E e w.state
Holds Q E I (crashed w) = I w.state

pub holds :
    {S A : Type 0} {Q : A → S → Type 0} {E : ErrorCode → S → Type 0} {I : S → Type 0}
    {r r' : Run S A}
    → Ensures Q E I r
    → r ≡ r'
    → Holds Q E I r'
holds {Q} {E} {I} h e = subst (Holds Q E I) e (now h)
  where
    now :
        {S A : Type 0} {Q : A → S → Type 0} {E : ErrorCode → S → Type 0} {I : S → Type 0}
        {r : Run S A}
        → Ensures Q E I r
        → Holds Q E I r
    now (on_done h) = h
    now (on_failed h) = h
    now (on_crashed h) = h

-- What `attempt` makes of a result.
abbrev pub Either :
    {S A : Type 0} → (A → S → Type 0) → (ErrorCode → S → Type 0) → Attempt A → S → Type 0
Either Q E (ok a) s = Q a s
Either Q E (err e) s = E e s

module _ {S : Type 0} {I : S → Type 0} where
  pub Ensures-attempt :
      {A : Type 0} {Q : A → S → Type 0} {E E' : ErrorCode → S → Type 0} {r : Run S A}
      → Ensures Q E I r
      → Ensures (Either Q E) E' I (attempted r)
  unfolding attempted
  Ensures-attempt (on_done h) = on_done h
  Ensures-attempt (on_failed h) = on_done h
  Ensures-attempt (on_crashed h) = on_crashed h

  pub Ensures-draw :
      {Q : Option Marker → S → Type 0} {E : ErrorCode → S → Type 0} (w : World S)
      → ((d : Option Marker) → Q d w.state)
      → Ensures Q E I (draw w)
  unfolding draw_from
  Ensures-draw {Q} {E} w h = go w.entropy w h
    where
      go :
          (ds : List (Option Marker)) (w' : World S)
          → ((d : Option Marker) → Q d w'.state)
          → Ensures Q E I (draw_from ds w')
      go [] w' k = on_done (k none)
      go (d ∷ ds) w' k = on_done (k d)

  pub Ensures-ignore :
      {P : S → Type 0} {E : ErrorCode → S → Type 0} (m : M S (Unit {0})) (w : World S)
      → Ensures (λ _. P) (λ _. P) I (m w)
      → Ensures (λ _. P) E I (ignore m w)
  Ensures-ignore {P} {E} m w h = Ensures-and_then (λ _. λ w'. done tt w') (Ensures-attempt h) both
    where
      both :
          (a : Attempt (Unit {0})) (w' : World S)
          → Either (λ _. P) (λ _. P) a w'.state
          → Ensures (λ _. P) E I (done tt w')
      both (ok a) w' p = on_done p
      both (err e) w' p = on_done p

  settled :
      {A : Type 0} {Q : A → S → Type 0} {F : ErrorCode → S → Type 0} (cleanup : M S (Unit {0}))
      (e : ErrorCode) (w : World S)
      → Ensures (λ _. F e) (λ _. F e) I (cleanup w)
      → Ensures Q F I (settle cleanup e w)
  unfolding settle
  settled {A} {Q} {F} cleanup e w h =
      Ensures-and_then (λ _. λ w'. failed e w') (Ensures-attempt h) both
    where
      both :
          (a : Attempt (Unit {0})) (w' : World S)
          → Either (λ _. F e) (λ _. F e) a w'.state
          → Ensures Q F I (failed e w')
      both (ok a) w' p = on_failed p
      both (err e') w' p = on_failed p

  -- The cleanup starts from what failed and, whatever comes of it, ends in `F`.
  pub Ensures-on_failure :
      {A : Type 0} {Q : A → S → Type 0} {E F : ErrorCode → S → Type 0} (cleanup : M S (Unit {0}))
      {r : Run S A}
      → Ensures Q E I r
      → ((e : ErrorCode) (w' : World S)
          → E e w'.state
          → Ensures (λ _. F e) (λ _. F e) I (cleanup w'))
      → Ensures Q F I (unwound cleanup r)
  unfolding unwound
  Ensures-on_failure cleanup (on_done h) k = on_done h
  Ensures-on_failure cleanup (on_failed {e} {w} h) k = settled cleanup e w (k e w h)
  Ensures-on_failure cleanup (on_crashed h) k = on_crashed h

  -- `Q` of the answer, whichever it is.
  pub Ensures-succeeds :
      {A : Type 0} {Q : Bool → S → Type 0} {E : ErrorCode → S → Type 0} (m : M S A) (w : World S)
      → Ensures (λ _. Q true) (λ _. Q false) I (m w)
      → Ensures Q E I (succeeds m w)
  unfolding succeeds
  Ensures-succeeds {A} {Q} {E} m w h = Ensures-and_then _ (Ensures-attempt h) both
    where
      both :
          (a : Attempt A) (w' : World S)
          → Either (λ _. Q true) (λ _. Q false) a w'.state
          → Ensures Q E I (done (is_ok a) w')
      both (ok a) w' q = on_done q
      both (err e) w' q = on_done q
