-- ===== src/Ingestion/Pipeline/Triple.antt =====
-- What a program of the pipeline establishes of the row: `Triple P m Q E` says that from a row with
-- `P`, `m` either ends with a value and a row with `Q`, or raises and leaves a row with `E`.
use chatvector_ai.Ingestion.Row.{Row}
use chatvector_ai.Ingestion.Pipeline.{
  ℕ, Call, apply, Raised, Result, done, raised, Services, Store, M, pure, continue, recover, ◌>>=◌,
  ◌>>◌, catch, when, lift, perform,
}
use chatvector_ai.Ingestion.Pipeline.Process.{ignore, require}
use chatvector_ai.Ingestion.Row.{Failure}
use chatvector_ai.Failures.{Exc}
use chatvector_ai.Prelude.{◌≡◌, refl, String, Bool, true, false, ◌⊎◌, inl, inr, Option-cases}

abbrev pub Post : {A : Type 0} → (A → Row → Type 0) → (Row → Type 0) → Result A → Row → Type 0
Post Q E (done a) row = Q a row
Post Q E (raised e) row = E row

pub record Triple {A : Type 0} (P : Row → Type 0) (m : M A) (Q : A → Row → Type 0)
    (E : Row → Type 0) : Type 0 where
  pub run : (s : Store) → P s.row → Post Q E (m s).0 (m s).1.row

pub pure-Triple :
    {A : Type 0} {P : Row → Type 0} (a : A) (E : Row → Type 0)
    → Triple P (pure a) (λ b row. (b ≡ a) × P row) E
pure-Triple a E = record { run = λ s h. (refl, h) }

-- To weaken what is established.
module _ {A : Type 0} {Q R : A → Row → Type 0} {E F : Row → Type 0} where
  Post-weaken :
      (r : Result A) (row : Row)
      → ((a : A) (row : Row) → Q a row → R a row)
      → ((row : Row) → E row → F row)
      → Post Q E r row
      → Post R F r row
  Post-weaken (done a) row q e h = q a row h
  Post-weaken (raised x) row q e h = e row h

  pub weaken-Triple :
      {P : Row → Type 0} {m : M A}
      → Triple P m Q E
      → ((a : A) (row : Row) → Q a row → R a row)
      → ((row : Row) → E row → F row)
      → Triple P m R F
  weaken-Triple {m = m} t q e = record {
    run = λ s p. Post-weaken (m s).0 (m s).1.row q e (t.run s p);
  }

module _ {A : Type 0} {Q : A → Row → Type 0} {E F : Row → Type 0} (handler : Raised → M A)
    (k : (e : Raised) → Triple E (handler e) Q F) where
  recover_result :
      (r : Result A) (t : Store)
      → Post Q E r t.row
      → Post Q F (recover handler r t).0 (recover handler r t).1.row
  recover_result (done a) t q = q
  recover_result (raised e) t q = (k e).run t q

  pub catch-Triple : {P : Row → Type 0} {m : M A} → Triple P m Q E → Triple P (catch m handler) Q F
  catch-Triple {m = m} h = record { run = λ s p. recover_result (m s).0 (m s).1 (h.run s p) }

module _ {A B : Type 0} {Q : A → Row → Type 0} {R : B → Row → Type 0} {E : Row → Type 0}
    (f : A → M B) (k : (a : A) → Triple (Q a) (f a) R E) where
  continue_result :
      (r : Result A) (t : Store)
      → Post Q E r t.row
      → Post R E (continue f r t).0 (continue f r t).1.row
  continue_result (done a) t q = (k a).run t q
  continue_result (raised e) t q = q

  pub bind-Triple : {P : Row → Type 0} {m : M A} → Triple P m Q E → Triple P (m >>= f) R E
  bind-Triple {m = m} h = record { run = λ s p. continue_result (m s).0 (m s).1 (h.run s p) }

module _ {P : Row → Type 0} where
  pub perform-Triple :
      {Q E : Row → Type 0} (w : Services) (stage : String) (call : Call)
      → ((row : Row) → P row → Q (apply call row))
      → ((row : Row) → P row → E row)
      → ((row : Row) → P row → E (apply call row))
      → Triple P (perform w stage call) (λ _. Q) E
  unfolding perform
  perform-Triple w stage call q e late = record {
    run = λ s p. elim (Option-cases (w.fails s.calls call)) [
      | inl answered ↦ rw (answered, perform) (q s.row p)
      | inr ((false, x), answered) ↦ rw (answered, perform) (e s.row p)
      | inr ((true, x), answered) ↦ rw (answered, perform) (late s.row p)
    ];
  }

  pub lift-Triple :
      {A : Type 0} (stage : String) (r : Exc ⊎ A)
      → Triple P (lift stage r) (λ a row. (r ≡ inr a) × P row) P
  lift-Triple stage (inl e) = record { run = λ s p. p }
  lift-Triple stage (inr a) = record { run = λ s p. (refl, p) }

  pub require-Triple :
      (b : Bool) (status_code : ℕ) (failure : Failure)
      → Triple P (require b status_code failure) (λ _ row. (b ≡ true) × P row) P
  require-Triple true status_code failure = record { run = λ s p. (refl, p) }
  require-Triple false status_code failure = record { run = λ s p. p }

  pub when-Triple :
      {E : Row → Type 0} (b : Bool) (m : M (Unit {0}))
      → Triple P m (λ _. P) E
      → Triple P (when b m) (λ _. P) E
  when-Triple true m h = h
  when-Triple false m h = record { run = λ s p. p }

  pub ignore-Triple :
      (m : M (Unit {0})) (E : Row → Type 0) → Triple P m (λ _. P) P → Triple P (ignore m) (λ _. P) E
  ignore-Triple m E h = catch-Triple _ (λ e. record { run = λ s p. p }) h

-- A step whose success tells something, and one that tells nothing, before the rest.
module _ {P : Row → Type 0} {A B : Type 0} {R : B → Row → Type 0} where
  pub lift_then-Triple :
      (stage : String) (r : Exc ⊎ A) (f : A → M B)
      → ((a : A) → r ≡ inr a → Triple P (f a) R P)
      → Triple P (lift stage r >>= f) R P
  lift_then-Triple stage (inl e) f h = record { run = λ s p. p }
  lift_then-Triple stage (inr a) f h = h a refl

  pub then-Triple :
      (m : M A) (f : A → M B)
      → Triple P m (λ _. P) P
      → ((a : A) → Triple P (f a) R P)
      → Triple P (m >>= f) R P
  then-Triple m f h k = bind-Triple f k h

pub require_then-Triple :
    {P : Row → Type 0} {B : Type 0} {R : B → Row → Type 0} (b : Bool) (status_code : ℕ)
    (failure : Failure) (k : M B)
    → (b ≡ true → Triple P k R P)
    → Triple P (require b status_code failure >> k) R P
require_then-Triple true status_code failure k h = h refl
require_then-Triple false status_code failure k h = record { run = λ s p. p }
