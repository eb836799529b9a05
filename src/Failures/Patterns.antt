-- ===== src/Failures/Patterns.antt =====
-- What the scan for transient messages (backend/utils/retry.py) finds, and how the terminal
-- decision (backend/services/ingestion_outcome.py) depends on the attempt.

use chatvector_ai.Prelude.{
  ℕ, ◌≤◌, ◌<◌, ◌≡◌, refl, ap, ◌↔◌, ◌⊎◌, inl, inr, true, false, List, [], ◌∷◌, ◌++◌, map, arith,
  Bool-cases,
}
use chatvector_ai.Text.{lower, starts_with, is_in}
use chatvector_ai.Failures.{
  transient_patterns, matches_any, is_transient_message, Exc, other_error, is_transient_error,
  is_client_error, is_retryable_ingestion_failure, ingestion_failure_is_terminal,
}

-- `p` stands somewhere in `s`.
abbrev pub Occurs : List ℕ → List ℕ → Type 0
Occurs p s = (before : List ℕ) × (after : List ℕ) × (before ++ (p ++ after) ≡ s)

-- One of the texts stands somewhere in `s`.
abbrev pub SomeOccurs : List (List ℕ) → List ℕ → Type 0
SomeOccurs [] s = ⊥
SomeOccurs (p ∷ ps) s = Occurs p s ⊎ SomeOccurs ps s

starts_with-append : (p s : List ℕ) → starts_with p s ≡ true → (after : List ℕ) × (p ++ after ≡ s)
unfolding starts_with
starts_with-append [] s h = (s, refl)
starts_with-append (c ∷ p) [] h = absurd (ground arith)
starts_with-append (c ∷ p) (d ∷ s) h =
    let (after, e) = starts_with-append p s (ground arith) in
    let same : c ≡ d = ground arith in (after, cc)

append-starts_with : (p after : List ℕ) → starts_with p (p ++ after) ≡ true
unfolding starts_with
append-starts_with [] after = refl
append-starts_with (c ∷ p) after = ground (arith, append-starts_with p after)

is_in-Occurs : (p s : List ℕ) → is_in p s ≡ true → Occurs p s
unfolding is_in
is_in-Occurs p [] h = let (after, e) = starts_with-append p [] h in ([], after, e)
is_in-Occurs p (d ∷ s) h = elim (Bool-cases (starts_with p (d ∷ s))) [
  | inl here ↦ (let (after, e) = starts_with-append p (d ∷ s) here in ([], after, e))
  | inr later ↦
      (let (before, after, e) = is_in-Occurs p s (ground arith) in
        (d ∷ before, after, ap (λ t. d ∷ t) e))
]

Occurs-is_in : (p before after : List ℕ) → is_in p (before ++ (p ++ after)) ≡ true
unfolding is_in
Occurs-is_in [] [] [] = refl
Occurs-is_in [] [] (a ∷ after) = refl
Occurs-is_in (c ∷ p) [] after = ground (arith, append-starts_with (c ∷ p) after)
Occurs-is_in p (b ∷ before) after = ground (arith, Occurs-is_in p before after)

matches_any_iff : (ps : List (List ℕ)) (s : List ℕ) → (matches_any ps s ≡ true) ↔ SomeOccurs ps s
unfolding matches_any
matches_any_iff [] s = (λ h. absurd (ground arith), λ h. absurd h)
matches_any_iff (p ∷ ps) s = (
  λ h. elim (Bool-cases (is_in p s)) [
    | inl found ↦ inl (is_in-Occurs p s found)
    | inr missing ↦ inr ((matches_any_iff ps s).0 (ground arith))
  ],
  elim [
    | inl (before, after, e) ↦ rw (← e) (rw (Occurs-is_in p before after))
    | inr later ↦ ground (arith, (matches_any_iff ps s).1 later)
  ],
)

-- A failure that the code can judge by its message alone is transient exactly when one of the known
-- patterns stands somewhere in the lower-cased message.
pub is_transient_error_iff :
    (message : List ℕ)
    → (is_transient_error (other_error message) ≡ true)
      ↔ SomeOccurs transient_patterns (map lower message)
unfolding is_transient_error is_transient_message
is_transient_error_iff message = matches_any_iff transient_patterns (map lower message)

-- A failure that ends the job at one attempt ends it at every later attempt too.
pub ingestion_failure_is_terminal_mono :
    (max_retries : ℕ) (exc : Exc) (attempt later : ℕ)
    → attempt ≤ later
    → ingestion_failure_is_terminal max_retries exc attempt ≡ true
    → ingestion_failure_is_terminal max_retries exc later ≡ true
unfolding ingestion_failure_is_terminal
ingestion_failure_is_terminal_mono max_retries exc attempt later le h = ground arith

-- What a retried failure has: attempts left, and a transient error that is not the client's.
pub not_terminal_lem :
    (max_retries : ℕ) (exc : Exc) (attempt : ℕ)
    → ingestion_failure_is_terminal max_retries exc attempt ≡ false
    → (attempt < max_retries) × (is_transient_error exc ≡ true) × (is_client_error exc ≡ false)
unfolding ingestion_failure_is_terminal is_retryable_ingestion_failure
not_terminal_lem max_retries exc attempt h = ground arith
