-- ===== src/History/Config/Bounds.antt =====
-- The ranges that `resolve_history_config` guarantees (backend/services/history_config.py), when it
-- fails, and what follows for the session load and the resolution policy.
use Prim.Native.Nat.{zero-le}
use chatvector_ai.Prelude.{
  ◌≢◌, ◌↔◌, refl, ℕ, ◌≤◌, String, ◌≡◌, refl, ◌≢◌, true, Option, none, some, arith, ◌↔◌,
}
use chatvector_ai.Prelude.Int.{ℤ, pos}
use chatvector_ai.History.Fields.{
  PyValue, to_int, Layer, given, retrieval_history_window, generation_history_window,
  max_generation_history_chars,
}
use chatvector_ai.History.Config.{
  env, ◌>>=◌, Result, ok, invalid, window_of, chars_of, HistoryProcessDefaults,
  EffectiveHistoryConfig, max_history_window, max_history_chars, bounded_window, bounded_chars,
  resolve_window, resolve_chars, resolve_history_config, Source,
}

-- An optional budget in the range that requests may ask for.
abbrev pub InRange : Option ℕ → Type 0
InRange none = Unit
InRange (some n) = (1 ≤ n) × (n ≤ max_history_chars)

-- A value that the request gives, if it gives one, converts to an integer in the range.
abbrev pub Accepts : ℕ → ℕ → Option PyValue → Type 0
Accepts lo hi none = Unit
Accepts lo hi (some v) = (n : ℕ) × (to_int v ≡ some (pos n)) × (lo ≤ n) × (n ≤ hi)

-- What the request must satisfy for its settings to be resolved.
pub record IsAcceptable (fields : Layer) : Type 0 where
  pub retrieval : Accepts 0 max_history_window (given retrieval_history_window fields)
  pub generation : Accepts 0 max_history_window (given generation_history_window fields)
  pub chars : Accepts 1 max_history_chars (given max_generation_history_chars fields)

abbrev pub Ensures {ℓ κ} : {A : Type ℓ} → (A → Type κ) → Result A → Type κ
Ensures P (ok a) = P a
Ensures P (invalid name) = Unit

resolve_window-le :
    (name : String) (fields : Layer) (d : ℤ)
    → Ensures (λ r. r.0 ≤ max_history_window) (resolve_window name fields d)
unfolding resolve_window bounded_window
resolve_window-le name fields d = ground arith

resolve_chars-InRange : (fields : Layer) → Ensures (λ r. InRange r.0) (resolve_chars fields)
unfolding resolve_chars bounded_chars
resolve_chars-InRange fields = ground arith

-- Whenever the settings are resolved, both windows are at most 100 and a character budget, if there
-- is one, lies from 1 to 1,000,000, whatever the process defaults are.
pub resolve_history_config-InRange :
    (fields : Layer) (defaults : HistoryProcessDefaults) (e : EffectiveHistoryConfig)
    → resolve_history_config fields defaults ≡ ok e
    → (e.retrieval_window ≤ max_history_window)
      × (e.generation_window ≤ max_history_window)
      × InRange e.generation_chars
unfolding resolve_history_config
resolve_history_config-InRange fields defaults e h = ground (
  arith,
  resolve_window-le retrieval_history_window fields defaults.retrieval_window,
  resolve_window-le generation_history_window fields defaults.generation_window,
  resolve_chars-InRange fields,
)

pub >>=-eq-ok {ℓ κ} :
    {X : Type ℓ} {Y : Type κ} (step : Result X) (rest : X → Result Y) {y : Y}
    → (step >>= rest) ≡ ok y
    → (x : X) × (step ≡ ok x) × (rest x ≡ ok y)
>>=-eq-ok (invalid name) rest h = cc
>>=-eq-ok (ok x) rest h = (x, refl, h)

eq_ok_of_ne_invalid {ℓ} :
    {A : Type ℓ} (m : Result A) → ((name : String) → m ≢ invalid name) → (a : A) × (m ≡ ok a)
eq_ok_of_ne_invalid (ok a) h = (a, refl)
eq_ok_of_ne_invalid (invalid name) h = absurd (h name refl)

bounded_window-to_int :
    (name : String) (v : PyValue) (k : ℕ)
    → bounded_window name v true ≡ ok k
    → (to_int v ≡ some (pos k)) × (k ≤ max_history_window)
unfolding bounded_window
bounded_window-to_int name v k h = ground arith

bounded_chars-to_int :
    (v : PyValue) (c : Option ℕ)
    → bounded_chars v ≡ ok c
    → (k : ℕ) × (to_int v ≡ some (pos k)) × (1 ≤ k) × (k ≤ max_history_chars)
unfolding bounded_chars
bounded_chars-to_int v (some k) h = (k, ground arith, ground arith, ground arith)
bounded_chars-to_int v none h = absurd (ground arith)

window_of-Accepts :
    (name : String) (o : Option PyValue) (d : ℤ) (r : ℕ × Source)
    → window_of name o d ≡ ok r
    → Accepts 0 max_history_window o
unfolding window_of
window_of-Accepts name none d r h = tt
window_of-Accepts name (some v) d r h =
    let (k, e, _) = >>=-eq-ok (bounded_window name v true) _ h in
    let (converts, le) = bounded_window-to_int name v k e in (k, converts, zero-le, le)

chars_of-Accepts :
    (o : Option PyValue) (r : Option ℕ × Source) → chars_of o ≡ ok r → Accepts 1 max_history_chars o
unfolding chars_of
chars_of-Accepts none r h = tt
chars_of-Accepts (some v) r h =
    let (c, e, _) = >>=-eq-ok (bounded_chars v) _ h in bounded_chars-to_int v c e

window_of-total :
    (name : String) (o : Option PyValue) (d : ℤ)
    → Accepts 0 max_history_window o
    → (r : ℕ × Source) × (window_of name o d ≡ ok r)
unfolding window_of bounded_window to_int
window_of-total name none d a = eq_ok_of_ne_invalid (window_of name none d) (λ n. ground arith)
window_of-total name (some v) d a =
    eq_ok_of_ne_invalid (window_of name (some v) d) (λ n. ground arith)

chars_of-total :
    (o : Option PyValue)
    → Accepts 1 max_history_chars o
    → (r : Option ℕ × Source) × (chars_of o ≡ ok r)
unfolding chars_of bounded_chars
chars_of-total none a = ((none, env), refl)
chars_of-total (some v) a = eq_ok_of_ne_invalid (chars_of (some v)) (λ n. ground arith)

-- The settings of a request are resolved exactly when each window that it gives converts to an
-- integer from 0 to 100 and the budget that it gives, to one from 1 to 1,000,000. The process
-- defaults play no part: those out of range are clamped.
pub resolve_history_config_iff :
    (fields : Layer) (defaults : HistoryProcessDefaults)
    → ((e : EffectiveHistoryConfig) × (resolve_history_config fields defaults ≡ ok e))
      ↔ IsAcceptable fields
unfolding resolve_history_config resolve_window resolve_chars
resolve_history_config_iff fields defaults = (
  λ (e, h).
      let (r, hr, rest) =
        >>=-eq-ok (resolve_window retrieval_history_window fields defaults.retrieval_window) _ h in
      let (g, hg, rest') =
        >>=-eq-ok (resolve_window generation_history_window fields defaults.generation_window) _
          rest in
      let (c, hc, _) = >>=-eq-ok (resolve_chars fields) _ rest' in
      record {
        retrieval =
            window_of-Accepts retrieval_history_window (given retrieval_history_window fields)
              defaults.retrieval_window r hr;
        generation =
            window_of-Accepts generation_history_window (given generation_history_window fields)
              defaults.generation_window g hg;
        chars = chars_of-Accepts (given max_generation_history_chars fields) c hc;
      },
  λ a.
      let r =
        window_of-total retrieval_history_window (given retrieval_history_window fields)
          defaults.retrieval_window a.retrieval in
      let g =
        window_of-total generation_history_window (given generation_history_window fields)
          defaults.generation_window a.generation in
      let c = chars_of-total (given max_generation_history_chars fields) a.chars in
      eq_ok_of_ne_invalid (resolve_history_config fields defaults)
        (λ n. ground (arith, r.1, g.1, c.1)),
)
