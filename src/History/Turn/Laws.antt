-- ===== src/History/Turn/Laws.antt =====
-- What one turn's plan promises (backend/services/history_config.py): what it counts, when a
-- resolution may run, and that the session load is large enough for it.
use mathlib.Core.Path.{subst}
use chatvector_ai.Prelude.{
  ap, sym, ◌∙◌, is_some, ℕ, ◌+◌, ◌≤◌, ◌≡◌, inl, inr, Bool, false, not, ◌&&◌, ◌||◌, Option, none,
  some, List, [], arith, length, min, max, take_last, if◌then◌else◌,
}
use chatvector_ai.Prelude.Int.{ℤ, clamp_zero}
use chatvector_ai.History.Fields.{Layer, PyValue, given, to_bool, history_aware_retrieval}
use chatvector_ai.History.Config.{
  ok, HistoryProcessDefaults, EffectiveHistoryConfig, max_history_window, resolve_history_config,
  build_resolution_policy, history_load_limit, is_request, resolve_aware,
}
use chatvector_ai.History.Config.Bounds.{resolve_history_config-InRange, >>=-eq-ok}
use chatvector_ai.History.Windows.{Message, slice_history, trim_generation_history}
use chatvector_ai.History.Windows.Trim.{
  slice_history_newest, slice_history-take_last, chars, trim_generation_history_budget,
}
use chatvector_ai.History.Turn.{
  TurnHistoryPlan, prepare_turn_history, plan_turn, loaded_messages, or_none,
}

-- A resolution runs exactly when the caller does not skip it and either history-aware retrieval is
-- on, or it is off by the process default alone and query transformation is enabled globally. The
-- gate applies only in the first case, and a reason for skipping is given exactly when it does not run.
pub build_resolution_policy_lem :
    (e : EffectiveHistoryConfig) (skip global_enabled : Bool)
    → let p = build_resolution_policy e skip global_enabled in
      (p.run
        ≡ (not skip && (e.aware || (not (is_request e.sources.aware_source) && global_enabled))))
      × (p.use_gate ≡ (p.run && e.aware))
      × (is_some p.forced_skip_reason ≡ not p.run)
unfolding build_resolution_policy
build_resolution_policy_lem e skip global_enabled = ground arith

-- A request that turns history-aware retrieval off never has its question resolved, whatever the
-- process defaults and the global flag are.
pub prepare_turn_history_disabled :
    (history : Option (List Message)) (fields : Layer) (skip apply global_enabled : Bool)
    (defaults : HistoryProcessDefaults) (v : PyValue) (plan : TurnHistoryPlan)
    → given history_aware_retrieval fields ≡ some v
    → to_bool v ≡ false
    → prepare_turn_history history fields skip apply global_enabled defaults ≡ ok plan
    → (plan.policy.run ≡ false)
      × (plan.transform_history ≡ none)
      × (plan.observation.considered ≡ [])
unfolding prepare_turn_history build_resolution_policy resolve_history_config resolve_aware
prepare_turn_history_disabled history fields skip apply global_enabled defaults v plan g b h =
    ground arith

length-slice-le :
    (history : List Message) (window : ℕ) → length (slice_history history window) ≤ length history
length-slice-le history window = omega (arith, (slice_history_newest history window).1)

length-trim-le :
    (messages : List Message) (b : Option ℕ)
    → length (trim_generation_history messages b).0 ≤ length messages
unfolding trim_generation_history
length-trim-le messages none = omega arith
length-trim-le messages (some b) = elim (trim_generation_history_budget messages b) [
  | inl (_, kept, _) ↦ rw kept (omega arith)
  | inr (_, _, le) ↦ le
]

abbrev Counts : List Message → Bool → TurnHistoryPlan → Type 0
Counts loaded apply plan =
    let o = plan.observation in
    let total = length loaded in
    (o.generation_messages_used ≡ length plan.generation_history)
    × (o.retrieval_messages_used ≡ length o.considered)
    × (plan.transform_history ≡ (if plan.policy.run then or_none o.considered else none))
    × (o.retrieval_messages_used + o.retrieval_messages_dropped
        ≡ (if plan.policy.run then total else 0))
    × (o.generation_messages_used + o.generation_messages_dropped ≡ (if apply then total else 0))

plan_turn-Counts :
    (loaded : List Message) (skip apply global_enabled : Bool) (e : EffectiveHistoryConfig)
    → Counts loaded apply (plan_turn loaded skip apply global_enabled e)
unfolding plan_turn
plan_turn-Counts loaded skip apply global_enabled e = ground (
  arith,
  length-slice-le loaded e.retrieval_window,
  length-slice-le loaded e.generation_window,
  length-trim-le (slice_history loaded e.generation_window) e.generation_chars,
)

ok-injective {ℓ} : {A : Type ℓ} {a b : A} → ok a ≡ ok b → a ≡ b
ok-injective h = cc

plan_turn-chars-le :
    (loaded : List Message) (skip apply global_enabled : Bool) (e : EffectiveHistoryConfig) (b : ℕ)
    → e.generation_chars ≡ some b
    → chars (plan_turn loaded skip apply global_enabled e).generation_history ≤ b
unfolding plan_turn
plan_turn-chars-le loaded skip apply global_enabled e b h =
    ground (arith, trim_generation_history_budget (slice_history loaded e.generation_window) b)

-- The counts of a turn: what it used are the lengths of what it hands on, and used and dropped
-- together are the messages that were loaded, for retrieval if a resolution runs, and for
-- generation if the generation history applies; where they do not, both counts are 0.
pub prepare_turn_history_counts :
    (history : Option (List Message)) (fields : Layer) (skip apply global_enabled : Bool)
    (defaults : HistoryProcessDefaults) (plan : TurnHistoryPlan)
    → prepare_turn_history history fields skip apply global_enabled defaults ≡ ok plan
    → let o = plan.observation in
      let total = length (loaded_messages history) in
      (o.generation_messages_used ≡ length plan.generation_history)
      × (o.retrieval_messages_used ≡ length o.considered)
      × (plan.transform_history ≡ (if plan.policy.run then or_none o.considered else none))
      × (o.retrieval_messages_used + o.retrieval_messages_dropped
          ≡ (if plan.policy.run then total else 0))
      × (o.generation_messages_used + o.generation_messages_dropped ≡ (if apply then total else 0))
unfolding prepare_turn_history
prepare_turn_history_counts history fields skip apply global_enabled defaults plan h =
    let (e, resolved, planned) = >>=-eq-ok (resolve_history_config fields defaults) _ h in
    subst (Counts (loaded_messages history) apply) (ok-injective planned)
      (plan_turn-Counts (loaded_messages history) skip apply global_enabled e)

-- The generation history stays within the budget that the request gives.
pub prepare_turn_history-chars-le :
    (history : Option (List Message)) (fields : Layer) (skip apply global_enabled : Bool)
    (defaults : HistoryProcessDefaults) (plan : TurnHistoryPlan) (b : ℕ)
    → prepare_turn_history history fields skip apply global_enabled defaults ≡ ok plan
    → plan.observation.generation_chars ≡ some b
    → chars plan.generation_history ≤ b
unfolding prepare_turn_history
prepare_turn_history-chars-le history fields skip apply global_enabled defaults plan b h e =
    let (c, resolved, planned) = >>=-eq-ok (resolve_history_config fields defaults) _ h in
    rw (← ok-injective planned) (
      plan_turn-chars-le (loaded_messages history) skip apply global_enabled c b
        (ap (λ (p : TurnHistoryPlan). p.observation.generation_chars) (ok-injective planned) ∙ e))

-- A session load asks for at most 100 messages, and for enough of them: with the newest of that
-- number loaded, both windows of the resolved settings hold what they would hold of the whole history.
pub history_load_limit_lem :
    (fields : Layer) (defaults : HistoryProcessDefaults) (floor : ℤ) (limit : ℕ)
    (e : EffectiveHistoryConfig) (history : List Message)
    → history_load_limit fields defaults floor ≡ ok limit
    → resolve_history_config fields defaults ≡ ok e
    → (limit ≤ max_history_window)
      × (slice_history (take_last limit history) e.retrieval_window
          ≡ slice_history history e.retrieval_window)
      × (slice_history (take_last limit history) e.generation_window
          ≡ slice_history history e.generation_window)
unfolding history_load_limit
history_load_limit_lem fields defaults floor limit e history h r =
    let (c, resolved, needed) = >>=-eq-ok (resolve_history_config fields defaults) _ h in
    let same : c ≡ e = ok-injective (sym resolved ∙ r) in
    let bounds = resolve_history_config-InRange fields defaults e r in
    let n : min max_history_window
          (max (max (clamp_zero floor) e.retrieval_window) e.generation_window)
        ≡ limit =
      subst
        (λ (z : EffectiveHistoryConfig).
          min max_history_window
            (max (max (clamp_zero floor) z.retrieval_window) z.generation_window)
          ≡ limit)
        same (ok-injective needed) in
    (
      omega arith,
      slice_history-take_last history limit e.retrieval_window (omega (arith, bounds.0)),
      slice_history-take_last history limit e.generation_window (omega (arith, bounds.1)),
    )
