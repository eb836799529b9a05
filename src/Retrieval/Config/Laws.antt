-- ===== src/Retrieval/Config/Laws.antt =====
-- What holds of resolved retrieval settings (`resolve_retrieval_config` of
-- backend/services/retrieval_config.py).
use mathlib.Core.Path.{subst}
use chatvector_ai.Prelude.{
  is_some, ℕ, ◌≤◌, ◌≡◌, refl, Bool, true, not, ◌&&◌, ◌||◌, Option, none, some, List, arith,
  Bool-cases, inl, inr, ltb,
}
use chatvector_ai.Prelude.Int.{ℤ, pos, negsuc}
use chatvector_ai.Prelude.Dict.{Dict}
use chatvector_ai.Text.{codes, same_text}
use chatvector_ai.History.Config.{Result, ok, invalid, ◌>>=◌}
use chatvector_ai.History.Config.Bounds.{>>=-eq-ok, Ensures}
use chatvector_ai.Retrieval.Fields.{
  to_str, FieldValue, RequestFields, match_count_key, scope_key, reranker_provider_key,
  query_transformation_enabled_key, query_transformation_strategy_key, metadata_filter_key,
}
use chatvector_ai.Retrieval.Config.{
  to_int, check_count, check_scope, source_of, normalize, to_str, pick, is_one_of, valid_scopes,
  valid_strategies, resolve_count, resolve_scope, resolve_provider, not_none, resolve_strategy,
  resolve_enabled, resolve_query_transformation, resolve_filter, resolve_retrieval_config, to_bool,
}
use chatvector_ai.Retrieval.Config.Settings.{
  Source, RetrievalProcessDefaults, Transformation, EffectiveRetrievalConfig, env,
}

-- A picked value as a flag.
abbrev pub picked_flag : Option (FieldValue × Source) → Option Bool
picked_flag none = none
picked_flag (some (v, source)) = some (to_bool v)

abbrev pub is_none_strategy : List ℕ → Bool
is_none_strategy = same_text (codes "none")

-- Whether the transformation is on: an explicit flag counts, else an explicit strategy other than
-- "none" turns it on, else the process decides.
abbrev pub wants_transformation : Option Bool → Bool → Bool → Bool
wants_transformation (some flag) asked env_enabled = flag
wants_transformation none asked env_enabled = asked || env_enabled

-- Model A. A strategy is applied exactly when the transformation is on and the strategy is not
-- "none", and a strategy that is not the process's is a known one.
pub record IsModelA (enabled strategy : Option (FieldValue × Source)) (env_enabled : Bool)
    (t : Transformation) : Type 0 where
  pub on :
      t.enabled
      ≡ wants_transformation
          (picked_flag enabled)
          (is_some strategy && not (is_none_strategy t.strategy))
          env_enabled
  pub applied : t.apply_strategy ≡ (t.enabled && not (is_none_strategy t.strategy))
  pub known : (not (is_some strategy) || is_one_of valid_strategies t.strategy) ≡ true

Ensures->>= {ℓ κ μ ν} :
    {A : Type ℓ} {B : Type κ} {P : A → Type μ} (Q : B → Type ν) (m : Result A) (f : A → Result B)
    → Ensures P m
    → ((a : A) → P a → Ensures Q (f a))
    → Ensures Q (m >>= f)
Ensures->>= Q (ok a) f p q = q a p
Ensures->>= Q (invalid name) f p q = tt

resolve_strategy-known :
    (strategy : Option (FieldValue × Source)) (env_strategy : List ℕ)
    → Ensures
        (λ s. (not (is_some strategy) || is_one_of valid_strategies s.0) ≡ true)
        (resolve_strategy strategy env_strategy)
unfolding resolve_strategy
resolve_strategy-known none env_strategy = refl
resolve_strategy-known (some (v, source)) env_strategy =
    elim (Bool-cases (is_one_of valid_strategies (normalize (to_str v)))) [
      | inl valid ↦ rw valid valid
      | inr unknown ↦ rw unknown tt
    ]

resolve_enabled_lem :
    (enabled strategy : Option (FieldValue × Source)) (env_enabled is_none : Bool)
    → let (on, source, applied) =
        resolve_enabled enabled (source_of strategy) env_enabled is_none in
      (on
        ≡ wants_transformation (picked_flag enabled) (is_some strategy && not is_none) env_enabled)
      × (applied ≡ (on && not is_none))
unfolding resolve_enabled source_of
resolve_enabled_lem (some (v, source)) strategy env_enabled is_none =
    elim (Bool-cases (to_bool v)) [ inl on ↦ rw on (refl, refl) | inr off ↦ rw off (refl, refl) ]
resolve_enabled_lem none (some (v, source)) env_enabled is_none = ground arith
resolve_enabled_lem none none env_enabled is_none = ground arith

resolve_query_transformation-IsModelA :
    (enabled strategy : Option (FieldValue × Source)) (env_enabled : Bool) (env_strategy : List ℕ)
    → Ensures
        (IsModelA enabled strategy env_enabled)
        (resolve_query_transformation enabled strategy env_enabled env_strategy)
unfolding resolve_query_transformation
resolve_query_transformation-IsModelA enabled strategy env_enabled env_strategy =
    Ensures->>= _ (resolve_strategy strategy env_strategy) _
      (resolve_strategy-known strategy env_strategy)
      (λ s k.
        let (on, applied) =
          resolve_enabled_lem enabled strategy env_enabled (is_none_strategy s.0) in
        record { on = on; applied = applied; known = k })

check_count-InRange : (n : Option ℤ) → Ensures (λ k. (1 ≤ k) × (k ≤ 20)) (check_count n)
unfolding check_count
check_count-InRange none = tt
check_count-InRange (some (negsuc n)) = tt
check_count-InRange (some (pos n)) = elim (Bool-cases (ltb n 1 || ltb 20 n)) [
  | inl outside ↦ rw outside tt
  | inr inside ↦ rw inside (ground (arith, inside), ground (arith, inside))
]

resolve_count-InRange :
    (o : Option (FieldValue × Source)) (default : ℕ)
    → Ensures (λ r. (1 ≤ r.0) × (r.0 ≤ 20)) (resolve_count o default)
unfolding resolve_count
resolve_count-InRange none default =
    Ensures->>= _ (check_count (some (pos default))) _ (check_count-InRange (some (pos default)))
      (λ n h. h)
resolve_count-InRange (some (v, source)) default =
    Ensures->>= _ (check_count (to_int v)) _ (check_count-InRange (to_int v)) (λ n h. h)

check_scope-valid :
    (scope : List ℕ) (source : Source)
    → Ensures (λ r. is_one_of valid_scopes r.0 ≡ true) (check_scope scope source)
unfolding check_scope
check_scope-valid scope source = elim (Bool-cases (is_one_of valid_scopes scope)) [
  | inl valid ↦ rw valid valid
  | inr unknown ↦ rw unknown tt
]

resolve_scope-valid :
    (o : Option (FieldValue × Source)) (default : List ℕ)
    → Ensures (λ r. is_one_of valid_scopes r.0 ≡ true) (resolve_scope o default)
unfolding resolve_scope
resolve_scope-valid none default = check_scope-valid (normalize default) env
resolve_scope-valid (some (v, source)) default = check_scope-valid (normalize (to_str v)) source

resolve_provider-valid :
    (providers : List (List ℕ)) (o : Option (FieldValue × Source)) (default : List ℕ)
    → Ensures
        (λ r. (not (is_some o) || is_one_of providers r.0) ≡ true)
        (resolve_provider providers o default)
unfolding resolve_provider
resolve_provider-valid providers none default = refl
resolve_provider-valid providers (some (v, source)) default =
    elim (Bool-cases (is_one_of providers (normalize (to_str v)))) [
      | inl valid ↦ rw valid valid
      | inr unknown ↦ rw unknown tt
    ]

-- What is ensured of a result holds where it is one.
ensured {ℓ κ} : {A : Type ℓ} (P : A → Type κ) (m : Result A) {a : A} → m ≡ ok a → Ensures P m → P a
ensured P m h p = subst (Ensures P) h p

abbrev pub transformation_of : {Filter : Type 0} → EffectiveRetrievalConfig Filter → Transformation
transformation_of e = record {
  enabled = e.query_transformation_enabled;
  enabled_source = e.sources.transformation_enabled_source;
  strategy = e.query_transformation_strategy;
  strategy_source = e.sources.transformation_strategy_source;
  apply_strategy = e.apply_query_strategy;
}

module _ {Filter : Type 0} (validate : FieldValue → Option Filter) (providers : List (List ℕ))
    (fields : RequestFields) (defaults : RetrievalProcessDefaults)
    (preset_fields : Dict FieldValue) where
  pub record IsResolved (e : EffectiveRetrievalConfig Filter) : Type 0 where
    pub count : (1 ≤ e.match_count) × (e.match_count ≤ 20)
    pub scope : is_one_of valid_scopes e.scope ≡ true
    pub provider :
        (not (is_some (pick reranker_provider_key fields preset_fields))
          || is_one_of providers e.reranker_provider)
        ≡ true
    pub transformation :
        IsModelA
          (not_none (pick query_transformation_enabled_key fields preset_fields))
          (not_none (pick query_transformation_strategy_key fields preset_fields))
          defaults.query_transformation_enabled
          (transformation_of e)

  -- Whenever settings are resolved, the match count is from 1 to 20, the scope is one of the two, a
  -- provider that the request or the preset names is a known one, and the transformation follows Model A: an explicit flag
  -- counts, else an explicit strategy other than "none" turns it on, else the process decides; a strategy is
  -- applied exactly when the transformation is on and the strategy is not "none".
  pub resolve_retrieval_config-IsResolved :
      (name : Option (List ℕ)) (e : EffectiveRetrievalConfig Filter)
      → resolve_retrieval_config validate providers fields defaults preset_fields name ≡ ok e
      → IsResolved e
  unfolding resolve_retrieval_config
  resolve_retrieval_config-IsResolved name e h =
      let (c, hc, h1) =
        >>=-eq-ok (resolve_count (pick match_count_key fields preset_fields) defaults.match_count) _
          h in
      let (s, hs, h2) =
        >>=-eq-ok (resolve_scope (pick scope_key fields preset_fields) defaults.scope) _ h1 in
      let (p, hp, h3) =
        >>=-eq-ok
          (resolve_provider providers (pick reranker_provider_key fields preset_fields)
            defaults.reranker_provider)
          _ h2 in
      let (t, ht, h4) =
        >>=-eq-ok
          (resolve_query_transformation
            (not_none (pick query_transformation_enabled_key fields preset_fields))
            (not_none (pick query_transformation_strategy_key fields preset_fields))
            defaults.query_transformation_enabled defaults.query_transformation_strategy)
          _ h3 in
      let (f, hf, h5) =
        >>=-eq-ok (resolve_filter validate (pick metadata_filter_key fields preset_fields)) _ h4 in
      subst (Ensures IsResolved) h5 (record {
        count = ensured _ _ hc (
            resolve_count-InRange (pick match_count_key fields preset_fields) defaults.match_count);
        scope =
            ensured _ _ hs
              (resolve_scope-valid (pick scope_key fields preset_fields) defaults.scope);
        provider = ensured _ _ hp (
            resolve_provider-valid providers (pick reranker_provider_key fields preset_fields)
              defaults.reranker_provider);
        transformation = ensured _ _ ht (
            resolve_query_transformation-IsModelA
              (not_none (pick query_transformation_enabled_key fields preset_fields))
              (not_none (pick query_transformation_strategy_key fields preset_fields))
              defaults.query_transformation_enabled defaults.query_transformation_strategy);
      })
