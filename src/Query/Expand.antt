-- ===== src/Query/Expand.antt =====
-- What the alternatives of a question are.
use chatvector_ai.Query.{
  Prompt, Provider, casefold, llm_transform, is_seen, strip_list_marker, collect,
  collect_unique_alternatives, expand_query,
}
use chatvector_ai.Chunking.Lines.{non_empty_lines, splitlines}
use chatvector_ai.Prelude.{
  ◌≡◌, refl, ◌≤◌, arith, zero, suc, ℕ, false, List, [], ◌∷◌, length, is_empty, Bool-cases,
  Option-cases, inl, inr,
}

-- None is empty, and each differs under `casefold` from what is seen and from those before it.
abbrev pub Fresh : List (List ℕ) → List (List ℕ) → Type 0
Fresh seen [] = Unit
Fresh seen (a ∷ alternatives) =
    (is_empty a ≡ false)
    × (is_seen (casefold a) seen ≡ false)
    × Fresh (casefold a ∷ seen) alternatives

collect-Fresh : (left : ℕ) (seen lines : List (List ℕ)) → Fresh seen (collect left seen lines)
unfolding collect
collect-Fresh zero seen lines = tt
collect-Fresh (suc left) seen [] = tt
collect-Fresh (suc left) seen (line ∷ lines) =
    elim (Bool-cases (is_empty (strip_list_marker line))) [
      | inl empty ↦ rw empty (collect-Fresh (suc left) seen lines)
      | inr filled ↦
          rw filled (elim (Bool-cases (is_seen (casefold (strip_list_marker line)) seen)) [
            | inl old ↦ rw old (collect-Fresh (suc left) seen lines)
            | inr new ↦
                rw new
                  (filled, new, collect-Fresh left (casefold (strip_list_marker line) ∷ seen) lines)
          ])
    ]

length-collect : (left : ℕ) (seen lines : List (List ℕ)) → length (collect left seen lines) ≤ left
unfolding collect
length-collect zero seen lines = omega arith
length-collect (suc left) seen [] = omega arith
length-collect (suc left) seen (line ∷ lines) = ground (
  arith,
  length-collect (suc left) seen lines,
  length-collect left (casefold (strip_list_marker line) ∷ seen) lines,
)

-- Whatever the model answers, an expansion is the question itself with at most two alternatives:
-- none is empty, and no two of the three are the same up to case.
pub expand_query_lem :
    (generate : Provider) (question : List ℕ)
    → (alternatives : List (List ℕ)) × (expand_query generate question ≡ question ∷ alternatives)
      × (length alternatives ≤ 2)
      × Fresh (casefold question ∷ []) alternatives
unfolding expand_query collect_unique_alternatives
expand_query_lem generate question =
    elim (Option-cases (llm_transform generate (Prompt.expand question))) [
      | inl failed ↦ rw (failed, expand_query) ([], refl, omega arith, tt)
      | inr (raw, answered) ↦
          rw (answered, expand_query)
            (
              collect 2 (casefold question ∷ []) (non_empty_lines (splitlines raw)),
              refl,
              length-collect 2 (casefold question ∷ []) (non_empty_lines (splitlines raw)),
              collect-Fresh 2 (casefold question ∷ []) (non_empty_lines (splitlines raw)),
            )
    ]
