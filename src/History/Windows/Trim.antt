-- ===== src/History/Windows/Trim.antt =====
-- What `slice_history` and `trim_generation_history` keep (backend/services/history_config.py).
use mathlib.Core.Path.{subst}
use mathlib.Core.List.{reverse-reverse, append-nil, append_assoc, reverse-append}
use chatvector_ai.Prelude.{
  none, some, Bool-cases, length-reverse, inr, inl, ◌∙◌, Bool-cases, ℕ, zero, suc, ◌+◌, ◌-◌, ◌≤◌,
  ◌<◌, ◌≡◌, refl, sym, ap, ◌⊎◌, inl, Bool, true, false, List, [], ◌∷◌, ◌++◌, reverse, arith, ◌==◌,
  leb, length, take, drop, take_last, take-append-drop, length-take_last, min, if◌then◌else◌,
}
use chatvector_ai.History.Windows.{
  finish_trim, Option, some, trim_generation_history, Message, content_of, slice_history,
  trim_message, trim_loop,
}

drop-length {ℓ} : {A : Type ℓ} (n : ℕ) (xs : List A) → length xs ≤ n → drop n xs ≡ []
drop-length zero [] h = refl
drop-length zero (x ∷ xs) h = absurd (omega arith)
drop-length (suc n) [] h = refl
drop-length (suc n) (x ∷ xs) h = drop-length n xs (omega arith)

slice_history-eq-take_last :
    (history : List Message) (window : ℕ) → slice_history history window ≡ take_last window history
unfolding slice_history
slice_history-eq-take_last [] window = sym (drop-length (0 - window) [] (omega arith))
slice_history-eq-take_last (m ∷ ms) zero =
    sym (drop-length (suc (length ms) - 0) (m ∷ ms) (omega arith))
slice_history-eq-take_last (m ∷ ms) (suc w) = ground arith

-- The slice is the end of the history: what comes before it, then the slice, is the history, and
-- it has `window` messages, or all where there are fewer.
pub slice_history_newest :
    (history : List Message) (window : ℕ)
    → (take (length history - window) history ++ slice_history history window ≡ history)
      × (length (slice_history history window) ≡ min window (length history))
slice_history_newest history window =
    rw (slice_history-eq-take_last history window)
      (take-append-drop (length history - window) history, length-take_last window history)

drop-nil {ℓ} : {A : Type ℓ} (n : ℕ) → drop {A = A} n [] ≡ []
drop-nil zero = refl
drop-nil (suc n) = refl

drop-drop {ℓ} : {A : Type ℓ} (i j : ℕ) (xs : List A) → drop i (drop j xs) ≡ drop (j + i) xs
drop-drop i zero xs = let e : 0 + i ≡ i = omega arith in rw e
drop-drop i (suc j) [] = drop-nil i ∙ sym (drop-nil (suc j + i))
drop-drop i (suc j) (x ∷ xs) =
    let e : suc j + i ≡ suc (j + i) = omega arith in rw e (drop-drop i j xs)

-- Where only the newest `limit` messages are loaded, a window within the limit has the same slice.
pub slice_history-take_last :
    (history : List Message) (limit window : ℕ)
    → window ≤ limit
    → slice_history (take_last limit history) window ≡ slice_history history window
slice_history-take_last history limit window h =
    rw
      (
        slice_history-eq-take_last (take_last limit history) window,
        slice_history-eq-take_last history window,
        length-take_last limit history,
        drop-drop (min limit (length history) - window) (length history - limit) history,
      )
      (ap (λ n. drop n history) (omega arith))

-- The characters that `total` counts.
abbrev pub chars : List Message → ℕ
chars [] = 0
chars (m ∷ ms) = length (content_of m) + chars ms

chars-append : (xs ys : List Message) → chars (xs ++ ys) ≡ chars xs + chars ys
chars-append [] ys = omega arith
chars-append (m ∷ ms) ys = omega (arith, chars-append ms ys)

chars-reverse : (xs : List Message) → chars (reverse xs) ≡ chars xs
chars-reverse [] = refl
chars-reverse (m ∷ ms) =
    rw (reverse-append (m ∷ []) ms)
      (omega (arith, chars-append (reverse ms) (m ∷ []), chars-reverse ms))

-- The loop without its accumulators: what a budget keeps of the messages, newest first.
fit : ℕ → List Message → List Message × Bool
fit budget [] = ([], false)
fit budget (m ∷ ms) =
    let (kept, truncated) = fit (budget - length (content_of m)) ms in
    if budget == 0
    then ([], true)
    else if leb (length (content_of m)) budget
    then (m ∷ kept, truncated)
    else (trim_message budget m ∷ [], true)

chars-trim_message :
    (budget : ℕ) (m : Message)
    → budget < length (content_of m)
    → chars (trim_message budget m ∷ []) ≡ budget
unfolding trim_message
chars-trim_message budget m h = omega (arith, length-take_last budget (content_of m))

trim_loop-eq-fit :
    (max_chars : ℕ) (ms kept : List Message) (total : ℕ)
    → trim_loop max_chars ms kept total
      ≡ (kept ++ (fit (max_chars - total) ms).0, (fit (max_chars - total) ms).1)
unfolding trim_loop fit
trim_loop-eq-fit max_chars [] kept total = rw append-nil
trim_loop-eq-fit max_chars (m ∷ ms) kept total =
    let e : max_chars - (total + length (content_of m))
        ≡ max_chars - total - length (content_of m) =
      omega arith in
    ground (
      arith,
      e,
      trim_loop-eq-fit max_chars ms (kept ++ m ∷ []) (total + length (content_of m)),
      append_assoc kept (m ∷ []) (fit (max_chars - total - length (content_of m)) ms).0,
      append-nil kept,
    )

-- Either everything fits and is kept, or the budget is used up to the last character.
fit_lem :
    (budget : ℕ) (ms : List Message)
    → let (kept, truncated) = fit budget ms in
      ((truncated ≡ false) × (kept ≡ ms) × (chars ms ≤ budget))
      ⊎ ((truncated ≡ true) × (chars kept ≡ budget))
unfolding fit
fit_lem budget [] = inl (refl, refl, omega arith)
fit_lem budget (m ∷ ms) =
    ground (arith, fit_lem (budget - length (content_of m)) ms, chars-trim_message budget m)

length-fit : (budget : ℕ) (ms : List Message) → length (fit budget ms).0 ≤ length ms
unfolding fit
length-fit budget [] = omega arith
length-fit budget (m ∷ ms) = ground (arith, length-fit (budget - length (content_of m)) ms)

-- `k` is `m` with its content cut to a tail.
abbrev pub IsTail : Message → Message → Type 0
IsTail k m = (before : List ℕ) × (before ++ content_of k ≡ content_of m) × (k.rest ≡ m.rest)

-- The first list is a beginning of the second; its last message may be cut to a tail.
abbrev pub IsNewest : List Message → List Message → Type 0
IsNewest [] ms = Unit
IsNewest (k ∷ ks) [] = ⊥
IsNewest (k ∷ ks) (m ∷ ms) = ((k ≡ m) × IsNewest ks ms) ⊎ ((ks ≡ []) × IsTail k m)

IsNewest-refl : (ms : List Message) → IsNewest ms ms
IsNewest-refl [] = tt
IsNewest-refl (m ∷ ms) = inl (refl, IsNewest-refl ms)

trim_message-IsTail : (budget : ℕ) (m : Message) → IsTail (trim_message budget m) m
unfolding trim_message
trim_message-IsTail budget m = (
  take (length (content_of m) - budget) (content_of m),
  take-append-drop (length (content_of m) - budget) (content_of m),
  refl,
)

fit-IsNewest : (budget : ℕ) (ms : List Message) → IsNewest (fit budget ms).0 ms
unfolding fit
fit-IsNewest budget [] = tt
fit-IsNewest budget (m ∷ ms) = elim (Bool-cases (budget == 0)) [
  | inl spent ↦ rw spent tt
  | inr more ↦ rw more (elim (Bool-cases (leb (length (content_of m)) budget)) [
    | inl fits ↦ rw fits (inl (refl, fit-IsNewest (budget - length (content_of m)) ms))
    | inr long ↦ rw long (inr (refl, trim_message-IsTail budget m))
  ])
]

-- What holds of the budget and the messages once the loop's result is turned round.
abbrev Budget : ℕ → List Message → List Message × Bool → Type 0
Budget b messages (kept, truncated) =
    ((truncated ≡ false) × (kept ≡ messages) × (chars messages ≤ b))
    ⊎ ((truncated ≡ true) × (chars kept ≡ b) × (length kept ≤ length messages))

finish_trim-Budget :
    (b : ℕ) (messages ms : List Message)
    → reverse ms ≡ messages
    → Budget b messages (finish_trim messages (fit b ms))
unfolding finish_trim
finish_trim-Budget b messages ms e =
    let n : length ms ≡ length messages = sym (length-reverse ms) ∙ ap length e in
    let c : chars ms ≡ chars messages = sym (chars-reverse ms) ∙ ap chars e in
    ground (
      arith,
      n,
      c,
      fit_lem b ms,
      chars-reverse (fit b ms).0,
      length-reverse (fit b ms).0,
      length-fit b ms,
    )

trim-eq-fit :
    (messages : List Message) (max_chars : ℕ)
    → trim_generation_history messages (some max_chars)
      ≡ finish_trim messages (fit max_chars (reverse messages))
unfolding trim_generation_history fit
trim-eq-fit [] max_chars = refl
trim-eq-fit (m ∷ ms) max_chars = ap (finish_trim (m ∷ ms)) {y = fit max_chars (reverse (m ∷ ms))} (
    trim_loop-eq-fit max_chars (reverse (m ∷ ms)) [] 0
    ∙ (let e : max_chars - 0 ≡ max_chars = omega arith in rw e))

-- A character budget is either enough for all messages, which are then kept as they are, or it is
-- used up exactly, and the result says that something was cut.
pub trim_generation_history_budget :
    (messages : List Message) (max_chars : ℕ)
    → let (kept, truncated) = trim_generation_history messages (some max_chars) in
      ((truncated ≡ false) × (kept ≡ messages) × (chars messages ≤ max_chars))
      ⊎ ((truncated ≡ true) × (chars kept ≡ max_chars) × (length kept ≤ length messages))
trim_generation_history_budget messages max_chars =
    rw (trim-eq-fit messages max_chars)
      (finish_trim-Budget max_chars messages (reverse messages) (reverse-reverse messages))

-- What a budget keeps are the newest messages in their order, of which only the oldest may be cut,
-- to the end of its content; without a budget all are kept.
pub trim_generation_history-IsNewest :
    (messages : List Message) (max_chars : Option ℕ)
    → IsNewest (reverse (trim_generation_history messages max_chars).0) (reverse messages)
unfolding trim_generation_history
trim_generation_history-IsNewest messages none = IsNewest-refl (reverse messages)
trim_generation_history-IsNewest messages (some max_chars) =
    subst (λ r. IsNewest (reverse r.0) (reverse messages)) (sym (trim-eq-fit messages max_chars))
      (unfold finish_trim in
        subst (λ k. IsNewest k (reverse messages))
          (sym (reverse-reverse (fit max_chars (reverse messages)).0))
          (fit-IsNewest max_chars (reverse messages)))
