-- ===== src/Prelude/Dict.antt =====
-- Python's dictionaries from texts, in insertion order: lookup, assignment, `update`, and the
-- comprehensions that keep or leave out keys.
use Prim.Native.String.{String}
use mathlib.Core.Path.{◌≡◌, refl}
use mathlib.Core.Bool.{Bool}
use mathlib.Core.Option.{Option, none, some}
use mathlib.Core.List.{List, [], ◌∷◌}
use mathlib.Core.Logic.{inl, inr}
use native.Mathlib.Omega.{arith}
use text.Mathlib.Text.{◌==◌ as str_eq}
use text.Mathlib.TextEquality.{eq_iff}
use chatvector_ai.Prelude.Tests.{Bool-cases, Bool-cases, if◌then◌else◌}

abbrev pub Dict {ℓ} : Type ℓ → Type ℓ
Dict A = List (String × A)

-- `a or b` on optional values
abbrev pub or_else {ℓ} : {A : Type ℓ} → Option A → Option A → Option A
or_else (some v) o = some v
or_else none o = o

module _ {ℓ} {A : Type ℓ} where
  -- `d.get(key)`
  unfoldable pub lookup : String → Dict A → Option A
  lookup key [] = none
  lookup key ((name, value) ∷ rest) = if str_eq name key then some value else lookup key rest

  -- `d[key] = value`
  unfoldable pub assign : String → A → Dict A → Dict A
  assign key value [] = (key, value) ∷ []
  assign key value ((name, old) ∷ rest) =
      if str_eq name key then (name, value) ∷ rest else (name, old) ∷ assign key value rest

  -- `d.update(items)`
  unfoldable pub update : Dict A → Dict A → Dict A
  unfolding assign
  update d [] = d
  update d ((key, value) ∷ items) = update (assign key value d) items

  -- `{key: value for key, value in d.items() if keep(key)}`
  unfoldable pub only : (String → Bool) → Dict A → Dict A
  only keep [] = []
  only keep ((key, value) ∷ items) =
      if keep key then (key, value) ∷ only keep items else only keep items

  -- A key stands once.
  abbrev pub IsDict : Dict A → Type ℓ
  IsDict [] = Unit
  IsDict ((key, value) ∷ items) = (lookup key items ≡ none) × IsDict items

  pub lookup-assign :
      (key name : String) (value : A) (d : Dict A)
      → lookup name (assign key value d) ≡ (if str_eq key name then some value else lookup name d)
  unfolding lookup assign
  lookup-assign key name value [] = refl
  lookup-assign key name value ((first, old) ∷ rest) = ground (
    arith,
    eq_iff key name,
    eq_iff first key,
    eq_iff first name,
    lookup-assign key name value rest,
  )

  pub lookup-only :
      (key : String) (keep : String → Bool) (d : Dict A)
      → lookup key (only keep d) ≡ (if keep key then lookup key d else none)
  unfolding lookup only
  lookup-only key keep [] = ground arith
  lookup-only key keep ((name, value) ∷ rest) =
      ground (arith, eq_iff name key, lookup-only key keep rest)

  pub lookup-update :
      (key : String) (d items : Dict A)
      → IsDict items
      → lookup key (update d items) ≡ or_else (lookup key items) (lookup key d)
  unfolding lookup update
  lookup-update key d [] h = refl
  lookup-update key d ((name, value) ∷ items) h = ground (
    arith,
    eq_iff name key,
    lookup-assign name key value d,
    lookup-update key (assign name value d) items h.1,
  )

  pub IsDict-only : (keep : String → Bool) (d : Dict A) → IsDict d → IsDict (only keep d)
  unfolding only
  IsDict-only keep [] h = tt
  IsDict-only keep ((k, v) ∷ d) h = elim (Bool-cases (keep k)) [
    | inl kept ↦ rw kept (rw (lookup-only k keep d, kept) h.0, IsDict-only keep d h.1)
    | inr left_out ↦ rw left_out (IsDict-only keep d h.1)
  ]

  pub IsDict-assign :
      (key : String) (value : A) (d : Dict A) → IsDict d → IsDict (assign key value d)
  unfolding assign lookup
  IsDict-assign key value [] h = (refl, tt)
  IsDict-assign key value ((name, old) ∷ rest) h = elim (Bool-cases (str_eq name key)) [
    | inl same ↦ rw same h
    | inr differs ↦ rw differs (
      ground (arith, lookup-assign key name value rest, eq_iff name key, eq_iff key name),
      IsDict-assign key value rest h.1,
    )
  ]

  pub IsDict-update : (d items : Dict A) → IsDict d → IsDict (update d items)
  unfolding update
  IsDict-update d [] h = h
  IsDict-update d ((key, value) ∷ items) h =
      IsDict-update (assign key value d) items (IsDict-assign key value d h)

-- `or_else` takes the first value.
module _ {ℓ} {A : Type ℓ} where
  pub or_else_assoc : (a b c : Option A) → or_else (or_else a b) c ≡ or_else a (or_else b c)
  or_else_assoc (some v) b c = refl
  or_else_assoc none b c = refl

  pub or_else-none : (a : Option A) → or_else a none ≡ a
  or_else-none (some v) = refl
  or_else-none none = refl
