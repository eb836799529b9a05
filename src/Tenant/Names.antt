-- ===== src/Tenant/Names.antt =====
-- Sets of document ids as lists without a given order, and Python's truth of an optional text.

use Prim.Native.String.{compare}
use Prim.Native.Nat.{Ordering}
use chatvector_ai.Prelude.{
  ◌≡◌, refl, String, str_eq, eq_iff, Bool, true, false, not, ◌||◌, ◌&&◌, List, [], ◌∷◌, ◌++◌, arith,
  if◌then◌else◌,
}

-- `d in xs`
abbrev pub contains : String → List String → Bool
contains d [] = false
contains d (x ∷ xs) = str_eq x d || contains d xs

-- `xs.add(d)`
abbrev pub add : String → List String → List String
add d xs = if contains d xs then xs else d ∷ xs

-- `xs.discard(d)`
abbrev pub discard : String → List String → List String
discard d [] = []
discard d (x ∷ xs) = if str_eq x d then discard d xs else x ∷ discard d xs

-- `[d for d in ds if d in allowed]`
abbrev pub keep_in : List String → List String → List String
keep_in allowed [] = []
keep_in allowed (d ∷ ds) = if contains d allowed then d ∷ keep_in allowed ds else keep_in allowed ds

text_leb : String → String → Bool
text_leb a b = elim (compare a b) [ Ordering.gt ↦ false | _ ↦ true ]

insert : String → List String → List String
unfolding text_leb
insert d [] = d ∷ []
insert d (x ∷ xs) = if text_leb d x then d ∷ x ∷ xs else x ∷ insert d xs

-- `sorted(xs)`
unfoldable pub sorted : List String → List String
unfolding insert
sorted [] = []
sorted (x ∷ xs) = insert x (sorted xs)

-- `if tenant_id`
abbrev pub truthy : String → Bool
truthy t = not (str_eq t "")

pub contains-add :
    (d e : String) (xs : List String) → contains e (add d xs) ≡ (str_eq d e || contains e xs)
contains-add d e xs = ground (arith, eq_iff d e)

pub contains-discard :
    (d e : String) (xs : List String)
    → contains e (discard d xs) ≡ (not (str_eq d e) && contains e xs)
contains-discard d e [] = ground arith
contains-discard d e (x ∷ xs) =
    ground (arith, eq_iff x d, eq_iff x e, eq_iff d e, contains-discard d e xs)

contains-insert :
    (d e : String) (xs : List String) → contains e (insert d xs) ≡ (str_eq d e || contains e xs)
unfolding insert
contains-insert d e [] = refl
contains-insert d e (x ∷ xs) = ground (arith, contains-insert d e xs)

pub contains-sorted : (e : String) (xs : List String) → contains e (sorted xs) ≡ contains e xs
unfolding sorted
contains-sorted e [] = refl
contains-sorted e (x ∷ xs) = ground (arith, contains-insert x e (sorted xs), contains-sorted e xs)

pub contains-keep_in :
    (allowed ds : List String) (e : String)
    → contains e (keep_in allowed ds) ≡ (contains e ds && contains e allowed)
contains-keep_in allowed [] e = refl
contains-keep_in allowed (d ∷ ds) e = ground (arith, eq_iff d e, contains-keep_in allowed ds e)

pub contains-append :
    (xs ys : List String) (e : String) → contains e (xs ++ ys) ≡ (contains e xs || contains e ys)
contains-append [] ys e = refl
contains-append (x ∷ xs) ys e = ground (arith, contains-append xs ys e)
