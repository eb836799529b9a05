-- ===== src/Text.antt =====
-- What the code uses of Python's texts, as lists of code points: tests, `lower`, `strip`, `join`, and
-- the digits of a number.
use Prim.Native.Char.{code}
use chatvector_ai.Prelude.{
  zero, suc, ◌/◌, ◌%◌, ◌++◌, ltb, ℕ, ◌+◌, String, Bool, true, false, ◌&&◌, ◌||◌, List, [], ◌∷◌,
  reverse, leb, ◌==◌, if◌then◌else◌,
}

-- A text as its code points. Texts that are lower-cased are taken to be ASCII, where `lower` works
-- character by character.
abbrev pub codes : String → List ℕ
codes String.[] = []
codes (String.◌∷◌ c s) = code c ∷ codes s

unfoldable pub lower : ℕ → ℕ
lower c = if leb b'A' c && leb c b'Z' then c + 32 else c

unfoldable pub starts_with : List ℕ → List ℕ → Bool
starts_with [] s = true
starts_with (c ∷ p) [] = false
starts_with (c ∷ p) (d ∷ s) = c == d && starts_with p s

-- `p in s`
unfoldable pub is_in : List ℕ → List ℕ → Bool
unfolding starts_with
is_in p [] = starts_with p []
is_in p (d ∷ s) = starts_with p (d ∷ s) || is_in p s

-- `s == t`
abbrev pub same_text : List ℕ → List ℕ → Bool
same_text [] [] = true
same_text (c ∷ s) (d ∷ t) = c == d && same_text s t
same_text s t = false

unfoldable pub is_space : ℕ → Bool
is_space c = c == 32 || (leb 9 c && leb c 13) || (leb 28 c && leb c 31)

unfoldable pub drop_spaces : List ℕ → List ℕ
unfolding is_space
drop_spaces [] = []
drop_spaces (c ∷ s) = if is_space c then drop_spaces s else c ∷ s

-- `s.strip()` on ASCII text
unfoldable pub strip : List ℕ → List ℕ
unfolding drop_spaces
strip s = reverse (drop_spaces (reverse (drop_spaces s)))

-- The digits of a number, with at least as much fuel as it has digits.
digits : ℕ → ℕ → List ℕ
digits zero n = []
digits (suc fuel) n = (if ltb n 10 then [] else digits fuel (n / 10)) ++ (b'0' + n % 10) ∷ []

-- `str(n)` of a number that is not negative
unfoldable pub decimal : ℕ → List ℕ
unfolding digits
decimal n = digits (suc n) n

-- `separator.join(parts)`
unfoldable pub join : List ℕ → List (List ℕ) → List ℕ
join separator [] = []
join separator (part ∷ []) = part
join separator (part ∷ next ∷ parts) = part ++ (separator ++ join separator (next ∷ parts))

-- `s in names`
unfoldable pub is_one_of : List (List ℕ) → List ℕ → Bool
is_one_of [] s = false
is_one_of (name ∷ names) s = if same_text name s then true else is_one_of names s

-- `s.endswith(suffix)`
unfoldable pub ends_with : List ℕ → List ℕ → Bool
unfolding starts_with
ends_with suffix s = starts_with (reverse suffix) (reverse s)
