-- ===== src/Semver/Text.antt =====
-- What semver.py uses of Python's texts: a text is the list of its code points. `int` and the test
-- `^\d+$` take ASCII digits.
use dbt_common.Common.{
  ℕ, ◌+◌, ◌-◌, ◌*◌, Bool, true, false, ◌&&◌, ◌||◌, List, [], ◌∷◌, leb, ◌==◌, if◌then◌else◌,
}
pub use dbt_common.Common.{Text}
use Prim.Native.Nat.{compare, Ordering}

-- The sign of an integer that a comparison returns: -1, 0 or 1.
pub data Sign : Type 0 where
  less equal greater : Sign

abbrev pub flip : Sign → Sign
flip less = greater
flip equal = equal
flip greater = less

-- The first sign that is not 0.
abbrev pub then_by : Sign → Sign → Sign
then_by equal s = s
then_by less s = less
then_by greater s = greater

-- `_cmp` at two integers
abbrev pub cmp : ℕ → ℕ → Sign
cmp a b = elim (compare a b) [ Ordering.lt ↦ less | Ordering.eq ↦ equal | Ordering.gt ↦ greater ]

-- `_cmp` at two texts, which Python orders by their code points
unfoldable pub cmp_text : Text → Text → Sign
cmp_text [] [] = equal
cmp_text [] (b ∷ bs) = less
cmp_text (a ∷ as') [] = greater
cmp_text (a ∷ as') (b ∷ bs) = then_by (cmp a b) (cmp_text as' bs)

abbrev pub is_digit : ℕ → Bool
is_digit c = leb b'0' c && leb c b'9'

-- `$` also matches before a newline that ends the text.
abbrev digits_to_end : Text → Bool
digits_to_end [] = true
digits_to_end (c ∷ []) = is_digit c || c == 10
digits_to_end (c ∷ d ∷ cs) = is_digit c && digits_to_end (d ∷ cs)

-- `re.match(r"^\d+$", x)`
unfoldable pub is_number : Text → Bool
is_number [] = false
is_number (c ∷ cs) = is_digit c && digits_to_end cs

abbrev int_from : ℕ → Text → ℕ
int_from n [] = n
int_from n (c ∷ cs) = int_from (if is_digit c then n * 10 + (c - b'0') else n) cs

-- `int(x)` of digits, with the newline that `int` strips
unfoldable pub int : Text → ℕ
int x = int_from 0 x

abbrev pub to_first : ℕ → List Text → List Text
to_first c [] = (c ∷ []) ∷ []
to_first c (x ∷ xs) = (c ∷ x) ∷ xs

-- `x.split(".")`
unfoldable pub split_dots : Text → List Text
split_dots [] = [] ∷ []
split_dots (c ∷ cs) = let rest = split_dots cs in if c == b'.' then [] ∷ rest else to_first c rest
