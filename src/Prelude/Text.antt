-- ===== src/Prelude/Text.antt =====
-- `std::string` and `std::string_view` as lists of bytes, and the operations on them that the
-- sources use.
use Prim.Native.Nat.{ℕ, ◌+◌, ◌≤◌}
use Prim.Native.Char.{code}
use Prim.Native.String.{String}
use mathlib.Core.Path.{◌≡◌, refl, ap}
use mathlib.Core.Logic.{◌↔◌, ◌≢◌, inl, inr}
use mathlib.Core.Bool.{Bool, true, false, ◌&&◌}
use mathlib.Core.List.{List, [], ◌∷◌, ◌++◌}
use mathlib.Core.Option.{Option, none, some}
use native.Mathlib.Omega.{arith}
use pypilot_cxx.Prelude.Tests.{◌==◌, if◌then◌else◌, ==_iff, ==_refl, Bool-cases}
use pypilot_cxx.Prelude.Lists.{length, All}

abbrev pub Text : Type 0
Text = List ℕ

-- The bytes of a literal (all literals of the sources are ASCII).
unfoldable pub codes : String → Text
codes String.[] = []
codes (String.◌∷◌ c s) = code c ∷ codes s

-- `a == b` on string views.
unfoldable pub text_eq : Text → Text → Bool
text_eq [] [] = true
text_eq [] (y ∷ ys) = false
text_eq (x ∷ xs) [] = false
text_eq (x ∷ xs) (y ∷ ys) = (x == y) && text_eq xs ys

-- `s.find(c)`: the text before the first `c` and the text behind it, if there is one.
unfoldable pub split_at : ℕ → Text → Option (Text × Text)
split_at c [] = none
split_at c (x ∷ xs) =
    if x == c
    then some ([], xs)
    else elim (split_at c xs) [ none ↦ none | some (before, behind) ↦ some (x ∷ before, behind) ]

abbrev pub is_empty : Text → Bool
is_empty [] = true
is_empty (x ∷ xs) = false

-- `s.front() == c` on a view that may be empty.
abbrev pub starts_with : ℕ → Text → Bool
starts_with c [] = false
starts_with c (x ∷ xs) = x == c

-- `s.back() == c` on a view that may be empty.
unfoldable pub ends_with : ℕ → Text → Bool
ends_with c [] = false
ends_with c (x ∷ []) = x == c
ends_with c (x ∷ y ∷ xs) = ends_with c (y ∷ xs)

-- `s.remove_prefix(1)` and `s.remove_suffix(1)` on a view that is not empty.
abbrev pub tail : Text → Text
tail [] = []
tail (x ∷ xs) = xs

unfoldable pub init : Text → Text
init [] = []
init (x ∷ []) = []
init (x ∷ y ∷ xs) = x ∷ init (y ∷ xs)

pub text_eq_iff : (a b : Text) → (text_eq a b ≡ true) ↔ (a ≡ b)
unfolding text_eq
text_eq_iff [] [] = (λ _. refl, λ _. refl)
text_eq_iff [] (y ∷ ys) = (λ e. cc, λ e. cc)
text_eq_iff (x ∷ xs) [] = (λ e. cc, λ e. cc)
text_eq_iff (x ∷ xs) (y ∷ ys) = ground (arith, text_eq_iff xs ys)

pub text_eq_refl : (a : Text) → text_eq a a ≡ true
text_eq_refl a = (text_eq_iff a a).1 refl

pub length-tail : (s : Text) → length (tail s) ≤ length s
length-tail [] = omega arith
length-tail (x ∷ xs) = omega arith

pub length-init : (s : Text) → length (init s) ≤ length s
unfolding init
length-init [] = omega arith
length-init (x ∷ []) = omega arith
length-init (x ∷ y ∷ xs) = omega (arith, length-init (y ∷ xs))

-- What `split_at` returns: the two parts with the separator between them are the text, and the
-- first part has no separator; where nothing is returned, the text has none.
abbrev pub Splits : ℕ → Text → Option (Text × Text) → Type 0
Splits c s none = All (λ x. x ≢ c) s
Splits c s (some (before, behind)) =
    (s ≡ before ++ c ∷ behind)
    × All (λ x. x ≢ c) before
    × (length before + length behind + 1 ≡ length s)

Splits-cons :
    (c x : ℕ) (xs : Text) (r : Option (Text × Text))
    → x ≢ c
    → Splits c xs r
    → Splits c (x ∷ xs) (elim r [ none ↦ none | some (before, behind) ↦ some (x ∷ before, behind) ])
Splits-cons c x xs none ne h = (ne, h)
Splits-cons c x xs (some (before, behind)) ne (e, l, n) = (ap (λ t. x ∷ t) e, (ne, l), omega arith)

pub split_at-Splits : (c : ℕ) (s : Text) → Splits c s (split_at c s)
unfolding split_at
split_at-Splits c [] = tt
split_at-Splits c (x ∷ xs) = elim (Bool-cases (x == c)) [
  | inl same ↦ rw same (ap (λ (n : ℕ). n ∷ xs) ((==_iff x c).0 same), tt, omega arith)
  | inr other ↦
      rw other (Splits-cons c x xs (split_at c xs) (λ e. ground arith) (split_at-Splits c xs))
]

-- A text with no separator, then the separator: the split is there.
pub split_at-append :
    (c : ℕ) (s rest : Text) → All (λ x. x ≢ c) s → split_at c (s ++ c ∷ rest) ≡ some (s, rest)
unfolding split_at
split_at-append c [] rest h = rw (==_refl c)
split_at-append c (x ∷ xs) rest h = ground (arith, split_at-append c xs rest)

pub split_at-none : (c : ℕ) (s : Text) → All (λ x. x ≢ c) s → split_at c s ≡ none
unfolding split_at
split_at-none c [] h = refl
split_at-none c (x ∷ xs) h = ground (arith, split_at-none c xs)
