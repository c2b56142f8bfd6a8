-- ===== src/Trim.antt =====
-- `trim_view`, which src/pypilot/server.cpp and src/pypilot/client.cpp both define.
pub mod Ends
use pypilot_cxx.Prelude.{ℕ, suc, ◌≤◌, Bool, ◌||◌, [], ◌∷◌, arith, ◌==◌, if◌then◌else◌, length}
use pypilot_cxx.Prelude.Text.{Text}

unfoldable pub is_space : ℕ → Bool
is_space c = c == b' ' || c == b'\t' || c == b'\r' || c == b'\n'

-- `while (!s.empty() && is_space(s.front())) s.remove_prefix(1);`
unfoldable pub trim_front : Text → Text
trim_front [] = []
trim_front (c ∷ s) = if is_space c then trim_front s else c ∷ s

-- `while (!s.empty() && is_space(s.back())) s.remove_suffix(1);`: a byte stays if it is no space or
-- if something behind it stays.
abbrev keep_last : ℕ → Text → Text
keep_last c [] = if is_space c then [] else c ∷ []
keep_last c (d ∷ s) = c ∷ d ∷ s

unfoldable pub trim_back : Text → Text
trim_back [] = []
trim_back (c ∷ s) = keep_last c (trim_back s)

unfoldable pub trim_view : Text → Text
trim_view s = trim_back (trim_front s)

pub length-trim_front : (s : Text) → length (trim_front s) ≤ length s
unfolding trim_front
length-trim_front [] = omega arith
length-trim_front (c ∷ s) = ground (arith, length-trim_front s)

length-keep_last : (c : ℕ) (s : Text) → length (keep_last c s) ≤ suc (length s)
length-keep_last c [] = ground arith
length-keep_last c (d ∷ s) = omega arith

pub length-trim_back : (s : Text) → length (trim_back s) ≤ length s
unfolding trim_back
length-trim_back [] = omega arith
length-trim_back (c ∷ s) = omega (arith, length-keep_last c (trim_back s), length-trim_back s)

pub length-trim_view : (s : Text) → length (trim_view s) ≤ length s
unfolding trim_view
length-trim_view s = omega (arith, length-trim_back (trim_front s), length-trim_front s)
