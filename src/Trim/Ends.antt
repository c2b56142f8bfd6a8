-- ===== src/Trim/Ends.antt =====
-- Trimming at the ends of a text.
use pypilot_cxx.Prelude.{
  ℕ, ◌≡◌, refl, ap, ◌∙◌, inl, inr, true, false, [], ◌∷◌, ◌++◌, if◌then◌else◌, Bool-cases, All,
}
use pypilot_cxx.Prelude.Text.{Text}
use pypilot_cxx.Trim.{is_space, trim_front, keep_last, trim_back, trim_view}

keep_last-kept : (c : ℕ) (s : Text) → is_space c ≡ false → keep_last c s ≡ c ∷ s
keep_last-kept c [] h = rw h
keep_last-kept c (d ∷ s) h = refl

-- A text that has no space is left as it is.
pub trim_front-word : (s : Text) → All (λ c. is_space c ≡ false) s → trim_front s ≡ s
unfolding trim_front
trim_front-word [] h = refl
trim_front-word (c ∷ s) h = rw h.0

trim_back-word : (s : Text) → All (λ c. is_space c ≡ false) s → trim_back s ≡ s
unfolding trim_back
trim_back-word [] h = refl
trim_back-word (c ∷ s) h = rw (trim_back-word s h.1) (keep_last-kept c s h.0)

pub trim_view-word : (s : Text) → All (λ c. is_space c ≡ false) s → trim_view s ≡ s
unfolding trim_view
trim_view-word s h = rw (trim_front-word s h) (trim_back-word s h)

-- What precedes a byte that is no space stays.
pub trim_back-append :
    (s : Text) (c : ℕ) (t : Text)
    → is_space c ≡ false
    → trim_back (s ++ c ∷ t) ≡ s ++ c ∷ trim_back t
unfolding trim_back
trim_back-append [] c t h = keep_last-kept c (trim_back t) h
trim_back-append (b ∷ []) c t h = rw (keep_last-kept c (trim_back t) h)
trim_back-append (b ∷ a ∷ s) c t h = rw (trim_back-append (a ∷ s) c t h)

-- Spaces at the end go.
pub trim_back-space : (s : Text) (c : ℕ) → is_space c ≡ true → trim_back (s ++ c ∷ []) ≡ trim_back s
unfolding trim_back
trim_back-space [] c h = rw h
trim_back-space (b ∷ s) c h = rw (trim_back-space s c h)

trim_back-keep_last :
    (c : ℕ) (s : Text) → trim_back s ≡ s → trim_back (keep_last c s) ≡ keep_last c s
unfolding trim_back
trim_back-keep_last c [] h = elim (Bool-cases (is_space c)) [
  | inl space ↦ rw space refl
  | inr other ↦ rw other (rw other refl)
]
trim_back-keep_last c (d ∷ s) h = rw h refl

trim_back_twice : (s : Text) → trim_back (trim_back s) ≡ trim_back s
unfolding trim_back
trim_back_twice [] = refl
trim_back_twice (c ∷ s) = trim_back-keep_last c (trim_back s) (trim_back_twice s)

trim_front-keep_last :
    (c : ℕ) (s : Text)
    → trim_front (keep_last c s) ≡ (if is_space c then trim_front s else keep_last c s)
unfolding trim_front
trim_front-keep_last c [] = elim (Bool-cases (is_space c)) [
  | inl space ↦ rw space refl
  | inr other ↦ rw other (rw other refl)
]
trim_front-keep_last c (d ∷ s) = refl

-- The two ends are trimmed in either order.
trim_front-trim_back : (s : Text) → trim_front (trim_back s) ≡ trim_back (trim_front s)
unfolding trim_front trim_back
trim_front-trim_back [] = refl
trim_front-trim_back (c ∷ s) = elim (Bool-cases (is_space c)) [
  | inl space ↦ rw (trim_front-keep_last c (trim_back s), space) (trim_front-trim_back s)
  | inr other ↦ rw (trim_front-keep_last c (trim_back s), other) refl
]

-- Trimming the end first does not show.
pub trim_view-trim_back : (s : Text) → trim_view (trim_back s) ≡ trim_view s
unfolding trim_view
trim_view-trim_back s = ap trim_back (trim_front-trim_back s) ∙ trim_back_twice (trim_front s)
