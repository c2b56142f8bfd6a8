-- ===== src/Exchange/Words.antt =====
-- Lines of a name, an equals sign and a value, as the client and the server both read them.
use pypilot_cxx.Prelude.{
  ℕ, ◌≡◌, refl, ap, ◌∙◌, ◌≢◌, Bool, true, false, not, ◌&&◌, some, [], ◌∷◌, ◌++◌, arith, leb, ◌==◌,
  length, All,
}
use pypilot_cxx.Prelude.Text.{Text, codes, text_eq, is_empty, split_at, split_at-append}
use pypilot_cxx.Float.{Float}
use pypilot_cxx.Trim.{is_space, trim_front, trim_back, trim_view}
use pypilot_cxx.Trim.Ends.{trim_back-append, trim_view-word}
use pypilot_cxx.Values.Fields.{Descriptor, fields, find}
use pypilot_cxx.Values.Rows.{find_in-All}

-- A byte that can stand in a name of a field.
abbrev is_word_byte : ℕ → Bool
is_word_byte c = not (is_space c) && not (c == b'=') && not (c == b'"') && not (c == 0)

abbrev all_of : (ℕ → Bool) → Text → Bool
all_of test [] = true
all_of test (c ∷ s) = test c && all_of test s

-- A text that reads back as a name: it has a byte, and no space, equals sign, quote or NUL.
pub record IsWord (name : Text) : Type 0 where
  pub filled : is_empty name ≡ false
  pub bytes : all_of is_word_byte name ≡ true

-- The names of the fields, and none of them is the name of a request.
pub record IsName (name : Text) : Type 0 where
  pub word : IsWord name
  pub no_watch : text_eq name (codes "watch") ≡ false
  pub no_values : text_eq name (codes "values") ≡ false
  pub no_port : text_eq name (codes "udp_port") ≡ false
  pub short : leb (length name) 18 ≡ true

all_of-All :
    (test : ℕ → Bool) {P : ℕ → Type 0}
    → ((c : ℕ) → test c ≡ true → P c)
    → (s : Text) → all_of test s ≡ true
    → All P s
all_of-All test f [] h = tt
all_of-All test f (c ∷ s) h = (f c (ground arith), all_of-All test f s (ground arith))

-- A text without a NUL, tested.
abbrev has_no_nul : Text → Bool
has_no_nul s = all_of (λ c. not (c == 0)) s

pub has_no_nul-All : (s : Text) → has_no_nul s ≡ true → All (λ c. c ≢ 0) s
has_no_nul-All s h = all_of-All (λ c. not (c == 0)) (λ c e. ground arith) s h

module _ (R : Type 0) ⦃fl : Float R⦄ where
  names : All (λ (d : Descriptor R). IsName d.name) fields
  unfolding fields codes text_eq is_space
  names = search

module _ {R : Type 0} ⦃fl : Float R⦄ where
  -- What `find` finds has such a name.
  pub find-IsName : (name : Text) (d : Descriptor R) → find name ≡ some d → IsName name
  unfolding find
  find-IsName name d e =
      let (h, same) = find_in-All (λ (d : Descriptor R). IsName d.name) name fields d (names R) e in
      rw same at h

trim_front-line :
    (name value : Text)
    → is_empty name ≡ false
    → all_of is_word_byte name ≡ true
    → trim_front (name ++ value) ≡ name ++ value
unfolding trim_front
trim_front-line [] value filled h = cc
trim_front-line (c ∷ s) value filled h = let plain : is_space c ≡ false = ground arith in rw plain

is_empty-append : (s t : Text) → is_empty s ≡ false → is_empty (s ++ t) ≡ false
is_empty-append [] t h = cc
is_empty-append (c ∷ s) t h = refl

module _ (name value : Text) (h : IsWord name) where
  -- Trimming a line leaves its name alone.
  pub trim_view-line : trim_view (name ++ b'=' ∷ value) ≡ name ++ b'=' ∷ trim_back value
  unfolding trim_view is_space
  trim_view-line =
      ap trim_back (trim_front-line name (b'=' ∷ value) h.filled h.bytes)
      ∙ trim_back-append name b'=' value refl

  pub is_empty-line : is_empty (name ++ b'=' ∷ trim_back value) ≡ false
  is_empty-line = is_empty-append name (b'=' ∷ trim_back value) h.filled

  pub split_at-line : split_at b'=' (name ++ b'=' ∷ trim_back value) ≡ some (name, trim_back value)
  split_at-line =
      split_at-append b'=' name (trim_back value)
        (all_of-All is_word_byte (λ c e. ground arith) name h.bytes)

module _ (name : Text) (h : IsWord name) where
  pub no_nul : All (λ c. c ≢ 0) name
  no_nul = all_of-All is_word_byte (λ c e. ground arith) name h.bytes

  pub no_quote : All (λ c. c ≢ b'"') name
  no_quote = all_of-All is_word_byte (λ c e. ground arith) name h.bytes

  pub trim_view-name : trim_view name ≡ name
  trim_view-name = trim_view-word name (all_of-All is_word_byte (λ c e. ground arith) name h.bytes)
