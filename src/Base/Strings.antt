-- ===== src/Base/Strings.antt =====
-- Texts as lists of code points, with the string methods that the program calls. `lower` and
-- `strip` treat the ASCII letters and white space; a code point above 127 is kept as it is.
use Prim.Native.Nat.{ℕ, ◌+◌, ◌-◌}
use Prim.Native.Char.{code}
use Prim.Native.String.{String}
use mathlib.Core.Bool.{Bool, true, false, ◌&&◌, ◌||◌}
use mathlib.Core.List.{List, [], ◌∷◌, map}
use job_squire.Base.Equality.{contains, ◌==◌, nat_eq, if◌then◌else◌}
use job_squire.Base.Tests.{leb}

abbrev pub Text : Type 0
Text = List ℕ

-- A literal.
abbrev pub txt : String → Text
txt String.[] = []
txt (String.◌∷◌ c s) = code c ∷ txt s

-- `bool(s)`
abbrev pub nonempty {ℓ} : {A : Type ℓ} → List A → Bool
nonempty [] = false
nonempty (x ∷ xs) = true

-- ASCII white space: tab to carriage return, the separators 28 to 31, and blank.
unfoldable pub is_space : ℕ → Bool
unfolding nat_eq
is_space c = (leb 9 c && leb c 13) || (leb 28 c && leb c 31) || c == 32

unfoldable pub is_upper : ℕ → Bool
is_upper c = leb 65 c && leb c 90

-- `s.lower()`
unfoldable pub lower_char : ℕ → ℕ
unfolding is_upper
lower_char c = if is_upper c then c + 32 else c

unfoldable pub lower : Text → Text
unfolding lower_char
lower = map lower_char

-- `s.upper()`, on ASCII letters.
unfoldable pub upper_char : ℕ → ℕ
upper_char c = if leb 97 c && leb c 122 then c - 32 else c

unfoldable pub upper : Text → Text
unfolding upper_char
upper = map upper_char

-- `s.lstrip()`
unfoldable pub lstrip : Text → Text
unfolding is_space
lstrip [] = []
lstrip (c ∷ s) = if is_space c then lstrip s else c ∷ s

-- `s.rstrip()`
unfoldable pub rstrip : Text → Text
unfolding is_space
rstrip [] = []
rstrip (c ∷ s) =
    let rest = rstrip s in
    if is_space c && elim rest [ [] ↦ true | _ ∷ _ ↦ false ] then [] else c ∷ rest

unfoldable pub strip : Text → Text
unfolding lstrip rstrip
strip s = rstrip (lstrip s)

-- `s.startswith(p)`
unfoldable pub starts_with : Text → Text → Bool
unfolding nat_eq
starts_with s [] = true
starts_with [] (p ∷ ps) = false
starts_with (c ∷ s) (p ∷ ps) = c == p && starts_with s ps

-- `s.split(c, 1)[0]`: what stands before the first `c`, or the whole text.
unfoldable pub before : ℕ → Text → Text
unfolding nat_eq
before c [] = []
before c (d ∷ s) = if d == c then [] else d ∷ before c s

-- `s.split(c)[-1]`: what stands behind the last `c`, or the whole text.
unfoldable pub after_last : ℕ → Text → Text
unfolding nat_eq
after_last c [] = []
after_last c (d ∷ s) = if contains s c then after_last c s else if d == c then s else d ∷ s

-- `s.rsplit(c, 1)[0]`: what stands before the last `c`, or the whole text.
unfoldable pub before_last : ℕ → Text → Text
unfolding nat_eq
before_last c [] = []
before_last c (d ∷ s) = if contains s c then d ∷ before_last c s else if d == c then [] else d ∷ s

module _ (cs : List ℕ) where
  -- `s.lstrip(cs)`, `s.rstrip(cs)` and `s.strip(cs)`
  unfoldable pub lstrip_chars : Text → Text
  unfolding nat_eq
  lstrip_chars [] = []
  lstrip_chars (c ∷ s) = if contains cs c then lstrip_chars s else c ∷ s

  unfoldable pub rstrip_chars : Text → Text
  unfolding nat_eq
  rstrip_chars [] = []
  rstrip_chars (c ∷ s) =
      let rest = rstrip_chars s in
      if contains cs c && elim rest [ [] ↦ true | _ ∷ _ ↦ false ] then [] else c ∷ rest

  unfoldable pub strip_chars : Text → Text
  unfolding lstrip_chars rstrip_chars
  strip_chars s = rstrip_chars (lstrip_chars s)
