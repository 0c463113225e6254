-- ===== src/Common/Bytes.antt =====
-- A Go string is a list of bytes. `strings.ToLower` and `strings.TrimSpace` are written out where
-- their input is ASCII; beyond ASCII they follow the Unicode tables, which are a parameter.
use Prim.Native.Nat.{ℕ, ◌+◌}
use Prim.Native.Char.{code}
use Prim.Native.String.{String}
use mathlib.Core.Path.{◌≡◌}
use mathlib.Core.Logic.{◌↔◌}
use mathlib.Core.Bool.{Bool, true, false, ◌&&◌, ◌||◌}
use mathlib.Core.List.{List, [], ◌∷◌, ◌++◌, map, reverse}
use native.Mathlib.Omega.{arith}
use rdoc_cam_hub.Common.Compare.{Comparable, ◌==◌, nat_beq, nat_eq, ltb, leb, if◌then◌else◌}
use rdoc_cam_hub.Common.Lists.{all, any}

abbrev pub Text : Type 0
Text = List ℕ

-- The bytes of an ASCII literal.
abbrev pub bytes : String → Text
bytes String.[] = []
bytes (String.◌∷◌ c s) = code c ∷ bytes s

unfoldable pub text_beq : Text → Text → Bool
text_beq [] [] = true
text_beq (a ∷ s) (b ∷ t) = nat_beq a b && text_beq s t
text_beq _ _ = false

pub text_beq_iff : (s t : Text) → (text_beq s t ≡ true) ↔ (s ≡ t)
unfolding text_beq
text_beq_iff [] [] = ground arith
text_beq_iff [] (b ∷ t) = ground arith
text_beq_iff (a ∷ s) [] = ground arith
text_beq_iff (a ∷ s) (b ∷ t) = ground (arith, text_beq_iff s t)

instance abbrev pub text_eq : Comparable Text
text_eq = record { same = text_beq; same_iff = text_beq_iff }

-- The tables of Go's package unicode, applied to a text that is not ASCII.
pub record Unicode : Type 0 where
  pub lower : Text → Text
  pub trim : Text → Text

abbrev pub is_ascii : ℕ → Bool
is_ascii c = ltb c 128

unfoldable pub lower_byte : ℕ → ℕ
lower_byte c = if leb b'A' c && leb c b'Z' then c + 32 else c

-- '\t', '\n', '\v', '\f', '\r' and ' '
unfoldable pub is_space : ℕ → Bool
is_space c = (leb 9 c && leb c 13) || c == 32

-- Drops the leading bytes that pass a test.
unfoldable pub trim_left : (ℕ → Bool) → Text → Text
trim_left p [] = []
trim_left p (c ∷ s) = if p c then trim_left p s else c ∷ s

unfoldable pub trim_right : (ℕ → Bool) → Text → Text
unfolding trim_left
trim_right p s = reverse (trim_left p (reverse s))

-- strings.ToLower
unfoldable pub to_lower : Unicode → Text → Text
unfolding lower_byte all
to_lower u s = if all is_ascii s then map lower_byte s else u.lower s

-- strings.TrimSpace
unfoldable pub trim_space : Unicode → Text → Text
unfolding trim_right trim_left is_space all
trim_space u s = if all is_ascii s then trim_right is_space (trim_left is_space s) else u.trim s

-- strings.HasPrefix, strings.HasSuffix
unfoldable pub has_prefix : Text → Text → Bool
has_prefix s [] = true
has_prefix [] (b ∷ p) = false
has_prefix (a ∷ s) (b ∷ p) = nat_beq a b && has_prefix s p

unfoldable pub has_suffix : Text → Text → Bool
unfolding has_prefix
has_suffix s p = has_prefix (reverse s) (reverse p)

-- strings.Split at a single byte
unfoldable pub prepend : Bool → ℕ → List Text → List Text
prepend true a parts = [] ∷ parts
prepend false a [] = (a ∷ []) ∷ []
prepend false a (p ∷ parts) = (a ∷ p) ∷ parts

unfoldable pub split : ℕ → Text → List Text
unfolding prepend
split c [] = [] ∷ []
split c (a ∷ s) = prepend (nat_beq a c) a (split c s)

-- A text without the byte c in front of it is the first part.
pub split-append :
    (c : ℕ) (s rest : Text)
    → any (λ a. nat_beq a c) s ≡ false
    → split c (s ++ c ∷ rest) ≡ s ∷ split c rest
unfolding split prepend any
split-append c [] rest h = ground arith
split-append c (a ∷ s) rest h = ground (arith, split-append c s rest)

pub split-none : (c : ℕ) (s : Text) → any (λ a. nat_beq a c) s ≡ false → split c s ≡ s ∷ []
unfolding split prepend any
split-none c [] h = ground arith
split-none c (a ∷ s) h = ground (arith, split-none c s)
