-- ===== src/Base/Text.antt =====
-- A `String` as its Unicode scalar values: length in UTF-8 bytes, and `trim().is_empty()`.
use Prim.Native.Nat.{ℕ, ◌+◌}
use mathlib.Core.Bool.{Bool, true, ◌||◌, ◌&&◌}
use mathlib.Core.Path.{◌≡◌, refl}
use mathlib.Core.List.{List, [], ◌∷◌, ◌++◌}
use native.Mathlib.Omega.{arith}
use jingwei.Base.Tests.{ltb, leb, ◌==◌, if◌then◌else◌, is_yes, is_yes_iff}
use jingwei.Base.Lists.{all}
use Prim.Native.String.{String}
use Prim.Native.Char.{code}
unfoldable use native.Mathlib.Decide.{ℕ_discrete}

abbrev pub Text : Type 0
Text = List ℕ

unfoldable pub Text-discrete : Discrete Text
Text-discrete = hlevel ℕ_discrete

-- The code points with the property White_Space, which `char::is_whitespace` tests.
abbrev pub is_whitespace : ℕ → Bool
is_whitespace c =
    (leb 9 c && leb c 13)
    || c == 32
    || c == 133
    || c == 160
    || c == 5760
    || (leb 8192 c && leb c 8202)
    || c == 8232
    || c == 8233
    || c == 8239
    || c == 8287
    || c == 12288

-- `text.trim().is_empty()`.
unfoldable pub is_blank : Text → Bool
is_blank = all is_whitespace

abbrev pub utf8_width : ℕ → ℕ
utf8_width c = if ltb c 128 then 1 else if ltb c 2048 then 2 else if ltb c 65536 then 3 else 4

-- `str::len`.
unfoldable pub byte_len : Text → ℕ
byte_len [] = 0
byte_len (c ∷ cs) = utf8_width c + byte_len cs

abbrev pub text_eq : Text → Text → Bool
text_eq a b = is_yes (Text-discrete a b)

pub byte_len-append : (a b : Text) → byte_len (a ++ b) ≡ byte_len a + byte_len b
unfolding byte_len
byte_len-append [] b = omega arith
byte_len-append (c ∷ cs) b = omega (arith, byte_len-append cs b)

-- A string literal of the program.
unfoldable pub literal : String → Text
literal String.[] = []
literal (String.◌∷◌ c s) = code c ∷ literal s

-- The test on texts decides equality.
pub text_eq_refl : (a : Text) → text_eq a a ≡ true
text_eq_refl a = (is_yes_iff (Text-discrete a a)).1 refl

pub text_eq→≡ : (a b : Text) → text_eq a b ≡ true → a ≡ b
text_eq→≡ a b h = (is_yes_iff (Text-discrete a b)).0 h
