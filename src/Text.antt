-- ===== src/Text.antt =====
-- Python's `bytes` and `str` as lists of numbers, and the methods that the server calls on them.
pub mod Decimal
pub mod Utf8
use Prim.Native.Char.{code}
use Prim.Native.String.{String}
use byo_redis.Prelude.{
  ℕ, ◌+◌, ◌-◌, ◌≡◌, ◌↔◌, refl, Bool, true, false, ◌&&◌, List, [], ◌∷◌, map, arith, leb, ◌==◌,
  ==_iff, if◌then◌else◌,
}

-- Byte values, 0 to 255.
abbrev pub Bytes : Type 0
Bytes = List ℕ

-- A `str`: its code points.
abbrev pub Str : Type 0
Str = List ℕ

-- The code points of a literal; these are its bytes too, when the text is ASCII.
abbrev pub codes : String → List ℕ
codes String.[] = []
codes (String.◌∷◌ c s) = code c ∷ codes s

-- a == b, on `bytes` and on `str`
abbrev pub text_eq : List ℕ → List ℕ → Bool
text_eq [] [] = true
text_eq [] (b ∷ bs) = false
text_eq (a ∷ as') [] = false
text_eq (a ∷ as') (b ∷ bs) = a == b && text_eq as' bs

pub text_eq_iff : (a b : List ℕ) → (text_eq a b ≡ true) ↔ (a ≡ b)
text_eq_iff [] [] = ((λ _. refl), (λ _. refl))
text_eq_iff [] (b ∷ bs) = ((λ h. cc), (λ h. cc))
text_eq_iff (a ∷ as') [] = ((λ h. cc), (λ h. cc))
text_eq_iff (a ∷ as') (b ∷ bs) =
    ((λ h. ground (arith, text_eq_iff as' bs)), (λ h. ground (arith, text_eq_iff as' bs)))

-- `bytes.upper` on one byte: ASCII letters only
unfoldable pub upper_byte : ℕ → ℕ
upper_byte c = if leb b'a' c && leb c b'z' then c - 32 else c

unfoldable pub lower_byte : ℕ → ℕ
lower_byte c = if leb b'A' c && leb c b'Z' then c + 32 else c

unfoldable pub upper : Bytes → Bytes
unfolding upper_byte
upper = map upper_byte

unfoldable pub lower : Bytes → Bytes
unfolding lower_byte
lower = map lower_byte
