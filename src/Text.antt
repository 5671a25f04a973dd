-- ===== src/Text.antt =====
-- What the program uses of Go's packages `strings` and `unicode`, over the code points of a text.
use Prim.Native.Char.{code}
use nur_proxy.Base.{
  ℕ, ◌≡◌, refl, Bool, true, false, not, ◌&&◌, ◌||◌, String, List, [], ◌∷◌, leb, nat_beq,
}

-- The code points of a text, as `range` over a Go string gives them.
abbrev pub codes : String → List ℕ
codes String.[] = []
codes (String.◌∷◌ c s) = code c ∷ codes s

-- `unicode.IsSpace`
unfoldable pub is_space : ℕ → Bool
is_space c =
    (leb 9 c && leb c 13)
    || nat_beq c 0x20
    || nat_beq c 0x85
    || nat_beq c 0xa0
    || nat_beq c 0x1680
    || (leb 0x2000 c && leb c 0x200a)
    || nat_beq c 0x2028
    || nat_beq c 0x2029
    || nat_beq c 0x202f
    || nat_beq c 0x205f
    || nat_beq c 0x3000

unfoldable pub all_space : List ℕ → Bool
unfolding is_space
all_space [] = true
all_space (c ∷ s) = is_space c && all_space s

-- `strings.TrimSpace(s) == ""`
unfoldable pub is_blank : String → Bool
unfolding all_space
is_blank s = all_space (codes s)

unfoldable pub ends_in_space : List ℕ → Bool
unfolding is_space
ends_in_space [] = false
ends_in_space (c ∷ []) = is_space c
ends_in_space (c ∷ d ∷ s) = ends_in_space (d ∷ s)

-- `strings.TrimSpace(s) == s`
unfoldable pub is_trimmed : List ℕ → Bool
unfolding is_space
is_trimmed [] = true
is_trimmed (c ∷ s) = not (is_space c) && not (ends_in_space (c ∷ s))

blank_tests : (is_blank " \t\n" ≡ true) × (is_blank " x " ≡ false) × (is_blank "" ≡ true)
unfolding is_blank
blank_tests = (refl, refl, refl)
