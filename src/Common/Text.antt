-- ===== src/Common/Text.antt =====
-- Text by code points: `split`, and the character classes of the source's patterns.
use Prim.Native.Char.{code}
use Prim.Native.String
use Prim.Native.String.{String, [], ◌∷◌}
use Prim.Native.Nat.{ℕ}
use mathlib.Core.Bool.{Bool, ◌&&◌, ◌||◌}
use mathlib.Core.List.{List, [], ◌∷◌}
use warden_md.Common.Tests.{leb, eqb, if◌then◌else◌}

-- `s.split(c)` for a separator of one character; the accumulator holds the part being read.
unfoldable pub split_from : ℕ → String → String → List String
split_from sep part [] = part ∷ []
split_from sep part (c ∷ s) =
    let closed = split_from sep "" s in
    let longer = split_from sep (String.◌++◌ part (c ∷ [])) s in
    if eqb (code c) sep then part ∷ closed else longer

abbrev pub split : ℕ → String → List String
split sep s = split_from sep "" s

-- Text concatenation.
abbrev pub append : String → String → String
append s t = String.◌++◌ s t

abbrev pub codes : String → List ℕ
codes [] = []
codes (c ∷ s) = code c ∷ codes s

-- `[A-Z]`
abbrev pub is_upper : ℕ → Bool
is_upper c = leb 65 c && leb c 90

-- `\s`
abbrev pub is_space : ℕ → Bool
is_space c =
    (leb 9 c && leb c 13)
    || eqb c 32
    || eqb c 160
    || eqb c 0x1680
    || (leb 0x2000 c && leb c 0x200a)
    || eqb c 0x2028
    || eqb c 0x2029
    || eqb c 0x202f
    || eqb c 0x205f
    || eqb c 0x3000
    || eqb c 0xfeff
