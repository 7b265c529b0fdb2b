-- ===== src/Service/Encoding.antt =====
-- packages/service/src/encoding.ts: scopes as text, and the comparison of secrets. The functions
-- that only call the platform (base64url, UTF-8, SHA-256) are parameters where they are used.
pub mod Compare
use Prim.Native.Nat.{bit_or, bit_xor, max}
use Prim.Native.String
use Prim.Native.String.{[], ◌∷◌}
use Prim.Native.Char.{code}
use warden_md.Common.{
  eqb, if◌then◌else◌, truthy, length, includes, append, is_space, ℕ, zero, suc, String, Bool,
  Option, none, some, List, [], ◌∷◌,
}

-- `scope.split(/\s+/u).filter(Boolean)`: the words; the accumulator holds the one being read.
unfoldable pub words_from : String → String → List String
words_from word [] = if truthy word then word ∷ [] else []
words_from word (c ∷ s) =
    let closed = words_from "" s in
    let longer = words_from (append word (c ∷ [])) s in
    if is_space (code c) then if truthy word then word ∷ closed else closed else longer

-- `[...new Set(xs)]`: the first of each text, in order.
unfoldable pub distinct_from : List String → List String → List String
distinct_from seen [] = []
distinct_from seen (x ∷ xs) =
    let rest = distinct_from (x ∷ seen) xs in
    let skipped = distinct_from seen xs in if includes seen x then skipped else x ∷ rest

abbrev pub distinct : List String → List String
distinct xs = distinct_from [] xs

unfoldable pub split_scope : Option String → List String
unfolding words_from distinct_from
split_scope none = []
split_scope (some scope) = if truthy scope then distinct (words_from "" scope) else []

-- `bytes[index] ?? 0`
unfoldable pub byte_at : List ℕ → ℕ → ℕ
byte_at [] index = 0
byte_at (b ∷ bytes) zero = b
byte_at (b ∷ bytes) (suc index) = byte_at bytes index

-- The loop from `index`, with the rounds that are left.
unfoldable pub differ_from : ℕ → ℕ → ℕ → List ℕ → List ℕ → ℕ
unfolding byte_at
differ_from zero index difference left right = difference
differ_from (suc rounds) index difference left right =
    differ_from rounds (suc index)
      (bit_or difference (bit_xor (byte_at left index) (byte_at right index))) left right

-- `constantTimeEqual` on the bytes of its arguments.
unfoldable pub constant_time_equal : List ℕ → List ℕ → Bool
unfolding differ_from
constant_time_equal left right =
    eqb
      (differ_from (max (length left) (length right)) 0 (bit_xor (length left) (length right)) left
        right)
      0
