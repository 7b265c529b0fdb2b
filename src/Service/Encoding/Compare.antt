-- ===== src/Service/Encoding/Compare.antt =====
-- packages/service/src/encoding.ts: what the comparison of secrets says. The laws of the bit
-- operations are by recursion on their digits.
use Prim.Native.Nat.{bit_or, bit_xor, digits, differ, max, bit_or-bitwise, bit_xor-bitwise}
use warden_md.Common.{
  eqb, Bool-cases, length, ℕ, zero, suc, ◌+◌, ◌*◌, ◌/◌, ◌%◌, ◌≤◌, ◌<◌, ◌≡◌, refl, sym, ◌∙◌, subst,
  ◌↔◌, inl, inr, true, List, [], ◌∷◌, arith,
}
use warden_md.Service.Encoding.{byte_at, differ_from, constant_time_equal}

differ-zero : (x y : ℕ) → differ x y ≡ 0 → x ≡ y
differ-zero zero y h = sym h
differ-zero (suc x) zero h = h
differ-zero (suc x) (suc y) h = omega (arith, differ-zero x y h)

differ-same : (x : ℕ) → differ x x ≡ 0
differ-same zero = refl
differ-same (suc x) = differ-same x

xor_digits : (n a b : ℕ) → a ≤ n → digits (λ b. b) differ n a b ≡ 0 → a ≡ b
xor_digits zero zero b p h = sym h
xor_digits zero (suc a) b p h = absurd (omega (arith, p))
xor_digits (suc n) zero b p h = sym h
xor_digits (suc n) (suc a) b p h =
    let high = digits (λ b. b) differ n (suc a / 2) (b / 2) in
    let low = differ (suc a % 2) (b % 2) in
    let sum : high * 2 + low ≡ 0 = h in
    let halves = xor_digits n (suc a / 2) (b / 2) (omega (arith, p)) (omega (arith, sum)) in
    let parity = differ-zero (suc a % 2) (b % 2) (omega (arith, sum)) in
    omega (arith, halves, parity)

xor_digits-same : (n a : ℕ) → a ≤ n → digits (λ b. b) differ n a a ≡ 0
xor_digits-same zero zero p = refl
xor_digits-same zero (suc a) p = absurd (omega (arith, p))
xor_digits-same (suc n) zero p = refl
xor_digits-same (suc n) (suc a) p =
    omega (arith, xor_digits-same n (suc a / 2) (omega (arith, p)), differ-same (suc a % 2))

or_digits : (n a b : ℕ) → a ≤ n → digits (λ b. b) max n a b ≡ 0 → (a ≡ 0) × (b ≡ 0)
or_digits zero zero b p h = (refl, h)
or_digits zero (suc a) b p h = absurd (omega (arith, p))
or_digits (suc n) zero b p h = (refl, h)
or_digits (suc n) (suc a) b p h =
    let high = digits (λ b. b) max n (suc a / 2) (b / 2) in
    let low = max (suc a % 2) (b % 2) in
    let sum : high * 2 + low ≡ 0 = h in
    let halves = or_digits n (suc a / 2) (b / 2) (omega (arith, p)) (omega (arith, sum)) in
    absurd (omega (arith, halves.0, sum))

bit_xor-zero : (a b : ℕ) → bit_xor a b ≡ 0 → a ≡ b
bit_xor-zero a b h = xor_digits a a b (omega arith) (sym (bit_xor-bitwise a b) ∙ h)

bit_xor-same : (a : ℕ) → bit_xor a a ≡ 0
bit_xor-same a = bit_xor-bitwise a a ∙ xor_digits-same a a (omega arith)

bit_or-zero : (a b : ℕ) → bit_or a b ≡ 0 → (a ≡ 0) × (b ≡ 0)
bit_or-zero a b h = or_digits a a b (omega arith) (sym (bit_or-bitwise a b) ∙ h)

-- The loop ends at zero only if it began there and every pair of bytes that it read is one byte.
differ_from-zero :
    (rounds index difference : ℕ) (left right : List ℕ)
    → differ_from rounds index difference left right ≡ 0
    → (difference ≡ 0)
      × ((k : ℕ) → index ≤ k → k < index + rounds → byte_at left k ≡ byte_at right k)
unfolding differ_from
differ_from-zero zero index difference left right h =
    (h, λ k low high. absurd (omega (arith, low, high)))
differ_from-zero (suc rounds) index difference left right h =
    let (joined, later) =
      differ_from-zero rounds (suc index)
        (bit_or difference (bit_xor (byte_at left index) (byte_at right index))) left right h in
    let (before, here) =
      bit_or-zero difference (bit_xor (byte_at left index) (byte_at right index)) joined in
    (
      before,
      λ k low high. elim (Bool-cases (eqb index k)) [
        | inl same ↦
            let at : index ≡ k = ground (arith, same) in
            subst (λ i. byte_at left i ≡ byte_at right i) at
              (bit_xor-zero (byte_at left index) (byte_at right index) here)
        | inr apart ↦
            let above : suc index ≤ k = ground (arith, apart, low) in
            later k above (omega (arith, high))
      ],
    )

differ_from-same : (rounds index : ℕ) (bytes : List ℕ) → differ_from rounds index 0 bytes bytes ≡ 0
unfolding differ_from
differ_from-same zero index bytes = refl
differ_from-same (suc rounds) index bytes =
    rw (bit_xor-same (byte_at bytes index)) (differ_from-same rounds (suc index) bytes)

list_of_bytes :
    (left right : List ℕ)
    → length left ≡ length right
    → ((k : ℕ) → k < length left → byte_at left k ≡ byte_at right k)
    → left ≡ right
unfolding byte_at
list_of_bytes [] [] same bytes = refl
list_of_bytes [] (b ∷ right) same bytes = absurd (omega (arith, same))
list_of_bytes (a ∷ left) [] same bytes = absurd (omega (arith, same))
list_of_bytes (a ∷ left) (b ∷ right) same bytes = cc (
  bytes 0 (omega arith),
  list_of_bytes left right (omega (arith, same)) (λ k low. bytes (suc k) (omega (arith, low))),
)

-- The comparison of two byte strings, which takes the same rounds wherever they differ, answers
-- `true` exactly when they are equal.
pub constant_time_equal_iff :
    (left right : List ℕ) → (constant_time_equal left right ≡ true) ↔ (left ≡ right)
unfolding constant_time_equal
constant_time_equal_iff left right =
    (equal, λ e. subst (λ r. constant_time_equal left r ≡ true) e same)
  where
    equal : constant_time_equal left right ≡ true → left ≡ right
    equal h =
        let (lengths, bytes) =
          differ_from-zero (max (length left) (length right)) 0
            (bit_xor (length left) (length right)) left right (ground (arith, h)) in
        let level = bit_xor-zero (length left) (length right) lengths in
        list_of_bytes left right level (λ k low. bytes k (omega arith) (omega (arith, low)))

    same : constant_time_equal left left ≡ true
    same =
        rw (bit_xor-same (length left), differ_from-same (max (length left) (length left)) 0 left)
          refl
