-- ===== src/Service/Code.antt =====
-- packages/service/src/claim.ts: `codeFromIdentifier`, the code that a person types in.
use warden_md.Common.{
  leb, if◌then◌else◌, append, ℕ, zero, suc, ◌-◌, String, ◌≡◌, refl, Bool, ◌&&◌, ◌||◌, [], ◌∷◌,
}
use Prim.Native.String
use Prim.Native.String.{[], ◌∷◌}
use Prim.Native.Char.{code}

-- `[A-Za-z0-9]`
abbrev pub is_alphanumeric : ℕ → Bool
is_alphanumeric c = (leb 65 c && leb c 90) || (leb 97 c && leb c 122) || (leb 48 c && leb c 57)

-- `.replaceAll(/[^A-Za-z0-9]/gu, "")`
abbrev pub compact : String → String
compact [] = ""
compact (c ∷ s) = let rest = compact s in if is_alphanumeric (code c) then c ∷ rest else rest

abbrev pub padding : ℕ → String
padding zero = ""
padding (suc n) = append "X" (padding n)

-- `.padStart(n, "X")` and `.padEnd(n, "X")`
abbrev pub pad_start : ℕ → String → String
pad_start n s = append (padding (n - String.count s)) s

abbrev pub pad_end : ℕ → String → String
pad_end n s = append s (padding (n - String.count s))

-- The identifier is reduced to ASCII first, so that `slice` by bytes is `slice` by characters.
unfoldable pub code_from_identifier : (String → String) → String → String
code_from_identifier to_upper_case identifier =
    let text = to_upper_case (compact identifier) in
    let suffix = pad_start 12 (String.slice text (String.count text - 12) (String.count text)) in
    append (pad_end 4 (String.slice text 0 4)) (
      append "-" (
        append (String.slice suffix 0 4)
          (append "-" (append (String.slice suffix 4 8) (append "-" (String.slice suffix 8 12))))))

group_test : code_from_identifier (λ s. s) "user_0123-ABCD" ≡ "user-user-0123-ABCD"
unfolding code_from_identifier
group_test = refl
