-- ===== src/Config/Atoi.antt =====
-- What config/config.go uses of `strconv.Atoi`: an optional sign, decimal digits, and the range of
-- a 64-bit `int`.
use llm_bridge.Base.Text.{runes}
use llm_bridge.Base.{
  ℕ, zero, suc, ◌+◌, ◌-◌, ◌*◌, ◌^◌, String, ◌≡◌, inl, inr, Bool, not, ◌||◌, Option, none, some,
  List, [], ◌∷◌, arith, ltb, ◌==◌, if◌then◌else◌, Bool-cases,
}
use llm_bridge.Base.Int.{ℤ, pos, negsuc, FitsInt64}

abbrev is_digit : ℕ → Bool
is_digit c = not (ltb c b'0' || ltb b'9' c)

-- The value of the digits, after `acc`.
digits_value : ℕ → List ℕ → Option ℕ
digits_value acc [] = some acc
digits_value acc (c ∷ cs) =
    let rest = digits_value (acc * 10 + (c - b'0')) cs in if is_digit c then rest else none

-- At least one digit.
magnitude : List ℕ → Option ℕ
unfolding digits_value
magnitude [] = none
magnitude (c ∷ cs) = digits_value 0 (c ∷ cs)

abbrev in_range_pos : ℕ → Option ℤ
in_range_pos n = if ltb n (2 ^ 63) then some (pos n) else none

abbrev in_range_neg : ℕ → Option ℤ
in_range_neg zero = some (pos 0)
in_range_neg (suc n) = if ltb n (2 ^ 63) then some (negsuc n) else none

infixl 5 ◌>>=◌
abbrev ◌>>=◌ : Option ℕ → (ℕ → Option ℤ) → Option ℤ
none >>= f = none
some n >>= f = f n

parse_signed : List ℕ → Option ℤ
parse_signed [] = none
parse_signed (c ∷ cs) =
    if c == b'-'
    then (magnitude cs >>= in_range_neg)
    else if c == b'+'
    then (magnitude cs >>= in_range_pos)
    else (magnitude (c ∷ cs) >>= in_range_pos)

unfoldable pub atoi : String → Option ℤ
unfolding parse_signed magnitude
atoi s = parse_signed (runes s)

in_range_neg-FitsInt64 : (n : ℕ) {z : ℤ} → in_range_neg n ≡ some z → FitsInt64 z
in_range_neg-FitsInt64 zero h = ground arith
in_range_neg-FitsInt64 (suc n) h = ground arith

in_range_pos-FitsInt64 : (n : ℕ) {z : ℤ} → in_range_pos n ≡ some z → FitsInt64 z
in_range_pos-FitsInt64 n h = ground arith

bind-FitsInt64 :
    (m : Option ℕ) (f : ℕ → Option ℤ) {z : ℤ}
    → ((n : ℕ) → f n ≡ some z → FitsInt64 z)
    → (m >>= f) ≡ some z
    → FitsInt64 z
bind-FitsInt64 none f h e = cc
bind-FitsInt64 (some n) f h e = h n e

parse_signed-FitsInt64 : (cs : List ℕ) {z : ℤ} → parse_signed cs ≡ some z → FitsInt64 z
unfolding parse_signed
parse_signed-FitsInt64 [] h = cc
parse_signed-FitsInt64 (c ∷ cs) h = elim (Bool-cases (c == b'-')) [
  | inl minus ↦
      bind-FitsInt64 (magnitude cs) in_range_neg (λ n e. in_range_neg-FitsInt64 n e) (rw minus at h)
  | inr not_minus ↦ elim (Bool-cases (c == b'+')) [
    | inl plus ↦
        bind-FitsInt64 (magnitude cs) in_range_pos (λ n e. in_range_pos-FitsInt64 n e)
          (ground arith)
    | inr not_plus ↦
        bind-FitsInt64 (magnitude (c ∷ cs)) in_range_pos (λ n e. in_range_pos-FitsInt64 n e)
          (ground arith)
  ]
]

pub atoi-FitsInt64 : (s : String) {z : ℤ} → atoi s ≡ some z → FitsInt64 z
unfolding atoi
atoi-FitsInt64 s h = parse_signed-FitsInt64 (runes s) h
