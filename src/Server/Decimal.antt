-- ===== src/Server/Decimal.antt =====
-- What server/metrics_exporter.go uses of `fmt.Sprintf("%d", n)`: a sign and decimal digits.
use llm_bridge.Server.Comments.{Bytes}
use llm_bridge.Metrics.Text.{is_space, none_of, none_of-append, is_empty}
use llm_bridge.Metrics.Words.{is_word}
use llm_bridge.Base.{
  ℕ, zero, suc, ◌+◌, ◌-◌, ◌*◌, ◌/◌, ◌%◌, ◌<◌, ◌≡◌, refl, inl, inr, Bool, true, false, not, ◌&&◌, [],
  ◌∷◌, ◌++◌, arith, ltb, if◌then◌else◌, Bool-cases,
}
use llm_bridge.Base.Int.{ℤ, pos, negsuc}

-- The digits of a number, with more fuel than it has digits.
decimal : ℕ → ℕ → Bytes
decimal zero n = []
decimal (suc fuel) n =
    let digit = b'0' + n % 10 in
    let rest = decimal fuel (n / 10) in if ltb n 10 then digit ∷ [] else rest ++ digit ∷ []

unfoldable pub format_int : ℤ → Bytes
unfolding decimal
format_int (pos n) = decimal (suc n) n
format_int (negsuc n) = b'-' ∷ decimal (suc (suc n)) (suc n)

-- The number that digits stand for, after what has been read.
abbrev read_digits : ℕ → Bytes → ℕ
read_digits acc [] = acc
read_digits acc (c ∷ cs) = read_digits (acc * 10 + (c - b'0')) cs

read_digits-append :
    (acc : ℕ) (xs : Bytes) (c : ℕ)
    → read_digits acc (xs ++ c ∷ []) ≡ read_digits acc xs * 10 + (c - b'0')
read_digits-append acc [] c = refl
read_digits-append acc (x ∷ xs) c = read_digits-append (acc * 10 + (x - b'0')) xs c

-- The fuel is enough: the digits read back as the number.
read_digits-decimal : (fuel n : ℕ) → n < fuel → read_digits 0 (decimal fuel n) ≡ n
unfolding decimal
read_digits-decimal zero n h = absurd (omega arith)
read_digits-decimal (suc fuel) n h = elim (Bool-cases (ltb n 10)) [
  | inl e ↦ rw e (ground arith)
  | inr e ↦
      rw (e, read_digits-append 0 (decimal fuel (n / 10)) (b'0' + n % 10))
        (ground (arith, read_digits-decimal fuel (n / 10)))
]

digit_clean : (d : ℕ) → d < 10 → is_space (b'0' + d) ≡ false
unfolding is_space
digit_clean d h = ground arith

pub and_true : {a b : Bool} → a ≡ true → b ≡ true → a && b ≡ true
and_true h k = rw (h, k)

append-not_empty : (xs : Bytes) (c : ℕ) → not (is_empty (xs ++ c ∷ [])) ≡ true
append-not_empty [] c = refl
append-not_empty (x ∷ xs) c = refl

decimal-none_of : (fuel n : ℕ) → none_of is_space (decimal fuel n) ≡ true
unfolding decimal
decimal-none_of zero n = refl
decimal-none_of (suc fuel) n =
    let digit = digit_clean (n % 10) (omega arith) in
    let last : none_of is_space ((b'0' + n % 10) ∷ []) ≡ true = rw digit in
    elim (Bool-cases (ltb n 10)) [
      | inl e ↦ rw e last
      | inr e ↦
          rw e
            (none_of-append is_space (decimal fuel (n / 10)) _ (decimal-none_of fuel (n / 10)) last)
    ]

decimal-not_empty : (fuel n : ℕ) → not (is_empty (decimal (suc fuel) n)) ≡ true
unfolding decimal
decimal-not_empty fuel n = elim (Bool-cases (ltb n 10)) [
  | inl e ↦ rw e
  | inr e ↦ rw e (append-not_empty (decimal fuel (n / 10)) _)
]

pub format_int-is_word : (z : ℤ) → is_word (format_int z) ≡ true
unfolding format_int is_space
format_int-is_word (pos n) = and_true (decimal-none_of (suc n) n) (decimal-not_empty n n)
format_int-is_word (negsuc n) = rw (decimal-none_of (suc (suc n)) (suc n))
