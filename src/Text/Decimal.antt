-- ===== src/Text/Decimal.antt =====
-- `str(n)` and `f"{n:d}"` of an integer, and `int(text)` of Python 3.11: base ten, white space on
-- both sides, an optional sign, single underscores between digits, at most 4300 digits.
use native.Mathlib.Nat.{pow-zero, pow-suc}
use byo_redis.Prelude.{
  All, ℕ, zero, suc, ◌+◌, ◌-◌, ◌*◌, ◌/◌, ◌%◌, ◌≤◌, ◌<◌, ◌^◌, ◌≡◌, refl, Bool, true, false, ◌&&◌,
  ◌||◌, Option, none, some, List, [], ◌∷◌, arith, leb, ltb, ◌==◌, if◌then◌else◌, ℤ, pos, negsuc,
  neg_ℕ, Bool-cases, if_cases, ==_iff, ap, ◌∙◌, inl, inr,
}

-- The digits of a positive number in front of `out`; `n` rounds of the loop are enough for `n`.
dec_digits : ℕ → ℕ → List ℕ → List ℕ
dec_digits zero n out = out
dec_digits (suc f) n out =
    let rest = dec_digits f (n / 10) ((b'0' + n % 10) ∷ out) in if n == 0 then out else rest

unfoldable pub decimal_ℕ : ℕ → List ℕ
unfolding dec_digits
decimal_ℕ n = if n == 0 then b'0' ∷ [] else dec_digits n n []

unfoldable pub decimal : ℤ → List ℕ
unfolding decimal_ℕ
decimal (pos n) = decimal_ℕ n
decimal (negsuc n) = b'-' ∷ decimal_ℕ (suc n)

is_space : ℕ → Bool
is_space c = c == b' ' || (leb 9 c && leb c 13)

is_digit : ℕ → Bool
is_digit c = leb b'0' c && leb c b'9'

all_space : List ℕ → Bool
all_space [] = true
all_space (c ∷ s) = is_space c && all_space s

skip_space : List ℕ → List ℕ
skip_space [] = []
skip_space (c ∷ s) = let rest = skip_space s in if is_space c then rest else c ∷ s

-- sys.int_info.default_max_str_digits
unfoldable pub int_max_str_digits : ℕ
int_max_str_digits = 4300

-- `after` says whether the byte before is a digit, `n` is the value so far, `k` counts the digits.
scan : Bool → ℕ → ℕ → List ℕ → Option ℕ
scan after n k [] = if after && leb k int_max_str_digits then some n else none
scan after n k (c ∷ s) =
    let digit = scan true (n * 10 + (c - b'0')) (k + 1) s in
    let underscore = if after then scan false n k s else none in
    let stop = if after && all_space (c ∷ s) && leb k int_max_str_digits then some n else none in
    if is_digit c then digit else if c == b'_' then underscore else stop

signed : List ℕ → Option ℤ
signed [] = none
signed (c ∷ s) =
    if c == b'-'
    then (elim (scan false 0 0 s) [ none ↦ none | some n ↦ some (neg_ℕ n) ])
    else if c == b'+'
    then (elim (scan false 0 0 s) [ none ↦ none | some n ↦ some (pos n) ])
    else (elim (scan false 0 0 (c ∷ s)) [ none ↦ none | some n ↦ some (pos n) ])

-- `int(text)`; `none` is `ValueError`
unfoldable pub int : List ℕ → Option ℤ
unfolding is_space is_digit all_space skip_space int_max_str_digits scan signed
int s = signed (skip_space s)

abbrev HeadIsDigit : List ℕ → Type 0
HeadIsDigit [] = ⊥
HeadIsDigit (c ∷ s) = (b'0' ≤ c) × (c ≤ b'9')

-- How many digits `dec_digits` writes.
count_digits : ℕ → ℕ → ℕ
count_digits zero n = 0
count_digits (suc f) n = let k = count_digits f (n / 10) in if n == 0 then 0 else k + 1

dec_digits-zero : (f : ℕ) (out : List ℕ) → dec_digits f 0 out ≡ out
unfolding dec_digits
dec_digits-zero zero out = refl
dec_digits-zero (suc f) out = refl

-- One round of the loop.
dec_digits-suc :
    (f n : ℕ) (out : List ℕ)
    → 0 < n
    → dec_digits (suc f) n out ≡ dec_digits f (n / 10) ((b'0' + n % 10) ∷ out)
unfolding dec_digits
dec_digits-suc f n out h = ground arith

HeadIsDigit-digit : (n : ℕ) (out : List ℕ) → HeadIsDigit ((b'0' + n % 10) ∷ out)
HeadIsDigit-digit n out = omega arith

dec_digits-HeadIsDigit : (f n : ℕ) (out : List ℕ) → 0 < n → n ≤ f → HeadIsDigit (dec_digits f n out)
dec_digits-HeadIsDigit zero n out positive le = absurd (omega arith)
dec_digits-HeadIsDigit (suc f) n out positive le =
    rw (dec_digits-suc f n out positive) (elim (Bool-cases (n / 10 == 0)) [
      | inl e ↦ rw ((==_iff (n / 10) 0).0 e, dec_digits-zero) (HeadIsDigit-digit n out)
      | inr e ↦ dec_digits-HeadIsDigit f (n / 10) _ (ground arith) (omega arith)
    ])

scan_digit :
    (after : Bool) (d m k : ℕ) (out : List ℕ)
    → d < 10
    → scan after m k ((b'0' + d) ∷ out) ≡ scan true (m * 10 + d) (k + 1) out
unfolding scan is_digit
scan_digit after d m k out h = ground arith

count_digits-zero : (f : ℕ) → count_digits f 0 ≡ 0
unfolding count_digits
count_digits-zero zero = refl
count_digits-zero (suc f) = refl

count_digits-suc : (f n : ℕ) → 0 < n → count_digits (suc f) n ≡ count_digits f (n / 10) + 1
unfolding count_digits
count_digits-suc f n h = ground arith

-- Reading the digits of `n` gives `n`, and counts them.
scan-dec_digits :
    (f n : ℕ) (out : List ℕ)
    → 0 < n
    → n ≤ f
    → scan false 0 0 (dec_digits f n out) ≡ scan true n (count_digits f n) out
scan-dec_digits zero n out positive le = absurd (omega arith)
scan-dec_digits (suc f) n out positive le =
    rw (dec_digits-suc f n out positive, count_digits-suc f n positive)
      (elim (Bool-cases (n / 10 == 0)) [
        | inl e ↦
            let small : n / 10 ≡ 0 = (==_iff (n / 10) 0).0 e in
            let whole : 0 * 10 + n % 10 ≡ n = omega arith in
            rw (small, dec_digits-zero, count_digits-zero)
              (scan_digit false (n % 10) 0 0 out (omega arith) ∙ ap (λ m. scan true m 1 out) whole)
        | inr e ↦
            let whole : n / 10 * 10 + n % 10 ≡ n = omega arith in
            scan-dec_digits f (n / 10) _ (ground arith) (omega arith)
            ∙ scan_digit true (n % 10) (n / 10) _ out (omega arith)
            ∙ ap (λ m. scan true m (count_digits f (n / 10) + 1) out) whole
      ])

tenth-lt : (n k : ℕ) → n < 10 ^ suc k → n / 10 < 10 ^ k
tenth-lt n k h = let more : n < 10 ^ k * 10 = rw (pow-suc 10 k) at h in omega arith

-- A number below 10 ^ k has at most k digits.
count_digits-le : (f n k : ℕ) → n < 10 ^ k → count_digits f n ≤ k
count_digits-le zero n k h = unfold count_digits in omega arith
count_digits-le (suc f) n zero h =
    let none_left : n ≡ 0 = omega (arith, pow-zero 10) in
    rw (none_left, count_digits-zero) (omega arith)
count_digits-le (suc f) n (suc k) h = elim (Bool-cases (n == 0)) [
  | inl e ↦ rw ((==_iff n 0).0 e, count_digits-zero) (omega arith)
  | inr e ↦
      rw (count_digits-suc f n (ground arith))
        (omega (arith, count_digits-le f (n / 10) k (tenth-lt n k h)))
]

signed-HeadIsDigit :
    (s : List ℕ)
    → HeadIsDigit s
    → signed (skip_space s) ≡ (elim (scan false 0 0 s) [ none ↦ none | some n ↦ some (pos n) ])
unfolding signed skip_space is_space
signed-HeadIsDigit [] h = absurd h
signed-HeadIsDigit (c ∷ s) h = ground arith

-- |z|
abbrev pub magnitude : ℤ → ℕ
magnitude (pos n) = n
magnitude (negsuc n) = suc n

-- The numbers that `int` takes in, as far as the number of digits goes.
abbrev pub FitsInt : ℕ → Type 0
FitsInt n = n < 10 ^ int_max_str_digits

-- What Python tests before it writes a number in base ten.
unfoldable pub fits_digits : ℕ → Bool
fits_digits n = ltb n (10 ^ int_max_str_digits)

pub FitsInt-fits_digits : (n : ℕ) → FitsInt n → fits_digits n ≡ true
unfolding fits_digits
FitsInt-fits_digits n h = ground arith

pub max_digits-le : (n : ℕ) → fits_digits n ≡ false → 10 ^ int_max_str_digits ≤ n
unfolding fits_digits
max_digits-le n h = ground arith

scan_end : (n k : ℕ) → k ≤ int_max_str_digits → scan true n k [] ≡ some n
unfolding scan
scan_end n k h = ground arith

one-le-max : 1 ≤ int_max_str_digits
unfolding int_max_str_digits
one-le-max = omega arith

scan-decimal_ℕ : (n : ℕ) → FitsInt n → scan false 0 0 (decimal_ℕ n) ≡ some n
unfolding decimal_ℕ
scan-decimal_ℕ n h = elim (Bool-cases (n == 0)) [
  | inl e ↦
      rw (e, (==_iff n 0).0 e) (scan_digit false 0 0 0 [] (omega arith) ∙ scan_end 0 1 one-le-max)
  | inr e ↦ rw e (
      scan-dec_digits n n [] (ground arith) (omega arith)
      ∙ scan_end n _ (count_digits-le n n int_max_str_digits h))
]

decimal_ℕ-HeadIsDigit : (n : ℕ) → HeadIsDigit (decimal_ℕ n)
unfolding decimal_ℕ
decimal_ℕ-HeadIsDigit n = elim (Bool-cases (n == 0)) [
  | inl e ↦ rw e (omega arith)
  | inr e ↦ rw e (dec_digits-HeadIsDigit n n [] (ground arith) (omega arith))
]

-- What `str` prints of a natural number, `int` reads back.
pub int-decimal_ℕ : (n : ℕ) → FitsInt n → int (decimal_ℕ n) ≡ some (pos n)
unfolding int
int-decimal_ℕ n h = rw (signed-HeadIsDigit _ (decimal_ℕ-HeadIsDigit n), scan-decimal_ℕ n h)

-- What `str` prints of an integer, `int` reads back.
pub int-decimal : (z : ℤ) → FitsInt (magnitude z) → int (decimal z) ≡ some z
unfolding decimal
int-decimal (pos n) h = int-decimal_ℕ n h
int-decimal (negsuc n) h =
    unfold int in unfold skip_space is_space signed in rw (scan-decimal_ℕ (suc n) h) (ground arith)

-- A digit or a minus sign.
abbrev pub IsDecimal : ℕ → Type 0
IsDecimal c = (b'-' ≤ c) × (c ≤ b'9')

dec_digits-All : (f n : ℕ) (out : List ℕ) → All IsDecimal out → All IsDecimal (dec_digits f n out)
unfolding dec_digits
dec_digits-All zero n out h = h
dec_digits-All (suc f) n out h =
    if_cases (All IsDecimal) (n == 0) {x = out} (λ _. h)
      (λ _. dec_digits-All f (n / 10) ((b'0' + n % 10) ∷ out) ((omega arith, omega arith), h))

pub decimal_ℕ-All : (n : ℕ) → All IsDecimal (decimal_ℕ n)
unfolding decimal_ℕ
decimal_ℕ-All n =
    if_cases (All IsDecimal) (n == 0) {x = b'0' ∷ []} (λ _. omega arith)
      (λ _. dec_digits-All n n [] tt)

-- A number is written in digits, and a minus sign.
pub decimal-All : (z : ℤ) → All IsDecimal (decimal z)
unfolding decimal
decimal-All (pos n) = decimal_ℕ-All n
decimal-All (negsuc n) = ((omega arith, omega arith), decimal_ℕ-All (suc n))

-- A 64-bit number is short enough for `int`.
pub FitsInt-word : (n : ℕ) → n < 2 ^ 64 → FitsInt n
unfolding int_max_str_digits
FitsInt-word n h = omega arith
