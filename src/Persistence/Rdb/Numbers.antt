-- ===== src/Persistence/Rdb/Numbers.antt =====
-- The fixed-width numbers of a snapshot are read back as they were written.
use byo_redis.Prelude.{
  ℕ, ◌+◌, ◌-◌, ◌*◌, ◌/◌, ◌%◌, ◌^◌, ◌<◌, ◌≡◌, refl, ◌∙◌, Option, none, some, ◌++◌, arith, ltb,
  ltb→lt, length, length-append, take_append, drop_append, ℤ, pos, negsuc, Result, ok, raise,
  Bool-cases, inl, inr,
}
use byo_redis.Text.{Bytes}
use byo_redis.Persistence.Rdb.{
  RdbError, u32, pack_u32, pack_expire, Read, read_exact, little, read_u32, read_i64,
}

-- Whatever comes behind the bytes that were written, `read` takes `a` off their front.
abbrev pub ReadsBack : {A : Type 0} → (Bytes → Read A) → A → Result RdbError Bytes → Type 0
ReadsBack read a (ok bs) = (rest : Bytes) → read (bs ++ rest) ≡ ok (a, rest)
ReadsBack read a (raise e) = Unit

pub read_exact-append : (xs ys : Bytes) → read_exact (length xs) (xs ++ ys) ≡ ok (xs, ys)
unfolding read_exact
read_exact-append xs ys = elim (Bool-cases (ltb (length (xs ++ ys)) (length xs))) [
  | inl e ↦ absurd (omega (arith, length-append xs ys, ltb→lt (length (xs ++ ys)) (length xs) e))
  | inr e ↦ rw (e, take_append xs ys, drop_append xs ys) refl
]

pub little-u32 : (n : ℕ) → n < 2 ^ 32 → little (u32 n) ≡ n
little-u32 n h = omega arith

pub read_u32-u32 : (n : ℕ) (rest : Bytes) → n < 2 ^ 32 → read_u32 (u32 n ++ rest) ≡ ok (n, rest)
unfolding read_u32
read_u32-u32 n rest h = rw (read_exact-append (u32 n) rest, little-u32 n h) refl

pub read_u32-pack_u32 : (n : ℕ) → ReadsBack read_u32 n (pack_u32 n)
unfolding pack_u32
read_u32-pack_u32 n = elim (Bool-cases (ltb n (2 ^ 32))) [
  | inl e ↦ rw e (λ rest. read_u32-u32 n rest (ltb→lt n (2 ^ 32) e))
  | inr e ↦ rw e tt
]

-- The number of eight bytes that stands for an expiry time.
abbrev pub expire_number : Option ℕ → ℤ
expire_number none = negsuc 0
expire_number (some at) = pos at

little-append : (a b : ℕ) → a < 2 ^ 32 → b < 2 ^ 32 → little (u32 a ++ u32 b) ≡ a + 2 ^ 32 * b
little-append a b ha hb = omega (arith, little-u32 a ha, little-u32 b hb)

pub read_i64-pack_expire : (at : Option ℕ) → ReadsBack read_i64 (expire_number at) (pack_expire at)
unfolding pack_expire read_i64
read_i64-pack_expire none =
    λ rest. rw (read_exact-append (u32 (2 ^ 32 - 1) ++ u32 (2 ^ 32 - 1)) rest) refl
read_i64-pack_expire (some at) = elim (Bool-cases (ltb at (2 ^ 63))) [
  | inl e ↦
      let small : at < 2 ^ 63 = ltb→lt at (2 ^ 63) e in
      let whole : little (u32 (at % 2 ^ 32) ++ u32 (at / 2 ^ 32)) ≡ at =
        little-append (at % 2 ^ 32) (at / 2 ^ 32) (omega arith) (omega arith) ∙ omega arith in
      rw e (λ rest.
        rw (read_exact-append (u32 (at % 2 ^ 32) ++ u32 (at / 2 ^ 32)) rest, whole, e) refl)
  | inr e ↦ rw e tt
]
