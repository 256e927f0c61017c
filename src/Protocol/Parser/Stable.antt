-- ===== src/Protocol/Parser/Stable.antt =====
-- What the parser makes of a buffer it still makes of the buffer with more bytes behind it, and each
-- value that it yields takes bytes off.
use byo_redis.Prelude.{
  ℕ, zero, suc, ◌-◌, ◌≤◌, ◌≡◌, refl, Option, none, some, [], ◌∷◌, ◌++◌, arith, ltb, length, drop, ℤ,
  pos, negsuc, Bool-cases, inl, inr, length-drop, length-append, take-append_of_le,
  drop-append_of_le,
}
use byo_redis.Text.{Bytes}
use byo_redis.Text.Decimal.{int}
use byo_redis.Protocol.Object.{Object}
use byo_redis.Protocol.Parser.{
  ProtocolError, Limits, Parsed, incomplete, done, fail, and_then, read_line, parse_line_value,
  parse_error, number_or, integer_of, parse_integer, bulk_body, bulk_of_length, bulk_of, parse_bulk,
  parse_items, array_body, array_of_length, array_of, parse_array, parse_value, try_parse,
}

-- `p` comes from a buffer of `n` bytes and `q` from the same with `more` behind it: a value and an
-- error are the same, and what is left behind a value is no longer than the buffer.
abbrev pub Stable {ℓ} : {A : Type ℓ} → ℕ → Bytes → Parsed A → Parsed A → Type ℓ
Stable n more incomplete q = Unit
Stable n more (done v rest) q = (length rest ≤ n) × (q ≡ done v (rest ++ more))
Stable n more (fail e) q = q ≡ fail e

module _ (more : Bytes) where
  and_then-Stable {ℓ} :
      {A B : Type ℓ} (n : ℕ) (p q : Parsed A) (f : A → Bytes → Parsed B)
      → Stable n more p q
      → ((a : A) (rest : Bytes) → length rest ≤ n → Stable n more (f a rest) (f a (rest ++ more)))
      → Stable n more (and_then p f) (and_then q f)
  and_then-Stable n incomplete q f h g = tt
  and_then-Stable n (done a rest) q f h g = rw (h.1) (g a rest h.0)
  and_then-Stable n (fail e) q f h g = rw h refl

  Stable-le {ℓ} :
      {A : Type ℓ} (k n : ℕ) (p q : Parsed A) → k ≤ n → Stable k more p q → Stable n more p q
  Stable-le k n incomplete q h g = tt
  Stable-le k n (done a rest) q h g = (omega arith, g.1)
  Stable-le k n (fail e) q h g = g

  pub read_line-Stable : (s : Bytes) → Stable (length s) more (read_line s) (read_line (s ++ more))
  unfolding read_line
  read_line-Stable [] = tt
  read_line-Stable (c ∷ []) = tt
  read_line-Stable (c ∷ d ∷ s) = ground (
    arith,
    and_then-Stable (suc (suc (length s))) (read_line (d ∷ s)) (read_line (d ∷ (s ++ more)))
        (λ line rest. done (c ∷ line) rest)
        (Stable-le _ _ (read_line (d ∷ s)) _ (omega arith) (read_line-Stable (d ∷ s)))
        (λ line rest h. (h, refl)),
  )

  -- A line, and what its continuation makes of the bytes behind it.
  line-Stable :
      {B : Type 0} (s : Bytes) (f : Bytes → Bytes → Parsed B)
      → ((line rest : Bytes) → Stable (length rest) more (f line rest) (f line (rest ++ more)))
      → Stable (length s) more (and_then (read_line s) f) (and_then (read_line (s ++ more)) f)
  line-Stable s f g =
      and_then-Stable _ (read_line s) _ f (read_line-Stable s)
        (λ line rest h. Stable-le _ _ (f line rest) _ h (g line rest))

  number_or-Stable :
      (n : ℕ) (e : ProtocolError) (o : Option ℤ) (f g : ℤ → Parsed Object)
      → ((z : ℤ) → Stable n more (f z) (g z))
      → Stable n more (number_or e o f) (number_or e o g)
  number_or-Stable n e none f g h = refl
  number_or-Stable n e (some z) f g h = h z

  line_value-Stable :
      (s : Bytes) → Stable (length s) more (parse_line_value s) (parse_line_value (s ++ more))
  unfolding parse_line_value
  line_value-Stable s = line-Stable s _ (λ line rest. (omega arith, refl))

  error-Stable : (s : Bytes) → Stable (length s) more (parse_error s) (parse_error (s ++ more))
  unfolding parse_error
  error-Stable s = line-Stable s _ (λ line rest. (omega arith, refl))

  integer-Stable :
      (s : Bytes) → Stable (length s) more (parse_integer s) (parse_integer (s ++ more))
  unfolding parse_integer
  integer-Stable s = line-Stable s integer_of (λ line rest.
      unfold integer_of in number_or-Stable _ _ (int line) _ _ (λ z. (omega arith, refl)))

  module _ (l : Limits) where
    bulk_body-Stable :
        (n : ℕ) (s : Bytes) → Stable (length s) more (bulk_body l n s) (bulk_body l n (s ++ more))
    unfolding bulk_body
    bulk_body-Stable n s = ground (
      arith,
      length-append s more,
      length-drop n s,
      length-drop 2 (drop n s),
      take-append_of_le n s more,
      drop-append_of_le n s more,
      take-append_of_le 2 (drop n s) more,
      drop-append_of_le 2 (drop n s) more,
    )

    bulk_of_length-Stable :
        (z : ℤ) (s : Bytes)
        → Stable (length s) more (bulk_of_length l z s) (bulk_of_length l z (s ++ more))
    unfolding bulk_of_length
    bulk_of_length-Stable (pos n) s = bulk_body-Stable n s
    bulk_of_length-Stable (negsuc zero) s = (omega arith, refl)
    bulk_of_length-Stable (negsuc (suc n)) s = refl

    bulk-Stable : (s : Bytes) → Stable (length s) more (parse_bulk l s) (parse_bulk l (s ++ more))
    unfolding parse_bulk
    bulk-Stable s = line-Stable s (bulk_of l) (λ line rest.
        unfold bulk_of in number_or-Stable _ _ (int line) _ _ (λ z. bulk_of_length-Stable z rest))

    module _ (item : Bytes → Parsed Object)
        (item-Stable : (s : Bytes) → Stable (length s) more (item s) (item (s ++ more))) where
      items-Stable :
          (n : ℕ) (s : Bytes)
          → Stable (length s) more (parse_items l item n s) (parse_items l item n (s ++ more))
      unfolding parse_items
      items-Stable zero s = (omega arith, refl)
      items-Stable (suc n) s = and_then-Stable _ (item s) _ _ (item-Stable s) (λ x rest h.
          and_then-Stable _ (parse_items l item n rest) _ _
            (Stable-le _ _ (parse_items l item n rest) _ h (items-Stable n rest))
            (λ xs rest' h'. (h', refl)))

      array_body-Stable :
          (n : ℕ) (s : Bytes)
          → Stable (length s) more (array_body l item n s) (array_body l item n (s ++ more))
      unfolding array_body
      array_body-Stable n s = elim (Bool-cases (ltb l.max_array_len n)) [
        | inl e ↦ rw e refl
        | inr e ↦ rw e (
            and_then-Stable _ (parse_items l item n s) _ _ (items-Stable n s)
              (λ xs rest h. (h, refl)))
      ]

      array_of_length-Stable :
          (z : ℤ) (s : Bytes)
          → Stable
              (length s)
              more
              (array_of_length l item z s)
              (array_of_length l item z (s ++ more))
      unfolding array_of_length
      array_of_length-Stable (pos n) s = array_body-Stable n s
      array_of_length-Stable (negsuc zero) s = (omega arith, refl)
      array_of_length-Stable (negsuc (suc n)) s = refl

      array-Stable :
          (s : Bytes)
          → Stable (length s) more (parse_array l item s) (parse_array l item (s ++ more))
      unfolding parse_array
      array-Stable s = line-Stable s (array_of l item) (λ line rest.
          unfold array_of in
          number_or-Stable _ _ (int line) _ _ (λ z. array_of_length-Stable z rest))

    -- The prefix byte is taken off too, so that less is left than before.
    value-Stable :
        (arrays : Bytes → Parsed Object)
        → ((s : Bytes) → Stable (length s) more (arrays s) (arrays (s ++ more)))
        → (s : Bytes)
        → Stable (length s - 1) more (parse_value l arrays s) (parse_value l arrays (s ++ more))
    unfolding parse_value
    value-Stable arrays h [] = tt
    value-Stable arrays h (c ∷ s) =
        ground (arith, line_value-Stable s, error-Stable s, integer-Stable s, bulk-Stable s, h s)

    Stable-pred : (n : ℕ) (p q : Parsed Object) → Stable (n - 1) more p q → Stable n more p q
    Stable-pred n p q = Stable-le _ _ p q (omega arith)

    pub try_parse-Stable :
        (levels : ℕ) (s : Bytes)
        → Stable (length s - 1) more (try_parse l levels s) (try_parse l levels (s ++ more))
    unfolding try_parse
    try_parse-Stable zero s = value-Stable _ (λ _. refl) s
    try_parse-Stable (suc levels) s =
        value-Stable _
          (array-Stable (try_parse l levels)
            (λ t. Stable-pred _ (try_parse l levels t) _ (try_parse-Stable levels t)))
          s
