-- ===== src/Protocol/Parser/RoundTrip.antt =====
-- What `encode_value` and `encode_command` write, the parser reads back.
use byo_redis.Prelude.{
  ℕ, zero, suc, ◌≤◌, ◌≡◌, ◌≢◌, refl, ap, ◌∙◌, true, false, [], ◌∷◌, ◌++◌, arith, length, Result, ok,
  raise, ◌>>=◌, append_assoc, Bool-cases, ltb, inl, inr, map, if◌then◌else◌, All, ℤ, pos,
}
use byo_redis.Text.{Bytes, Str}
use byo_redis.Text.Decimal.{FitsInt, magnitude, decimal_ℕ, FitsInt-fits_digits}
use byo_redis.Text.Utf8.{decode, encode, IsScalar, decode-encode}
use byo_redis.Protocol.Object.{
  Object, Objects, null, boolean, integer, bulk, text, array, error_msg, simple, resp_error, nil,
  cons, count,
}
use byo_redis.Protocol.Encoder.{
  EncodeError, cr, crlf, str, encode_simple_string, encode_integer, encode_value, encode_items,
  blank_byte, has_newline,
}
use byo_redis.Protocol.Parser.{Limits, done, parse_items, array_body, parse_array, try_parse}
use byo_redis.Protocol.Parser.Lines.{
  try_parse-array, parse_array-decimal_ℕ, bulk-RoundTrip, integer-RoundTrip, null-RoundTrip,
  line-RoundTrip, error-RoundTrip,
}

-- What a client reads where the server encodes an object: RESP has no text and no Boolean, and an
-- error has no CR and no LF.
unfoldable mutual
  pub wire : Object → Object
  wire null = null
  wire (boolean b) = integer (if b then pos 1 else pos 0)
  wire (integer n) = integer n
  wire (bulk b) = bulk b
  wire (text s) = bulk (encode s)
  wire (array items) = array (wire_items items)
  wire (simple s) = text s
  wire (resp_error s) = error_msg (decode (map blank_byte (encode s)))
  wire (error_msg s) = error_msg s

  pub wire_items : Objects → Objects
  wire_items nil = nil
  wire_items (cons x xs) = cons (wire x) (wire_items xs)

-- An object within the limits of the parser that reads it, with `levels` levels of nesting left.
module _ (l : Limits) where
  abbrev mutual
    pub FitsWire : Object → ℕ → Type 0
    FitsWire (integer n) levels = FitsInt (magnitude n)
    FitsWire (boolean b) levels = FitsInt 1
    FitsWire (bulk b) levels = (length b ≤ l.max_bulk_len) × FitsInt (length b)
    FitsWire (text s) levels = (length (encode s) ≤ l.max_bulk_len) × FitsInt (length (encode s))
    FitsWire (array items) zero = ⊥
    FitsWire (array items) (suc levels) =
        (count items ≤ l.max_array_len) × FitsInt (count items) × FitsItems items levels
    FitsWire (simple s) levels = All IsScalar s
    FitsWire other levels = Unit

    pub FitsItems : Objects → ℕ → Type 0
    FitsItems nil levels = Unit
    FitsItems (cons x xs) levels = FitsWire x levels × FitsItems xs levels

-- Whatever comes behind the bytes, the parser reads `v` off their front.
abbrev ReadsAs : Limits → ℕ → Object → Result EncodeError Bytes → Type 0
ReadsAs l levels v (ok bs) = (rest : Bytes) → try_parse l levels (bs ++ rest) ≡ done v rest
ReadsAs l levels v (raise e) = Unit

abbrev ReadsItems : Limits → ℕ → Objects → ℕ → Result EncodeError Bytes → Type 0
ReadsItems l levels vs n (ok bs) =
    (rest : Bytes) → parse_items l (try_parse l levels) n (bs ++ rest) ≡ done vs rest
ReadsItems l levels vs n (raise e) = Unit

ne_cr_of_has_newline : (s : Bytes) → has_newline s ≡ false → All (λ c. c ≢ cr) s
unfolding has_newline
ne_cr_of_has_newline [] h = tt
ne_cr_of_has_newline (c ∷ s) h = (ground arith, ne_cr_of_has_newline s (ground arith))

blank_byte-ne_cr : (c : ℕ) → blank_byte c ≢ cr
unfolding blank_byte
blank_byte-ne_cr c = ground arith

map-blank_byte-ne_cr : (s : Bytes) → All (λ c. c ≢ cr) (map blank_byte s)
map-blank_byte-ne_cr [] = tt
map-blank_byte-ne_cr (c ∷ s) = (blank_byte-ne_cr c, map-blank_byte-ne_cr s)

module _ (l : Limits) where
  simple-ReadsAs :
      (levels : ℕ) (s : Str)
      → All IsScalar s
      → ReadsAs l levels (text s) (encode_simple_string (str s))
  unfolding encode_simple_string
  simple-ReadsAs levels s h = elim (Bool-cases (has_newline (encode s))) [
    | inl e ↦ rw e tt
    | inr e ↦ rw e (λ rest.
        line-RoundTrip l levels (encode s) rest (ne_cr_of_has_newline (encode s) e)
        ∙ ap (λ t. done (text t) rest) (decode-encode s h))
  ]

  array-ReadsAs :
      (levels n : ℕ) (vs : Objects) (r : Result EncodeError Bytes)
      → n ≤ l.max_array_len
      → FitsInt n
      → ReadsItems l levels vs n r
      → ReadsAs l
          (suc levels)
          (array vs)
          (r >>= λ parts. ok (b'*' ∷ (decimal_ℕ n ++ crlf ++ parts)))
  unfolding array_body
  array-ReadsAs levels n vs (raise e) h fits k = tt
  array-ReadsAs levels n vs (ok parts) h fits k = λ rest.
      try_parse-array l levels _
      ∙ ap (parse_array l (try_parse l levels)) (simp append_assoc)
      ∙ parse_array-decimal_ℕ l (try_parse l levels) n (parts ++ rest) fits
      ∙ (elim (Bool-cases (ltb l.max_array_len n)) [
        | inl e ↦ absurd (ground arith)
        | inr e ↦ rw (e, k rest)
      ])

  cons-ReadsItems :
      (levels n : ℕ) (v : Object) (vs : Objects) (r t : Result EncodeError Bytes)
      → ReadsAs l levels v r
      → ReadsItems l levels vs n t
      → ReadsItems l levels (cons v vs) (suc n) (r >>= λ part. t >>= λ parts. ok (part ++ parts))
  unfolding parse_items
  cons-ReadsItems levels n v vs (raise e) t h k = tt
  cons-ReadsItems levels n v vs (ok part) (raise e) h k = tt
  cons-ReadsItems levels n v vs (ok part) (ok parts) h k =
      λ rest. rw (append_assoc, h (parts ++ rest), k rest)

  integer-ReadsAs :
      (levels : ℕ) (z : ℤ) → FitsInt (magnitude z) → ReadsAs l levels (integer z) (encode_integer z)
  unfolding encode_integer
  integer-ReadsAs levels z h =
      rw (FitsInt-fits_digits (magnitude z) h) (λ rest. integer-RoundTrip l levels z rest h)

  mutual
    unfolding wire encode_value parse_items

    value-ReadsAs :
        (x : Object) (levels : ℕ) → FitsWire l x levels → ReadsAs l levels (wire x) (encode_value x)
    value-ReadsAs null levels h = λ rest. null-RoundTrip l levels rest
    value-ReadsAs (boolean true) levels h = integer-ReadsAs levels (pos 1) h
    value-ReadsAs (boolean false) levels h = integer-ReadsAs levels (pos 0) (omega arith)
    value-ReadsAs (integer n) levels h = integer-ReadsAs levels n h
    value-ReadsAs (bulk b) levels h = λ rest. bulk-RoundTrip l levels b rest h.0 h.1
    value-ReadsAs (text s) levels h = λ rest. bulk-RoundTrip l levels (encode s) rest h.0 h.1
    value-ReadsAs (array items) zero h = absurd h
    value-ReadsAs (array items) (suc levels) h =
        array-ReadsAs levels (count items) (wire_items items) (encode_items items) h.0 h.1
          (items-ReadsItems items levels h.2)
    value-ReadsAs (simple s) levels h = simple-ReadsAs levels s h
    value-ReadsAs (resp_error s) levels h = λ rest.
        error-RoundTrip l levels (map blank_byte (encode s)) rest (map-blank_byte-ne_cr (encode s))
    value-ReadsAs (error_msg s) levels h = tt

    items-ReadsItems :
        (xs : Objects) (levels : ℕ)
        → FitsItems l xs levels
        → ReadsItems l levels (wire_items xs) (count xs) (encode_items xs)
    items-ReadsItems nil levels h = λ rest. refl
    items-ReadsItems (cons x xs) levels h =
        cons-ReadsItems levels (count xs) (wire x) (wire_items xs) (encode_value x)
          (encode_items xs) (value-ReadsAs x levels h.0) (items-ReadsItems xs levels h.1)

-- Whatever the server encodes, the parser reads back as `wire` says, and takes exactly its bytes off
-- the stream, when the parts fit the limits of the parser.
pub try_parse-encode_value :
    (l : Limits) (x : Object) (bs rest : Bytes)
    → FitsWire l x l.max_array_depth
    → encode_value x ≡ ok bs
    → try_parse l l.max_array_depth (bs ++ rest) ≡ done (wire x) rest
try_parse-encode_value l x bs rest h e =
    let reads : ReadsAs l l.max_array_depth (wire x) (ok bs) =
      (rw e at (value-ReadsAs l x l.max_array_depth h)) in
    reads rest
