-- ===== src/Text/Utf8.antt =====
-- `bytes.decode("utf-8", errors="replace")` and `str.encode("utf-8")`. Each maximal prefix of an
-- ill-formed sequence becomes one U+FFFD.
use byo_redis.Prelude.{
  ℕ, ◌+◌, ◌-◌, ◌*◌, ◌/◌, ◌%◌, ◌≤◌, ◌<◌, ◌≡◌, refl, ◌⊎◌, inl, inr, ap, ◌∙◌, ◌&&◌, List, [], ◌∷◌,
  ◌++◌, arith, ltb, leb, ◌==◌, if◌then◌else◌, All, Bool-cases,
}

-- Inside a sequence: the bytes that it still needs, the range of the next one, the bits so far.
record Pending : Type 0 where
  need : ℕ
  lo : ℕ
  hi : ℕ
  bits : ℕ

abbrev between : Pending
between = record { need = 0; lo = 0; hi = 0; bits = 0 }

abbrev replacement : ℕ
replacement = 0xfffd

-- The first byte of a character: what it yields, and what is then pending.
lead : ℕ → List ℕ × Pending
lead b =
    if ltb b 0x80
    then (b ∷ [], between)
    else if leb 0xc2 b && leb b 0xdf
    then ([], record { need = 1; lo = 0x80; hi = 0xbf; bits = b - 0xc0 })
    else if leb 0xe0 b && leb b 0xef
    then (
      [],
      record {
        need = 2;
        lo = if b == 0xe0 then 0xa0 else 0x80;
        hi = if b == 0xed then 0x9f else 0xbf;
        bits = b - 0xe0;
      },
    )
    else if leb 0xf0 b && leb b 0xf4
    then (
      [],
      record {
        need = 3;
        lo = if b == 0xf0 then 0x90 else 0x80;
        hi = if b == 0xf4 then 0x8f else 0xbf;
        bits = b - 0xf0;
      },
    )
    else (replacement ∷ [], between)

step : Pending → ℕ → List ℕ × Pending
unfolding lead
step p b =
    let bits = p.bits * 64 + (b - 0x80) in
    if p.need == 0
    then lead b
    else if leb p.lo b && leb b p.hi
    then (if p.need == 1
        then (bits ∷ [], between)
        else ([], record { need = p.need - 1; lo = 0x80; hi = 0xbf; bits = bits }))
    else (replacement ∷ (lead b).0, (lead b).1)

decode_from : Pending → List ℕ → List ℕ
unfolding step
decode_from p [] = if p.need == 0 then [] else replacement ∷ []
decode_from p (b ∷ s) = let (out, p') = step p b in out ++ decode_from p' s

-- `s.decode("utf-8", errors="replace")`
unfoldable pub decode : List ℕ → List ℕ
unfolding decode_from
decode s = decode_from between s

encode_char : ℕ → List ℕ
encode_char c =
    if ltb c 0x80
    then c ∷ []
    else if ltb c 0x800
    then (0xc0 + c / 64) ∷ (0x80 + c % 64) ∷ []
    else if ltb c 0x10000
    then (0xe0 + c / 4096) ∷ (0x80 + c / 64 % 64) ∷ (0x80 + c % 64) ∷ []
    else (0xf0 + c / 262144) ∷ (0x80 + c / 4096 % 64) ∷ (0x80 + c / 64 % 64) ∷ (0x80 + c % 64) ∷ []

-- `s.encode("utf-8")`, on a `str` with no surrogate, such as `decode` returns
unfoldable pub encode : List ℕ → List ℕ
unfolding encode_char
encode [] = []
encode (c ∷ s) = encode_char c ++ encode s

-- A code point that is no surrogate.
abbrev pub IsScalar : ℕ → Type 0
IsScalar c = (c < 0xd800) ⊎ ((0xdfff < c) × (c < 0x110000))

module _ (c : ℕ) (s : List ℕ) where
  decode_from-one : c < 0x80 → decode_from between (c ∷ s) ≡ c ∷ decode_from between s
  unfolding decode_from
  decode_from-one h = ground arith

  decode_from-two :
      0x80 ≤ c
      → c < 0x800
      → decode_from between ((0xc0 + c / 64) ∷ (0x80 + c % 64) ∷ s) ≡ c ∷ decode_from between s
  unfolding decode_from
  decode_from-two h k = ground arith

  decode_from-three :
      0x800 ≤ c
      → c < 0x10000
      → IsScalar c
      → decode_from between ((0xe0 + c / 4096) ∷ (0x80 + c / 64 % 64) ∷ (0x80 + c % 64) ∷ s)
        ≡ c ∷ decode_from between s
  unfolding decode_from
  decode_from-three h k sc = ground arith

  decode_from-four :
      0x10000 ≤ c
      → c < 0x110000
      → decode_from between (
          (0xf0 + c / 262144) ∷ (0x80 + c / 4096 % 64) ∷ (0x80 + c / 64 % 64) ∷ (0x80 + c % 64) ∷ s)
        ≡ c ∷ decode_from between s
  unfolding decode_from
  decode_from-four h k = ground arith

decode_from-char :
    (c : ℕ) (s : List ℕ)
    → IsScalar c
    → decode_from between (encode_char c ++ s) ≡ c ∷ decode_from between s
unfolding encode_char
decode_from-char c s h = elim (Bool-cases (ltb c 0x80)) [
  | inl one ↦ rw one (decode_from-one c s (ground arith))
  | inr n1 ↦ rw n1 (elim (Bool-cases (ltb c 0x800)) [
    | inl two ↦ rw two (decode_from-two c s (ground arith) (ground arith))
    | inr n2 ↦ rw n2 (elim (Bool-cases (ltb c 0x10000)) [
      | inl three ↦ rw three (decode_from-three c s (ground arith) (ground arith) h)
      | inr n3 ↦ rw n3 (decode_from-four c s (ground arith) (ground arith))
    ])
  ])
]

-- Decoding what was encoded gives the text back.
pub decode-encode : (s : List ℕ) → All IsScalar s → decode (encode s) ≡ s
unfolding decode encode
decode-encode [] h = refl
decode-encode (c ∷ s) (hc, hs) = decode_from-char c (encode s) hc ∙ ap (◌∷◌ c) (decode-encode s hs)
