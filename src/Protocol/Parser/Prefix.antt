-- ===== src/Protocol/Parser/Prefix.antt =====
-- A stream of commands of any length, cut into chunks of any size: what the parser has read of it and
-- what it still buffers.
use byo_redis.Prelude.{
  ℕ, ◌<◌, ◌≡◌, ◌≢◌, refl, sym, ap, ◌∙◌, List, [], ◌∷◌, ◌++◌, arith, length, ok, map, All,
  length-append, append-nil, inl, inr, ◌⊎◌,
}
use byo_redis.Text.{Bytes}
use byo_redis.Protocol.Object.{Object, command}
use byo_redis.Protocol.Encoder.{encode_command}
use byo_redis.Protocol.Parser.{
  Limits, Parsed, incomplete, done, fail, drain_all, try_parse, read_line,
}
use byo_redis.Protocol.Parser.Stable.{Stable, read_line-Stable, try_parse-Stable}
use byo_redis.Protocol.Parser.Chunks.{try_parse-nil, drain_all-round}
use byo_redis.Protocol.Parser.Feed.{concat}
use byo_redis.Protocol.Parser.Stream.{FitsCommand, IsUsable, try_parse-encode_command}

-- Two cuts of one list.
abbrev pub Cut {ℓ} : {A : Type ℓ} → List A → List A → List A → List A → Type ℓ
Cut s t a b =
    ((u : List _) × (s ≡ a ++ u) × (u ++ t ≡ b))
    ⊎ ((u : List _) × (a ≡ s ++ u) × (t ≡ u ++ b) × (0 < length u))

pub cut {ℓ} : {A : Type ℓ} (s t a b : List A) → s ++ t ≡ a ++ b → Cut s t a b
cut s t [] b e = inl (s, refl, e)
cut [] t (x ∷ a) b e = inr (x ∷ a, refl, e, omega arith)
cut (y ∷ s) t (x ∷ a) b e =
    let same : y ≡ x = cc (e) in
    let tails : s ++ t ≡ a ++ b = cc (e) in
    elim (cut s t a b tails) [
      | inl (u, p, q) ↦ inl (u, rw (same, p) refl, q)
      | inr (u, p, q, h) ↦ inr (u, rw (same, p) refl, q, h)
    ]

length-cut {ℓ} : {A : Type ℓ} (xs ys : List A) → 0 < length ys → [] ≢ xs ++ ys
length-cut [] [] h e = absurd (omega arith)
length-cut [] (y ∷ ys) h e = absurd (cc (e))
length-cut (x ∷ xs) ys h e = absurd (cc (e))

pub incomplete_of_Stable {ℓ} :
    {A : Type ℓ} (n : ℕ) (v : A) (u : Bytes) (p q : Parsed A)
    → Stable n u p q
    → q ≡ done v []
    → 0 < length u
    → p ≡ incomplete
incomplete_of_Stable n v u incomplete q st e h = refl
incomplete_of_Stable n v u (done w rest) q st e h =
    let whole : done w (rest ++ u) ≡ done v [] = sym (st.1) ∙ e in
    absurd (length-cut rest u h (cc (whole)))
incomplete_of_Stable n v u (fail x) q st e h = absurd (cc (st, e))

-- What is cut off from a whole line is incomplete.
pub read_line-prefix :
    (line s u : Bytes) → read_line (s ++ u) ≡ done line [] → 0 < length u → read_line s ≡ incomplete
read_line-prefix line s u e h = incomplete_of_Stable _ line u _ _ (read_line-Stable u s) e h

incomplete_of_longer :
    (n : ℕ) (u : Bytes) (p q : Parsed Object) → Stable n u p q → q ≡ incomplete → p ≡ incomplete
incomplete_of_longer n u incomplete q st e = refl
incomplete_of_longer n u (done w rest) q st e = absurd (cc (st.1, e))
incomplete_of_longer n u (fail x) q st e = absurd (cc (st, e))

module _ (l : Limits) where
  -- What is cut off from a whole value is incomplete.
  pub try_parse-prefix :
      (v : Object) (s u : Bytes)
      → try_parse l l.max_array_depth (s ++ u) ≡ done v []
      → 0 < length u
      → try_parse l l.max_array_depth s ≡ incomplete
  try_parse-prefix v s u e h =
      incomplete_of_Stable _ v u _ _ (try_parse-Stable u l l.max_array_depth s) e h

  -- What is cut off from an incomplete value is incomplete.
  pub try_parse-shorter :
      (s u : Bytes)
      → try_parse l l.max_array_depth (s ++ u) ≡ incomplete
      → try_parse l l.max_array_depth s ≡ incomplete
  try_parse-shorter s u e =
      incomplete_of_longer _ u (try_parse l l.max_array_depth s) _
        (try_parse-Stable u l l.max_array_depth s) e

  pub drain_all-incomplete :
      (s : Bytes) → try_parse l l.max_array_depth s ≡ incomplete → drain_all l s ≡ ok ([], s)
  drain_all-incomplete s e = rw (drain_all-round l s, e) refl

  -- What the parser holds back is a part of the next command.
  abbrev pub IsShort : List (List Bytes) → Bytes → Type 0
  IsShort [] left = left ≡ []
  IsShort (c ∷ cs) left = length left < length (encode_command c)

  -- Of a stream of commands the bytes `s` have come, and `t` are still to come.
  pub record Reads (cmds : List (List Bytes)) (s t : Bytes) : Type 0 where
    pub before : List (List Bytes)
    pub after : List (List Bytes)
    pub left : Bytes
    pub split : cmds ≡ before ++ after
    pub read : drain_all l s ≡ ok (map command before, left)
    pub rest : left ++ t ≡ concat (map encode_command after)
    pub short : IsShort after left

  module _ (usable : IsUsable l) where
    one_more :
        (c : List Bytes) (cs : List (List Bytes)) (s t u : Bytes)
        → FitsCommand l c
        → s ≡ encode_command c ++ u
        → Reads cs u t
        → Reads (c ∷ cs) s t
    one_more c cs s t u fits e r = record {
      before = c ∷ r.before;
      after = r.after;
      left = r.left;
      split = ap (◌∷◌ c) r.split;
      read =
          rw
            (
              e,
              drain_all-round l (encode_command c ++ u),
              try_parse-encode_command l usable c u fits,
              r.read,
            )
            refl;
      rest = r.rest;
      short = r.short;
    }

    cut_off :
        (c : List Bytes) (cs : List (List Bytes)) (s t u : Bytes)
        → FitsCommand l c
        → encode_command c ≡ s ++ u
        → 0 < length u
        → s ++ t ≡ concat (map encode_command (c ∷ cs))
        → Reads (c ∷ cs) s t
    cut_off c cs s t u fits e h whole = record {
      before = [];
      after = c ∷ cs;
      left = s;
      split = refl;
      read = drain_all-incomplete s (
          try_parse-prefix (command c) s u
            (rw (← e, ← append-nil (encode_command c))
              (try_parse-encode_command l usable c [] fits))
            h);
      rest = whole;
      short = rw e (omega (arith, length-append s u));
    }

    -- Wherever a stream of commands is cut, the parser has read the commands that are whole, and keeps
    -- the part of the next one that has come.
    pub reads :
        (cmds : List (List Bytes)) (s t : Bytes)
        → All (FitsCommand l) cmds
        → s ++ t ≡ concat (map encode_command cmds)
        → Reads cmds s t
    reads [] [] t fits e = record {
      before = [];
      after = [];
      left = [];
      split = refl;
      read = drain_all-incomplete [] (try_parse-nil l l.max_array_depth);
      rest = e;
      short = refl;
    }
    reads [] (b ∷ s) t fits e = absurd (cc (e))
    reads (c ∷ cs) s t fits e =
        elim (cut s t (encode_command c) (concat (map encode_command cs)) e) [
          | inl (u, here, later) ↦ one_more c cs s t u fits.0 here (reads cs u t fits.1 later)
          | inr (u, here, later, h) ↦ cut_off c cs s t u fits.0 here h e
        ]
