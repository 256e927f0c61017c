-- ===== src/Dict/Laws.antt =====
-- What can be read from a dictionary after a write.
use byo_redis.Prelude.{
  ◌+◌, ◌≡◌, refl, true, false, none, some, [], ◌∷◌, ◌++◌, arith, Bool-cases, inl, inr, length,
  if◌then◌else◌,
}
use byo_redis.Dict.{Eq, Dict, get, has, put, pop, Distinct}

pub beq_refl {ℓ} : {K : Type ℓ} ⦃e : Eq K⦄ (k : K) → e.beq k k ≡ true
beq_refl ⦃e⦄ k = (e.beq_iff k k).1 refl

module _ {ℓ} {K V : Type ℓ} ⦃e : Eq K⦄ where
  pub get-put :
      (k j : K) (v : V) (d : Dict K V) → get (put k v d) j ≡ (if e.beq k j then some v else get d j)
  unfolding get put
  get-put k j v [] = refl
  get-put k j v ((i, w) ∷ d) =
      ground (arith, e.beq_iff k j, e.beq_iff i k, e.beq_iff i j, get-put k j v d)

  pub get-pop : (k j : K) (d : Dict K V) → get (pop k d) j ≡ (if e.beq k j then none else get d j)
  unfolding get pop
  get-pop k j [] = ground arith
  get-pop k j ((i, w) ∷ d) =
      ground (arith, e.beq_iff k j, e.beq_iff i k, e.beq_iff i j, get-pop k j d)

  pub has-put :
      (k j : K) (v : V) (d : Dict K V) → has (put k v d) j ≡ (if e.beq k j then true else has d j)
  unfolding has put
  has-put k j v [] = refl
  has-put k j v ((i, w) ∷ d) =
      ground (arith, e.beq_iff k j, e.beq_iff i k, e.beq_iff i j, has-put k j v d)

  pub has-pop : (k j : K) (d : Dict K V) → has (pop k d) j ≡ (if e.beq k j then false else has d j)
  unfolding has pop
  has-pop k j [] = ground arith
  has-pop k j ((i, w) ∷ d) =
      ground (arith, e.beq_iff k j, e.beq_iff i k, e.beq_iff i j, has-pop k j d)

  pub get_of_not-has : (k : K) (d : Dict K V) → has d k ≡ false → get d k ≡ none
  unfolding get has
  get_of_not-has k [] h = refl
  get_of_not-has k ((i, w) ∷ d) h = ground (arith, get_of_not-has k d)

  pub has_of_get : (k : K) (v : V) (d : Dict K V) → get d k ≡ some v → has d k ≡ true
  unfolding get has
  has_of_get k v [] h = cc
  has_of_get k v ((i, w) ∷ d) h = ground (arith, has_of_get k v d)

  pub not-has_of_none : (k : K) (d : Dict K V) → get d k ≡ none → has d k ≡ false
  unfolding get has
  not-has_of_none k [] h = refl
  not-has_of_none k ((i, w) ∷ d) h = ground (arith, not-has_of_none k d)

  pub put-Distinct : (k : K) (v : V) (d : Dict K V) → Distinct d → Distinct (put k v d)
  unfolding put has
  put-Distinct k v [] h = (refl, tt)
  put-Distinct k v ((i, w) ∷ d) h =
      ground (arith, e.beq_iff i k, e.beq_iff k i, has-put k i v d, put-Distinct k v d h.1)

  pub pop-Distinct : (k : K) (d : Dict K V) → Distinct d → Distinct (pop k d)
  unfolding pop
  pop-Distinct k [] h = tt
  pop-Distinct k ((i, w) ∷ d) h =
      ground (arith, e.beq_iff i k, e.beq_iff k i, has-pop k i d, pop-Distinct k d h.1)

  -- A new key goes to the end.
  pub put_fresh : (k : K) (v : V) (d : Dict K V) → has d k ≡ false → put k v d ≡ d ++ (k, v) ∷ []
  unfolding put has
  put_fresh k v [] h = refl
  put_fresh k v ((i, w) ∷ d) h = ground (arith, put_fresh k v d)

  pub has-append : (c d : Dict K V) (k : K) → has (c ++ d) k ≡ (if has c k then true else has d k)
  unfolding has
  has-append [] d k = refl
  has-append ((i, w) ∷ c) d k = ground (arith, has-append c d k)

  pub pop_absent : (k : K) (d : Dict K V) → has d k ≡ false → pop k d ≡ d
  unfolding pop has
  pop_absent k [] h = refl
  pop_absent k ((i, w) ∷ d) h = ground (arith, pop_absent k d)

  -- A key that is there is taken off once.
  pub length-pop :
      (k : K) (d : Dict K V) → Distinct d → has d k ≡ true → length (pop k d) + 1 ≡ length d
  unfolding pop has
  length-pop k [] h g = cc
  length-pop k ((i, w) ∷ d) h g = elim (Bool-cases (e.beq i k)) [
    | inl same ↦
        let gone : has d k ≡ false = (rw ((e.beq_iff i k).0 same) at h.0) in
        rw (same, pop_absent k d gone) (omega arith)
    | inr other ↦
        let there : has d k ≡ true = (rw (other, has) at g) in
        rw other (omega (arith, length-pop k d h.1 there))
  ]
