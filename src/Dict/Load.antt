-- ===== src/Dict/Load.antt =====
-- Entries with distinct keys, put one after the other into an empty dictionary, build it again.
use byo_redis.Prelude.{
  ◌≡◌, refl, ap, ◌∙◌, subst, sym, false, [], ◌∷◌, ◌++◌, append_assoc, append-nil, arith,
}
use byo_redis.Dict.{Eq, Dict, has, put, Distinct}
use byo_redis.Dict.Laws.{has-append, put_fresh, beq_refl}

module _ {ℓ} {K V : Type ℓ} ⦃e : Eq K⦄ where
  abbrev pub put_all : Dict K V → Dict K V → Dict K V
  put_all [] acc = acc
  put_all ((k, v) ∷ d) acc = put_all d (put k v acc)

  has_of_Distinct_append :
      (acc : Dict K V) (k : K) (v : V) (d : Dict K V)
      → Distinct (acc ++ (k, v) ∷ d)
      → has acc k ≡ false
  unfolding has
  has_of_Distinct_append [] k v d h = refl
  has_of_Distinct_append ((i, w) ∷ acc) k v d h = ground (
    arith,
    has-append acc ((k, v) ∷ d) i,
    beq_refl i,
    e.beq_iff i k,
    e.beq_iff k i,
    has_of_Distinct_append acc k v d h.1,
  )

  put_all-append : (d acc : Dict K V) → Distinct (acc ++ d) → put_all d acc ≡ acc ++ d
  put_all-append [] acc h = sym (append-nil acc)
  put_all-append ((k, v) ∷ d) acc h =
      ap (put_all d) (put_fresh k v acc (has_of_Distinct_append acc k v d h))
      ∙ put_all-append d (acc ++ (k, v) ∷ []) (subst Distinct (sym (append_assoc acc _ d)) h)
      ∙ append_assoc acc ((k, v) ∷ []) d

  pub put_all-nil : (d : Dict K V) → Distinct d → put_all d [] ≡ d
  put_all-nil d h = put_all-append d [] h
