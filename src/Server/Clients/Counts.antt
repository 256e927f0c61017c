-- ===== src/Server/Clients/Counts.antt =====
-- byo_redis/server.py, handle_client: the number of the connections, and those that are authenticated.
use byo_redis.Prelude.{
  ℕ, suc, ◌≤◌, ◌≡◌, refl, sym, ap, ◌∙◌, true, false, List, [], ◌∷◌, ◌++◌, ◌==◌, leb, if_cases,
  Bool-cases, inl, inr, ℤ, pos, arith, length, All,
}
use byo_redis.Text.{Bytes}
use byo_redis.Dict
use byo_redis.Dict.{Dict, nat_eq, Distinct}
use byo_redis.Dict.Laws.{has-put, has-pop, put-Distinct, pop-Distinct, put_fresh, length-pop}
use byo_redis.Storage.Valid.{IsValid}
use byo_redis.Server.Clients.{Host, reaches, removed, taken, refused, released, accept, disconnect}

-- Each connection is counted, and no more are open than the limit; its number is one that was given
-- out; only open connections are authenticated; and the store is valid.
pub record IsCounted (h : Host) : Type 0 where
  pub counted : h.server.client_count ≡ length h.connections
  pub limited : (n : ℕ) → h.server.config.max_clients ≡ pos n → h.server.client_count ≤ n
  pub distinct : Distinct h.connections
  pub numbered : (k : ℕ) → Dict.has h.connections k ≡ true → k ≤ h.server.conn_seq
  pub known : All (λ k. Dict.has h.connections k ≡ true) h.server.authenticated_connections
  pub valid : IsValid h.server.store

pub length-put :
    {V : Type 0} (k : ℕ) (v : V) (d : Dict ℕ V)
    → Dict.has d k ≡ true
    → length (Dict.put k v d) ≡ length d
unfolding Dict.has Dict.put
length-put k v [] h = absurd (cc (h))
length-put k v ((i, w) ∷ d) h = ground (arith, length-put k v d)

length-append_one : {V : Type 0} (d : Dict ℕ V) (p : ℕ × V) → length (d ++ p ∷ []) ≡ suc (length d)
length-append_one [] p = refl
length-append_one (q ∷ d) p = ap suc (length-append_one d p)

pub All-map : (P Q : ℕ → Type 0) (ks : List ℕ) → ((k : ℕ) → P k → Q k) → All P ks → All Q ks
All-map P Q [] f h = tt
All-map P Q (k ∷ ks) f h = (f k h.0, All-map P Q ks f h.1)

All-removed :
    {V : Type 0} (id : ℕ) (d : Dict ℕ V) (ks : List ℕ)
    → All (λ k. Dict.has d k ≡ true) ks
    → All (λ k. Dict.has (Dict.pop id d) k ≡ true) (removed id ks)
All-removed id d [] h = tt
All-removed id d (k ∷ ks) h = elim (Bool-cases (k == id)) [
  | inl e ↦ rw e (All-removed id d ks h.1)
  | inr e ↦ rw e (ground (arith, has-pop id k d, h.0), All-removed id d ks h.1)
]

has_of_has-pop :
    {V : Type 0} (id : ℕ) (d : Dict ℕ V) (k : ℕ)
    → Dict.has (Dict.pop id d) k ≡ true
    → Dict.has d k ≡ true
has_of_has-pop id d k e = ground (arith, has-pop id k d)

pub disconnect-IsCounted :
    (id : ℕ) (out : List Bytes) (h : Host)
    → Dict.has h.connections id ≡ true
    → IsCounted h
    → IsCounted (disconnect id out h)
unfolding disconnect released
disconnect-IsCounted id out h there i = record {
  counted = omega (arith, i.counted, length-pop id h.connections i.distinct there);
  limited = λ n e. omega (arith, i.limited n e);
  distinct = pop-Distinct id h.connections i.distinct;
  numbered = λ k e. i.numbered k (has_of_has-pop id h.connections k e);
  known = All-removed id h.connections h.server.authenticated_connections i.known;
  valid = i.valid;
}

fresh :
    {V : Type 0} (n : ℕ) (d : Dict ℕ V)
    → ((k : ℕ) → Dict.has d k ≡ true → k ≤ n)
    → Dict.has d (suc n) ≡ false
fresh n d h = elim (Bool-cases (Dict.has d (suc n))) [
  | inl e ↦ absurd (omega (arith, h (suc n) e))
  | inr e ↦ e
]

below_limit : (n m : ℕ) (z : ℤ) → reaches n z ≡ false → z ≡ pos m → suc n ≤ m
below_limit n m z free e = let here : leb m n ≡ false = (rw e at free) in ground arith

numbered-put :
    {V : Type 0} (n : ℕ) (v : V) (d : Dict ℕ V)
    → ((k : ℕ) → Dict.has d k ≡ true → k ≤ n)
    → (k : ℕ) → Dict.has (Dict.put (suc n) v d) k ≡ true
    → k ≤ suc n
numbered-put n v d h k e = ground (arith, has-put (suc n) k v d, h k)

pub has_of_put :
    {V : Type 0} (n : ℕ) (v : V) (d : Dict ℕ V) (k : ℕ)
    → Dict.has d k ≡ true
    → Dict.has (Dict.put n v d) k ≡ true
has_of_put n v d k e = ground (arith, has-put n k v d)

pub accept-IsCounted : (h : Host) → IsCounted h → IsCounted (accept h)
unfolding accept taken refused
accept-IsCounted h i =
    if_cases IsCounted (reaches h.server.client_count h.server.config.max_clients)
      (λ _. record {
        counted = i.counted;
        limited = i.limited;
        distinct = i.distinct;
        numbered = i.numbered;
        known = i.known;
        valid = i.valid;
      })
      (λ free. record {
        counted =
            ap suc i.counted
            ∙ sym (length-append_one h.connections _)
            ∙ ap length (
                sym (
                  put_fresh (suc h.server.conn_seq) _ h.connections
                    (fresh _ h.connections i.numbered)));
        limited = λ m e. below_limit _ m _ free e;
        distinct = put-Distinct _ _ h.connections i.distinct;
        numbered = numbered-put h.server.conn_seq _ h.connections i.numbered;
        known =
            All-map _ _ h.server.authenticated_connections
              (λ k e. has_of_put (suc h.server.conn_seq) _ h.connections k e) i.known;
        valid = i.valid;
      })

pub has_of_has-put :
    {V : Type 0} (n : ℕ) (v : V) (d : Dict ℕ V) (k : ℕ)
    → Dict.has d n ≡ true
    → Dict.has (Dict.put n v d) k ≡ true
    → Dict.has d k ≡ true
has_of_has-put n v d k there e = ground (arith, has-put n k v d)
