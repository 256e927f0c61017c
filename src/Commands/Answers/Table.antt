-- ===== src/Commands/Answers/Table.antt =====
-- The handlers that need no state, and the table of all.
use byo_redis.Prelude.{
  ◌≡◌, refl, Option, none, some, List, [], ◌∷◌, if_cases, Bool-cases, inl, inr, ℤ, pos, negsuc,
  ◌==◌, All, subst,
}
use byo_redis.Text.{Bytes, codes, text_eq, upper}
use byo_redis.Text.Decimal.{int}
use byo_redis.Text.Utf8.{encode}
use byo_redis.Dict
use byo_redis.Dict.{Dict, bytes_eq}
use byo_redis.Protocol.Object.{simple}
use byo_redis.Protocol.Encoder.{encode_value, encode_simple_string, has_newline}
use byo_redis.Commands.Base.{Reply, value, arity}
use byo_redis.Commands.Connection.{
  cmd_ping, cmd_echo, select_index, cmd_select, cmd_command, cmd_replconf,
}
use byo_redis.Commands.Registry.{
  Handler, plain, on_store, auth, admin, default_registry, find_handler,
}
use byo_redis.Commands.Answers.{Answers, bulk-Answers, bulks-Answers, ok-Answers, IsSound}
use byo_redis.Commands.Answers.Stores.{
  cmd_set-IsSound, cmd_get-IsSound, cmd_expire-IsSound, cmd_ttl-IsSound, cmd_lpush-IsSound,
  cmd_rpop-IsSound, cmd_hset-IsSound, cmd_hgetall-IsSound, cmd_del-IsSound, cmd_dbsize-IsSound,
}

-- A handler that needs no store: it always answers.
abbrev pub IsPlain : (List Bytes → Reply) → Type 0
IsPlain f = (argv : List Bytes) → Answers (f argv)

pong-Answers : Answers (value (simple (codes "PONG")))
unfolding encode_value encode_simple_string has_newline encode
pong-Answers = inl (_, refl)

cmd_ping-IsPlain : IsPlain cmd_ping
unfolding cmd_ping arity
cmd_ping-IsPlain [] = tt
cmd_ping-IsPlain (name ∷ []) = pong-Answers
cmd_ping-IsPlain (name ∷ m ∷ []) = bulk-Answers m
cmd_ping-IsPlain (name ∷ m ∷ x ∷ xs) = tt

cmd_echo-IsPlain : IsPlain cmd_echo
unfolding cmd_echo arity
cmd_echo-IsPlain [] = tt
cmd_echo-IsPlain (name ∷ []) = tt
cmd_echo-IsPlain (name ∷ m ∷ []) = bulk-Answers m
cmd_echo-IsPlain (name ∷ m ∷ x ∷ xs) = tt

select_index-Answers : (z : Option ℤ) → Answers (select_index z)
unfolding select_index
select_index-Answers none = tt
select_index-Answers (some (pos n)) = if_cases Answers (n == 0) (λ _. ok-Answers) (λ _. tt)
select_index-Answers (some (negsuc n)) = tt

cmd_select-IsPlain : IsPlain cmd_select
unfolding cmd_select arity
cmd_select-IsPlain [] = tt
cmd_select-IsPlain (name ∷ []) = tt
cmd_select-IsPlain (name ∷ index ∷ []) = select_index-Answers (int index)
cmd_select-IsPlain (name ∷ index ∷ x ∷ xs) = tt

cmd_command-IsPlain : IsPlain cmd_command
unfolding cmd_command
cmd_command-IsPlain argv = bulks-Answers []

cmd_replconf-IsPlain : IsPlain cmd_replconf
unfolding cmd_replconf arity
cmd_replconf-IsPlain [] = tt
cmd_replconf-IsPlain (name ∷ []) = tt
cmd_replconf-IsPlain (name ∷ option ∷ options) = ok-Answers

abbrev pub IsFit : Handler → Type 0
IsFit (plain f) = IsPlain f
IsFit (on_store f) = IsSound f
IsFit auth = Unit
IsFit (admin a) = Unit

default_registry-IsFit : All (λ (p : Bytes × Handler). IsFit p.1) default_registry
unfolding default_registry
default_registry-IsFit = (
  cmd_ping-IsPlain,
  (
    cmd_echo-IsPlain,
    (
      cmd_select-IsPlain,
      (
        cmd_command-IsPlain,
        (
          tt,
          (
            cmd_set-IsSound,
            (
              cmd_get-IsSound,
              (
                cmd_expire-IsSound,
                (
                  cmd_ttl-IsSound,
                  (
                    cmd_lpush-IsSound,
                    (
                      cmd_rpop-IsSound,
                      (
                        cmd_hset-IsSound,
                        (
                          cmd_hgetall-IsSound,
                          (
                            tt,
                            (
                              tt,
                              (
                                tt,
                                (
                                  tt,
                                  (
                                    tt,
                                    (
                                      cmd_del-IsSound,
                                      (cmd_dbsize-IsSound, (cmd_replconf-IsPlain, (tt, tt))),
                                    ),
                                  ),
                                ),
                              ),
                            ),
                          ),
                        ),
                      ),
                    ),
                  ),
                ),
              ),
            ),
          ),
        ),
      ),
    ),
  ),
)

IsFit-of_get :
    (d : Dict Bytes Handler) (name : Bytes) (h : Handler)
    → All (λ (p : Bytes × Handler). IsFit p.1) d
    → Dict.get d name ≡ some h
    → IsFit h
unfolding Dict.get
IsFit-of_get [] name h fit e = absurd (cc e)
IsFit-of_get ((k, g) ∷ d) name h fit e = elim (Bool-cases (text_eq k name)) [
  | inl same ↦
      let here : some g ≡ some h = (rw same at e) in
      let equal : g ≡ h = cc here in subst IsFit equal fit.0
  | inr other ↦ IsFit-of_get d name h fit.1 (rw other at e)
]

-- Whatever handler a command's name finds, it is fit.
pub find_handler-IsFit : (name : Bytes) (h : Handler) → find_handler name ≡ some h → IsFit h
unfolding find_handler
find_handler-IsFit name h e = IsFit-of_get default_registry (upper name) h default_registry-IsFit e
