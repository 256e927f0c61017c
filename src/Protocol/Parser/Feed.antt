-- ===== src/Protocol/Parser/Feed.antt =====
-- How the stream is cut into chunks does not matter to `feed`.
use byo_redis.Prelude.{
  ℕ, ◌+◌, ◌≤◌, ◌≡◌, refl, sym, ap, ◌∙◌, List, [], ◌∷◌, ◌++◌, arith, length, Result, ok, raise,
  result_map, length-append, append_assoc, append-nil, Bool-cases, ltb, inl, inr,
}
use byo_redis.Text.{Bytes}
use byo_redis.Protocol.Object.{Object}
use byo_redis.Protocol.Parser.{
  ProtocolError, Limits, RespParser, incomplete, drain_all, try_parse, feed,
}
use byo_redis.Protocol.Parser.Chunks.{
  Drained, behind, resume, drain_all-append, Settled, drain_all-Settled,
}

-- The results of `feed`.
abbrev pub Fed : Type 0
Fed = Result ProtocolError (List Object × RespParser)

abbrev pub keep : RespParser → Drained → Fed
keep p = result_map (λ r. (r.0, record p { buf = r.1 }))

-- `feed` within the buffer limit.
pub feed-keep :
    (p : RespParser) (chunk : Bytes)
    → length p.buf + length chunk ≤ p.limits.max_buffer_bytes
    → feed p chunk ≡ keep p (drain_all p.limits (p.buf ++ chunk))
unfolding feed
feed-keep p chunk h = ground arith

resume-keep :
    (p : RespParser) (n : ℕ) (b : Bytes) (r : Drained)
    → Settled p.limits n r
    → n + length b ≤ p.limits.max_buffer_bytes
    → keep p (resume (λ left. drain_all p.limits (left ++ b)) r) ≡ resume (λ q. feed q b) (keep p r)
resume-keep p n b (raise e) st h = refl
resume-keep p n b (ok t) st h =
    rw (feed-keep (record p { buf = t.1 }) b (omega arith)) (go (drain_all p.limits (t.1 ++ b)))
  where
    go :
        (q : Drained)
        → keep p (result_map (behind t.0) q)
          ≡ result_map (behind t.0) (keep (record p { buf = t.1 }) q)
    go (ok a) = refl
    go (raise e) = refl

-- Feeding two chunks at once gives what feeding one after the other gives, the messages, the error
-- and the bytes left over, as long as the buffer limit admits both at once.
pub feed-append :
    (p : RespParser) (a b : Bytes)
    → length p.buf + length a + length b ≤ p.limits.max_buffer_bytes
    → feed p (a ++ b) ≡ resume (λ q. feed q b) (feed p a)
feed-append p a b h =
    rw
      (
        feed-keep p (a ++ b) (omega (arith, length-append a b)),
        feed-keep p a (omega arith),
        ← append_assoc p.buf a b,
        drain_all-append p.limits b (p.buf ++ a),
      )
      (resume-keep p _ b (drain_all p.limits (p.buf ++ a)) (drain_all-Settled p.limits (p.buf ++ a))
        (omega (arith, length-append p.buf a)))

-- What has been delivered: the messages in order, then the parser, or the error that ends the stream.
abbrev pub Delivered : Type 0
Delivered = List Object × Result ProtocolError RespParser

-- The messages of a chunk are delivered before the next chunk is fed.
abbrev pub deliver : Fed → (RespParser → Delivered) → Delivered
deliver (ok (ms, q)) next = (ms ++ (next q).0, (next q).1)
deliver (raise e) next = ([], raise e)

-- One chunk after another, as they come from the socket.
unfoldable pub feed_each : RespParser → List Bytes → Delivered
unfolding feed
feed_each p [] = ([], ok p)
feed_each p (a ∷ as') = deliver (feed p a) (λ q. feed_each q as')

-- What one call of `feed` can tell of it: the messages are lost where it raises.
abbrev pub at_once : Delivered → Fed
at_once (ms, ok q) = ok (ms, q)
at_once (ms, raise e) = raise e

at_once-deliver :
    (r : Fed) (next : RespParser → Delivered)
    → at_once (deliver r next) ≡ resume (λ q. at_once (next q)) r
at_once-deliver (raise e) next = refl
at_once-deliver (ok (ms, q)) next = go (next q)
  where
    go : (d : Delivered) → at_once (ms ++ d.0, d.1) ≡ result_map (behind ms) (at_once d)
    go (later, ok q) = refl
    go (later, raise e) = refl

abbrev pub concat : List Bytes → Bytes
concat [] = []
concat (a ∷ as') = a ++ concat as'

-- The parser that `feed` leaves has the same limits and buffers at most `n` bytes.
abbrev Within : Limits → ℕ → Fed → Type 0
Within l n (ok r) = (r.1.limits ≡ l) × (length r.1.buf ≤ n)
Within l n (raise e) = Unit

keep-Within :
    (p : RespParser) (n : ℕ) (r : Drained) → Settled p.limits n r → Within p.limits n (keep p r)
keep-Within p n (ok t) h = (refl, h.0)
keep-Within p n (raise e) h = tt

resume-nil : (r : Fed) → resume (λ q. ok ([], q)) r ≡ r
resume-nil (ok t) = ap (λ ms. ok (ms, t.1)) (append-nil t.0)
resume-nil (raise e) = refl

resume-congr :
    (l : Limits) (n : ℕ) (f g : RespParser → Fed) (r : Fed)
    → Within l n r
    → ((q : RespParser) → q.limits ≡ l → length q.buf ≤ n → f q ≡ g q)
    → resume f r ≡ resume g r
resume-congr l n f g (ok t) w h = ap (result_map (behind t.0)) (h t.1 w.0 w.1)
resume-congr l n f g (raise e) w h = refl

-- However a byte stream is cut into chunks, as long as the buffer limit admits the whole: feeding the
-- chunks one by one ends in an error exactly when feeding the whole does, and in the same one; and
-- where there is none, the messages that are delivered, in order, and the parser that is left, are
-- those of the whole.
pub feed-concat :
    (p : RespParser) (a : Bytes) (as' : List Bytes)
    → length p.buf + length (concat (a ∷ as')) ≤ p.limits.max_buffer_bytes
    → feed p (concat (a ∷ as')) ≡ at_once (feed_each p (a ∷ as'))
unfolding feed_each
feed-concat p a [] h =
    ap (feed p) (append-nil a)
    ∙ sym (resume-nil (feed p a))
    ∙ sym (at_once-deliver (feed p a) (λ q. feed_each q []))
feed-concat p a (b ∷ as') h =
    let sizes : length p.buf + length a + length (concat (b ∷ as')) ≤ p.limits.max_buffer_bytes =
      omega (arith, length-append a (concat (b ∷ as'))) in
    let fits : length p.buf + length a ≤ p.limits.max_buffer_bytes = omega arith in
    feed-append p a (concat (b ∷ as')) sizes
    ∙ resume-congr p.limits (length p.buf + length a) _ (λ q. at_once (feed_each q (b ∷ as')))
        (feed p a)
        (rw (feed-keep p a fits, ← length-append p.buf a)
          (keep-Within p _ _ (drain_all-Settled p.limits (p.buf ++ a))))
        (λ q e k. feed-concat q b as' (rw e (omega arith)))
    ∙ sym (at_once-deliver (feed p a) (λ q. feed_each q (b ∷ as')))

abbrev Settles : Limits → Fed → Type 0
Settles l (ok r) = try_parse l l.max_array_depth r.1.buf ≡ incomplete
Settles l (raise e) = Unit

keep-Settles :
    (p : RespParser) (n : ℕ) (r : Drained) → Settled p.limits n r → Settles p.limits (keep p r)
keep-Settles p n (ok t) h = h.1
keep-Settles p n (raise e) h = tt

feed-Settles : (p : RespParser) (chunk : Bytes) → Settles p.limits (feed p chunk)
unfolding feed
feed-Settles p chunk =
    elim (Bool-cases (ltb p.limits.max_buffer_bytes (length p.buf + length chunk))) [
      | inl e ↦ rw e tt
      | inr e ↦ rw e (
          keep-Settles p _ (drain_all p.limits (p.buf ++ chunk))
            (drain_all-Settled p.limits (p.buf ++ chunk)))
    ]

-- What `feed` leaves in the buffer holds no whole value, so that the loop has ended by its own test.
pub feed-settled :
    (p q : RespParser) (chunk : Bytes) (ms : List Object)
    → feed p chunk ≡ ok (ms, q)
    → try_parse p.limits p.limits.max_array_depth q.buf ≡ incomplete
feed-settled p q chunk ms h =
    let settled : Settles p.limits (ok (ms, q)) = (rw h at (feed-Settles p chunk)) in settled
