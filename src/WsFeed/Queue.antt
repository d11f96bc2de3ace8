-- ===== src/WsFeed/Queue.antt =====
-- What is queued for the clients of internal/wsfeed/hub.go while the engine's events are published.
use mynance.Base.{
  ℕ, zero, suc, Bool, ◌≡◌, ◌∙◌, sym, ap, ap₂, refl, List, [], ◌∷◌, ◌++◌, bytes, if◌then◌else◌, map,
  take, filter, ltb, length, All, Bool-cases, inl, inr, append_assoc, append-nil, arith,
}
use mynance.MarketData.{Notice, rested, cancelled, matched}
use mynance.MarketData.Recent.{take_all}
use mynance.WsFeed.Buffer.{Fits, HubReach-Fits}
use mynance.WsFeed.{
  HubReach, Envelope, trade, plus, minus, delta, Client, Hub, send, publish, subscribed,
  on_trade_matched, on_order_rested, on_order_cancelled, bridge, bridge_all,
}

-- What an event tells, each topic apart.
abbrev pub told : Notice → List Envelope
told (rested e) = delta e.symbol e.side e.price (plus e.remaining) (bytes "rest") ∷ []
told (cancelled e) =
    if ltb 0 e.remaining
    then delta e.symbol e.side e.price (minus e.remaining) (bytes "cancel") ∷ []
    else []
told (matched e) =
    record {
      topic = bytes "trades." ++ e.symbol;
      payload = trade (record {
        symbol = e.symbol;
        price = e.price;
        quantity = e.quantity;
        timestamp = e.timestamp;
      });
    }
    ∷ delta e.symbol (bytes "BUY") e.price (minus e.quantity) (bytes "trade")
    ∷ delta e.symbol (bytes "SELL") e.price (minus e.quantity) (bytes "trade")
    ∷ []

abbrev pub told_all : List Notice → List Envelope
told_all [] = []
told_all (n ∷ ns) = told n ++ told_all ns

-- Of the envelopes, those that the client has subscribed to.
abbrev pub for_client : Client → List Envelope → List Envelope
for_client c envs = filter (λ env. c.topics env.topic) envs

-- The client once all of them were published: what exceeds the buffer is lost.
abbrev pub queued : List Envelope → Client → Client
queued envs c = record c { out = take 256 (c.out ++ for_client c envs) }

offer-take :
    {A : Type 0} (n : ℕ) (q : List A) (x : A)
    → (if ltb (length (take n q)) n then take n q ++ (x ∷ []) else take n q)
      ≡ take n (q ++ (x ∷ []))
offer-take zero q x = ground arith
offer-take (suc zero) [] x = ground arith
offer-take (suc (suc n)) [] x = ground arith
offer-take (suc n) (y ∷ q) x = ground (arith, offer-take n q x)

-- Offering one envelope to a client
abbrev offered : Envelope → Client → Client
offered env c = if subscribed c env.topic then (send c env).client else c

publish-map : (env : Envelope) (hub : Hub) → (publish env hub).hub ≡ map (offered env) hub
unfolding publish
publish-map env [] = refl
publish-map env (c ∷ hub) = elim (Bool-cases (subscribed c env.topic)) [
  | inl h ↦ rw h (ap (λ rest. (send c env).client ∷ rest) (publish-map env hub))
  | inr h ↦ rw h (ap (λ rest. c ∷ rest) (publish-map env hub))
]

filter-append :
    {A : Type 0} (p : A → Bool) (xs ys : List A) → filter p (xs ++ ys) ≡ filter p xs ++ filter p ys
filter-append p [] ys = refl
filter-append p (x ∷ xs) ys = ground (arith, filter-append p xs ys)

send-out :
    (c : Client) (env : Envelope)
    → (send c env).client
      ≡ record c { out = if ltb (length c.out) 256 then c.out ++ (env ∷ []) else c.out }
unfolding send
send-out c env = elim (Bool-cases (ltb (length c.out) 256)) [
  | inl h ↦ rw h refl
  | inr h ↦ rw h refl
]

-- The envelopes for a client when there is one more
for_client-append :
    (c : Client) (envs more : List Envelope)
    → c.out ++ for_client c (envs ++ more) ≡ (c.out ++ for_client c envs) ++ for_client c more
for_client-append c envs more =
    ap (λ xs. c.out ++ xs) (filter-append (λ env. c.topics env.topic) envs more)
    ∙ sym (append_assoc c.out (for_client c envs) (for_client c more))

offered-queued :
    (env : Envelope) (envs : List Envelope) (c : Client)
    → offered env (queued envs c) ≡ queued (envs ++ (env ∷ [])) c
offered-queued env envs c = elim (Bool-cases (c.topics env.topic)) [
  | inl h ↦
      rw (for_client-append c envs (env ∷ []), h)
        (send-out (queued envs c) env
          ∙ ap (λ q. record c { out = q }) (offer-take 256 (c.out ++ for_client c envs) env))
  | inr h ↦
      rw (for_client-append c envs (env ∷ []), h, append-nil (c.out ++ for_client c envs)) refl
]

publish-queued :
    (env : Envelope) (envs : List Envelope) (hub : Hub)
    → (publish env (map (queued envs) hub)).hub ≡ map (queued (envs ++ (env ∷ []))) hub
publish-queued env envs hub = publish-map env (map (queued envs) hub) ∙ each hub
  where
    each :
        (cs : Hub) → map (offered env) (map (queued envs) cs) ≡ map (queued (envs ++ (env ∷ []))) cs
    each [] = refl
    each (c ∷ cs) = ap₂ (λ x xs. x ∷ xs) (offered-queued env envs c) (each cs)

publish_each : List Envelope → Hub → Hub
publish_each [] hub = hub
publish_each (env ∷ envs) hub = publish_each envs (publish env hub).hub

publish_each-queued :
    (more envs : List Envelope) (hub : Hub)
    → publish_each more (map (queued envs) hub) ≡ map (queued (envs ++ more)) hub
unfolding publish_each
publish_each-queued [] envs hub = rw (append-nil envs) refl
publish_each-queued (env ∷ more) envs hub =
    ap (publish_each more) (publish-queued env envs hub)
    ∙ publish_each-queued more (envs ++ (env ∷ [])) hub
    ∙ ap (λ all. map (queued all) hub) (append_assoc envs (env ∷ []) more)

bridge-publish_each : (n : Notice) (hub : Hub) → bridge n hub ≡ publish_each (told n) hub
unfolding bridge on_trade_matched on_order_rested on_order_cancelled publish_each
bridge-publish_each (rested e) hub = refl
bridge-publish_each (cancelled e) hub = ground arith
bridge-publish_each (matched e) hub = refl

bridge_all-queued :
    (ns : List Notice) (envs : List Envelope) (hub : Hub)
    → bridge_all ns (map (queued envs) hub) ≡ map (queued (envs ++ told_all ns)) hub
unfolding bridge_all
bridge_all-queued [] envs hub = rw (append-nil envs) refl
bridge_all-queued (n ∷ ns) envs hub =
    ap (bridge_all ns)
      (bridge-publish_each n (map (queued envs) hub) ∙ publish_each-queued (told n) envs hub)
    ∙ bridge_all-queued ns (envs ++ told n) hub
    ∙ ap (λ all. map (queued all) hub) (append_assoc envs (told n) (told_all ns))

queued_none : (hub : Hub) → All Fits hub → map (queued []) hub ≡ hub
queued_none [] h = refl
queued_none (c ∷ hub) (fits, rest) =
    ap₂ (λ x xs. x ∷ xs)
      (ap (λ q. record c { out = q }) (ap (take 256) (append-nil c.out) ∙ take_all 256 c.out fits))
      (queued_none hub rest)

-- From any hub that the server reaches, events that are published one after the other, with no writer in
-- between, leave every client, its topics as they were, with what its queue held, then what the events tell
-- its topics, in order, cut to the 256 that the queue has room for; no client changes what another is sent.
pub bridge_all-Queued :
    (ns : List Notice) (hub : Hub)
    → HubReach hub
    → bridge_all ns hub ≡ map (queued (told_all ns)) hub
bridge_all-Queued ns hub reach =
    ap (bridge_all ns) (sym (queued_none hub (HubReach-Fits hub reach)))
    ∙ bridge_all-queued ns [] hub
