-- ===== src/WsFeed/Buffer.antt =====
-- The bound of the clients' queues in internal/wsfeed/client.go.
use mynance.Base.{
  ℕ, ◌≤◌, Bool, true, false, List, [], ◌∷◌, Option, Bytes, ◌==◌, filter, not, length, length-append,
  All, Bool-cases, inl, inr, arith,
}
use mynance.WsFeed.{
  Envelope, InboundOp, Client, Hub, send, read_message, receive_out, publish, subscribed, at_client,
  HubStep, opened, closed, asked, wrote, published, HubReach, started, stepped,
}

abbrev pub Fits : Client → Type 0
Fits c = length c.out ≤ 256

send-Fits : (c : Client) (env : Envelope) → Fits c → Fits (send c env).client
unfolding send
send-Fits c env h = ground (arith, length-append c.out (env ∷ []))

read_message-Fits :
    (unmarshal : Bytes → Option InboundOp) (msg : Bytes) (c : Client)
    → Fits c
    → Fits (read_message unmarshal msg c)
unfolding read_message
read_message-Fits unmarshal msg c h = ground arith

receive_out-Fits : (c : Client) → Fits c → Fits (receive_out c).client
unfolding receive_out
receive_out-Fits c h = ground arith

publish-Fits : (env : Envelope) (hub : Hub) → All Fits hub → All Fits (publish env hub).hub
unfolding publish
publish-Fits env [] h = h
publish-Fits env (c ∷ hub) (fits, rest) = elim (Bool-cases (subscribed c env.topic)) [
  | inl h ↦ rw h ((send-Fits c env fits, publish-Fits env hub rest))
  | inr h ↦ rw h ((fits, publish-Fits env hub rest))
]

at_client-Fits :
    (id : ℕ) (f : Client → Client) (hub : Hub)
    → ((c : Client) → Fits c → Fits (f c))
    → All Fits hub
    → All Fits (at_client id f hub)
at_client-Fits id f [] k h = h
at_client-Fits id f (c ∷ hub) k (fits, rest) = elim (Bool-cases (c.id == id)) [
  | inl h ↦ rw h ((k c fits, at_client-Fits id f hub k rest))
  | inr h ↦ rw h ((fits, at_client-Fits id f hub k rest))
]

All-if :
    {A : Type 0} (P : A → Type 0) (b : Bool) (xs ys : List A)
    → All P xs
    → All P ys
    → All P (elim b [ true ↦ xs | false ↦ ys ])
All-if P true xs ys h k = h
All-if P false xs ys h k = k

All-filter :
    {A : Type 0} (P : A → Type 0) (p : A → Bool) (xs : List A) → All P xs → All P (filter p xs)
All-filter P p [] h = h
All-filter P p (x ∷ xs) (h, hs) =
    All-if P (p x) (x ∷ filter p xs) (filter p xs) (h, All-filter P p xs hs) (All-filter P p xs hs)

step-Fits : (before hub : Hub) → HubStep before hub → All Fits before → All Fits hub
step-Fits _ _ (opened before id) h =
    ((omega arith), All-filter Fits (λ c. not (c.id == id)) before h)
step-Fits _ _ (closed before id) h = All-filter Fits (λ c. not (c.id == id)) before h
step-Fits _ _ (asked before unmarshal id msg) h =
    at_client-Fits id (read_message unmarshal msg) before (read_message-Fits unmarshal msg) h
step-Fits _ _ (wrote before id) h =
    at_client-Fits id (λ c. (receive_out c).client) before receive_out-Fits h
step-Fits _ _ (published before env) h = publish-Fits env before h

-- In any hub that the server reaches, however clients, writers and publishers alternate, no client has more
-- than 256 envelopes queued.
pub HubReach-Fits : (hub : Hub) → HubReach hub → All Fits hub
HubReach-Fits _ started = tt
HubReach-Fits _ (stepped before hub reach step) =
    step-Fits before hub step (HubReach-Fits before reach)
