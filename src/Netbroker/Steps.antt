-- ===== src/Netbroker/Steps.antt =====
-- cmd/netbroker/main.go: what connections can do to the network, against an abstract broker that knows
-- only checked activations.
use nomadposting.Prelude.{
  ℕ, ◌≤◌, ◌≡◌, ap, subst, ◌⊎◌, inl, inr, ◌∙◌, Bool, true, false, List, [], ◌∷◌, map, Option, some,
  Option-cases, Str, text, str_eq, str_eq_iff, length, ltb, if◌then◌else◌, arith, Bool-cases,
}
use nomadposting.Clock.{Time}
use nomadposting.Egress.Types.{Endpoint}
use nomadposting.Egress.Registry.{Registry}
use nomadposting.Egress.Broker.{BrokerRequest, GuardedBroker, execute}
use nomadposting.Egress.Broker.FailClosed.{IsAdmitted, execute_fails_closed}
use nomadposting.Netbroker.{
  WireRequest, WireResponse, Connection, max_request, refusal, read_payload, perform,
  decoded_request, handle_payload, handle_connection, serve,
}

not_ltb→le : (m n : ℕ) → ltb m n ≡ false → n ≤ m
not_ltb→le m n h = ground arith

module _ {N : Type 0} (b : GuardedBroker N) (r : Registry)
    (decode : Str → Option (WireRequest × Bool)) where
  -- Runs of the abstract broker: from a network to a network by activations that passed every check, at
  -- times in order.
  pub data Activations : List Time → N → N → Type 0 where
    done : (n : N) → Activations [] n n
    idle :
        {now : Time} {times : List Time} {n n' : N}
        → Activations times n n'
        → Activations (now ∷ times) n n'
    activate :
        {now : Time} {times : List Time} {n n' : N} (q : BrokerRequest) (e : Endpoint)
        → IsAdmitted b r q now e
        → Activations times (b.executor q.job_id q.platform e n).1 n'
        → Activations (now ∷ times) n n'

  -- What a connection does: nothing to the network, or one activation for a payload of at most 4096 bytes
  -- that holds one request to execute and no more.
  pub data Effect (connection : Connection) (now : Time) (n : N) (out : WireResponse × N)
      : Type 0 where
    untouched : out.1 ≡ n → Effect connection now n out
    activated :
        (payload : Str) (w : WireRequest) (e : Endpoint)
        → read_payload connection ≡ some payload
        → length payload ≤ max_request
        → decode payload ≡ some (w, true)
        → w.operation ≡ text "execute"
        → IsAdmitted b r w.request now e
        → out.1 ≡ (b.executor w.request.job_id w.request.platform e n).1
        → Effect connection now n out

  execute-Effect :
      (connection : Connection) (now : Time) (n : N) (payload : Str) (w : WireRequest)
      (out : WireResponse × N)
      → read_payload connection ≡ some payload
      → length payload ≤ max_request
      → decode payload ≡ some (w, true)
      → w.operation ≡ text "execute"
      → out.1 ≡ (execute b r w.request now n).1
      → Effect connection now n out
  execute-Effect connection now n payload w out read short decoded asked same =
      elim (execute_fails_closed b r w.request now n) [
        | inl (_, refused) ↦ untouched (same ∙ ap (λ x. x.1) refused)
        | inr (e, admitted, _, left) ↦
            activated payload w e read short decoded asked admitted (same ∙ left)
      ]

  -- An operation that is not `execute` leaves the network alone.
  perform-network :
      (w : WireRequest) (now : Time) (n : N)
      → ((perform b r w now n).1 ≡ n)
        ⊎ ((w.operation ≡ text "execute")
            × ((perform b r w now n).1 ≡ (execute b r w.request now n).1))
  unfolding perform
  perform-network w now n = elim (Bool-cases (str_eq w.operation (text "status"))) [
    | inl e ↦ inl (ground arith)
    | inr e ↦ elim (Bool-cases (str_eq w.operation (text "dry_run"))) [
      | inl e' ↦ inl (ground arith)
      | inr e' ↦ elim (Bool-cases (str_eq w.operation (text "execute"))) [
        | inl e'' ↦ inr ((str_eq_iff w.operation (text "execute")).0 e'', ground arith)
        | inr e'' ↦ inl (ground arith)
      ]
    ]
  ]

  handle_connection-Effect :
      (connection : Connection) (now : Time) (n : N)
      → Effect connection now n (handle_connection b r decode connection now n)
  unfolding handle_connection
  handle_connection-Effect connection now n = elim (Option-cases (read_payload connection)) [
    | inl e ↦ untouched (ground arith)
    | inr (payload, e) ↦ elim (Bool-cases (ltb max_request (length payload))) [
      | inl long ↦ untouched (ground arith)
      | inr short ↦ elim (Option-cases (decode payload)) [
        | inl e' ↦ untouched (ground arith)
        | inr ((w, false), e') ↦ untouched (ground arith)
        | inr ((w, true), e') ↦
            let performed : handle_connection b r decode connection now n ≡ perform b r w now n =
              ap (λ o. handle_payload b r decode o now n) e
              ∙ ap
                  (λ t.
                    if t
                    then (refusal (text "REQUEST_TOO_LARGE") (text "request exceeds size limit"), n)
                    else decoded_request b r (decode payload) now n)
                  short
              ∙ ap (λ o. decoded_request b r o now n) e' in
            elim (perform-network w now n) [
              | inl left ↦ untouched (ap (λ x. x.1) performed ∙ left)
              | inr (asked, left) ↦
                  execute-Effect connection now n payload w
                    (handle_connection b r decode connection now n) e
                    (not_ltb→le max_request (length payload) short) e' asked
                    (ap (λ x. x.1) performed ∙ left)
            ]
      ]
    ]
  ]

  -- The broker's service refines the abstract broker: whatever the connections deliver, one after the
  -- other, the network ends as a run of activations leaves it, at most one at the time of each
  -- connection, each of an endpoint that is registered under the ID of a well-formed request and
  -- eligible at that time, with execution switched on and on Linux.
  pub serve-Activations :
      (connections : List (Connection × Time)) (n : N)
      → Activations (map (λ c. c.1) connections) n (serve b r decode connections n).1
  unfolding serve
  serve-Activations [] n = done n
  serve-Activations ((connection, now) ∷ cs) n =
      let n' = (handle_connection b r decode connection now n).1 in
      let rest = serve-Activations cs n' in
      elim (handle_connection-Effect connection now n) [
        | untouched same ↦
            idle
              (subst (λ m. Activations (map (λ c. c.1) cs) m (serve b r decode cs n').1) same rest)
        | activated payload w e _ _ _ _ admitted same ↦
            activate w.request e admitted
              (subst (λ m. Activations (map (λ c. c.1) cs) m (serve b r decode cs n').1) same rest)
      ]
