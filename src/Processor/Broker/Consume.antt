-- ===== src/Processor/Broker/Consume.antt =====
-- What the client acknowledges of a sequence of deliveries (testing_processor/broker_client.cpp).
use distributed_testing_syst.Base.{ℕ, some, none, List, [], ◌∷◌, map, Str, ◌≡◌, refl, ap}
use distributed_testing_syst.Base.Outcome.{
  Outcome, value, ◌>>=◌, IsDefined, returned, threw, >>=-IsDefined,
}
use distributed_testing_syst.Base.Action.{continue, continue-IsDefined}
use distributed_testing_syst.Extern.Json.{Json}
use distributed_testing_syst.Extern.System.{System}
use distributed_testing_syst.Processor.Container.{run, run_command}
use distributed_testing_syst.Processor.Request.{Request, request_from_json}
use distributed_testing_syst.Processor.Execute.{Processor, parsed_or_error}
use distributed_testing_syst.Processor.Process.{process, accept, caught, receive}
use distributed_testing_syst.Processor.Broker.{Delivery, consume}
use distributed_testing_syst.Processor.Broker.Defined.{
  NeverUndefined, IsPaired, request_from_json-IsDefined, parsed_or_error-IsDefined, test-IsDefined,
  commit-IsDefined,
}

module _ (J : Json) (S : System) (defined : NeverUndefined J)
    (paired : (task_id batch_id : ℕ) (w : S.World)
      → IsPaired (S.stub_get_batch task_id batch_id w).0)
    (opens : (command : Str) (w : S.World)
      → (output : Str) × (w' : S.World) × (S.popen command w ≡ (some output, w'))) where
  process-IsDefined :
      (p : Processor) (r : Request) (w : S.World) → IsDefined (process J S p r w).0.0
  unfolding process run
  process-IsDefined p r w =
      let (output, w', opened) = opens (run_command S p.container) w in
      rw opened (
        continue-IsDefined _ _ (test-IsDefined J S defined paired _ _ _)
          (λ reports w'. commit-IsDefined J S defined _ _ reports w'))

  accept-IsDefined :
      (p : Processor) (request : Outcome Request) (w : S.World)
      → IsDefined request
      → IsDefined (accept J S p request w).0.0
  accept-IsDefined p _ w (returned r) = process-IsDefined p r _
  accept-IsDefined p _ w (threw e) = threw e

  caught-acknowledges :
      (ended : Outcome (Unit {0}) × S.World) (tag : ℕ)
      → IsDefined ended.0
      → (w' : S.World) × (continue (caught J S ended) (λ _ w. (value tag, w)) ≡ (value tag, w'))
  caught-acknowledges (_, w) tag (returned u) = (w, refl)
  caught-acknowledges (_, w) tag (threw e) = (_, refl)

  pub receive-value :
      (p : Processor) (body : Str) (delivery_tag : ℕ) (w : S.World)
      → (p' : Processor) × (w' : S.World) × (receive J S p body delivery_tag w
          ≡ ((value delivery_tag, w'), p'))
  unfolding receive
  receive-value p body tag w =
      let request = parsed_or_error J (J.parse body) >>= request_from_json J in
      let request_ok : IsDefined request =
        >>=-IsDefined (parsed_or_error J (J.parse body)) _
          (parsed_or_error-IsDefined J defined (J.parse body))
          (request_from_json-IsDefined J defined) in
      let (w', e) =
        caught-acknowledges (accept J S p request w).0 tag
          (accept-IsDefined p request w request_ok) in
      ((accept J S p request w).1, w', ap (λ done. (done, (accept J S p request w).1)) e)

  noted :
      (ended : Outcome (List ℕ) × S.World) (tag : ℕ) (tags : List ℕ)
      → ended.0 ≡ value tags
      → (continue ended (λ tags w. (value (tag ∷ tags), w))).0 ≡ value (tag ∷ tags)
  noted (m, w) tag tags e = rw e refl

  -- Where each call of the operating system and of the libraries returns, so that every process
  -- that is waited for ends, where popen always gives a stream, the operations of the JSON library
  -- return or throw and every batch that the service sends has at least as many outputs as inputs:
  -- the client acknowledges every delivery of a sequence, in order. No exception from a body that
  -- does not parse, from a missing field, from a report that cannot be read or from a dump leaves a
  -- delivery unacknowledged or ends the client.
  pub consume-tags :
      (p : Processor) (deliveries : List Delivery) (w : S.World)
      → (consume J S p deliveries w).0.0
        ≡ value (map (λ delivery. delivery.delivery_tag) deliveries)
  unfolding consume
  consume-tags p [] w = refl
  consume-tags p (delivery ∷ deliveries) w =
      let (p', w', e) = receive-value p delivery.body delivery.delivery_tag w in
      rw e (
        noted (consume J S p' deliveries w').0 delivery.delivery_tag _
          (consume-tags p' deliveries w'))

-- popen gives no stream, where there is no memory, descriptor or process left.
abbrev pub NeverOpens : System → Type 0
NeverOpens S = (command : Str) (w : S.World) → (w' : S.World) × (S.popen command w ≡ (none, w'))
