-- ===== src/Processor/Broker.antt =====
-- TBrokerClient of testing_processor/broker_client.cpp: the deliveries of the queue, one at a time.
pub mod Defined
pub mod Consume
use distributed_testing_syst.Base.{ℕ, List, [], ◌∷◌, Str}
use distributed_testing_syst.Base.Outcome.{Outcome, value, throws, undefined}
use distributed_testing_syst.Base.Action.{continue}
use distributed_testing_syst.Extern.Json.{Json}
use distributed_testing_syst.Extern.System.{System}
use distributed_testing_syst.Processor.Execute.{Processor}
use distributed_testing_syst.Processor.Process.{receive}

pub record Delivery : Type 0 where
  pub body : Str
  pub delivery_tag : ℕ

module _ (J : Json) (S : System) where
  -- The event loop calls the handler on each delivery, and setQos(1) lets no delivery come before
  -- the last one is acknowledged. The value is the tags acknowledged, in order.
  unfoldable pub consume :
      Processor → List Delivery → S.World → (Outcome (List ℕ) × S.World) × Processor
  consume p [] w = ((value [], w), p)
  consume p (delivery ∷ deliveries) w =
      let (ended, p') = receive J S p delivery.body delivery.delivery_tag w in
      go_on p' (consume p' deliveries) ended
    where
      go_on :
          Processor
          → (S.World → (Outcome (List ℕ) × S.World) × Processor)
          → Outcome ℕ × S.World
          → (Outcome (List ℕ) × S.World) × Processor
      go_on q rest (throws e, w) = ((throws e, w), q)
      go_on q rest (undefined, w) = ((undefined, w), q)
      go_on q rest (value tag, w) =
          let (ended, q') = rest w in (continue ended (λ tags w'. (value (tag ∷ tags), w')), q')
