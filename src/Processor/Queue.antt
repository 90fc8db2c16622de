-- ===== src/Processor/Queue.antt =====
-- The queue between the sender of submissions and the instances of testing_processor/main.cpp, each a
-- client of testing_processor/broker_client.cpp: the states that they reach together, one event at a
-- time. A message that was delivered and not acknowledged goes back to the queue when its connection
-- is closed.
pub mod Conserved
pub mod Progress
use distributed_testing_syst.Base.{ℕ, List, [], ◌∷◌, ◌++◌, Option, none, some, Str, All, ◌≡◌}
use distributed_testing_syst.Base.Outcome.{value}
use distributed_testing_syst.Extern.Json.{Json}
use distributed_testing_syst.Extern.System.{System}
use distributed_testing_syst.Processor.Execute.{Processor}
use distributed_testing_syst.Processor.Process.{receive}
use distributed_testing_syst.Processor.Broker.{Delivery}

-- An instance, and the delivery that it works on; setQos(1) lets it have one.
pub record Instance (S : System) : Type 0 where
  pub processor : Processor
  pub world : S.World
  pub held : Option Delivery

-- The bodies that wait in the queue, the instances that run, and the bodies that are done with.
pub record State (S : System) : Type 0 where
  pub waiting : List Str
  pub instances : List (Instance S)
  pub acknowledged : List Str

abbrev pub with_held : Option Delivery → List Str → List Str
with_held none bodies = bodies
with_held (some delivery) bodies = delivery.body ∷ bodies

abbrev pub held_by : {S : System} → List (Instance S) → List Str
held_by [] = []
held_by (i ∷ instances) = with_held i.held (held_by instances)

module _ (J : Json) (S : System) where
  -- What moves a message on its way.
  pub data Work (s t : State S) : Type 0 where
    deliver :
        (before after : List (Instance S)) (i : Instance S) (delivery : Delivery) (rest : List Str)
        → s.waiting ≡ delivery.body ∷ rest
        → s.instances ≡ before ++ i ∷ after
        → i.held ≡ none
        → t ≡ record {
          waiting = rest;
          instances = before ++ record i { held = some delivery } ∷ after;
          acknowledged = s.acknowledged;
        }
        → Work s t
    acknowledge :
        (before after : List (Instance S)) (i : Instance S) (delivery : Delivery) (w : S.World)
        (p : Processor)
        → s.instances ≡ before ++ i ∷ after
        → i.held ≡ some delivery
        → receive J S i.processor delivery.body delivery.delivery_tag i.world
          ≡ ((value delivery.delivery_tag, w), p)
        → t ≡ record {
          waiting = s.waiting;
          instances = before ++ record { processor = p; world = w; held = none } ∷ after;
          acknowledged = delivery.body ∷ s.acknowledged;
        }
        → Work s t

  -- `lost`: Run throws in a thread, and no handler is there: the program ends with all its instances.
  pub data Step (s t : State S) : Type 0 where
    works : Work s t → Step s t
    lost :
        t ≡ record {
          waiting = held_by s.instances ++ s.waiting;
          instances = [];
          acknowledged = s.acknowledged;
        }
        → Step s t
    starts :
        (instances : List (Instance S))
        → s.instances ≡ []
        → held_by instances ≡ []
        → t ≡ record s { instances = instances }
        → Step s t

  -- The states after these messages were sent.
  pub data Reach : List Str → State S → Type 0 where
    begun : Reach [] (record { waiting = []; instances = []; acknowledged = [] })
    sent :
        {bodies : List Str} {s : State S} (body : Str)
        → Reach bodies s
        → Reach (body ∷ bodies) (record s { waiting = s.waiting ++ body ∷ [] })
    stepped : {bodies : List Str} {s t : State S} → Reach bodies s → Step s t → Reach bodies t
