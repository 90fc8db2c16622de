-- ===== src/Processor/Process/Deliveries.antt =====
-- What a delivery leaves behind (testing_processor/broker_client.cpp).
use distributed_testing_syst.Base.{ℕ, Str, ◌≡◌, ◌⊎◌, inl, inr, refl}
use distributed_testing_syst.Base.Outcome.{Outcome, value, throws, undefined, ◌>>=◌}
use distributed_testing_syst.Base.Action.{continue}
use distributed_testing_syst.Extern.Json.{Json}
use distributed_testing_syst.Extern.System.{System}
use distributed_testing_syst.Processor.Request.{request_from_json}
use distributed_testing_syst.Processor.Execute.{Processor, parsed_or_error}
use distributed_testing_syst.Processor.Process.{caught, accept, receive}

module _ (J : Json) (S : System) where
  caught-ends :
      (ended : Outcome (Unit {0}) × S.World) (tag : ℕ)
      → ((continue (caught J S ended) (λ _ w. (value tag, w))).0 ≡ value tag)
        ⊎ ((continue (caught J S ended) (λ _ w. (value tag, w))).0 ≡ undefined)
  caught-ends (value u, w) tag = inl refl
  caught-ends (throws e, w) tag = inl refl
  caught-ends (undefined, w) tag = inr refl

  -- Whatever the body of a message is, the handler of the queue acknowledges the message, or its
  -- work is undefined: no exception leaves it.
  pub receive-acknowledges :
      (p : Processor) (body : Str) (delivery_tag : ℕ) (w : S.World)
      → ((receive J S p body delivery_tag w).0.0 ≡ value delivery_tag)
        ⊎ ((receive J S p body delivery_tag w).0.0 ≡ undefined)
  unfolding receive
  receive-acknowledges p body tag w =
      caught-ends (accept J S p (parsed_or_error J (J.parse body) >>= request_from_json J) w).0 tag
