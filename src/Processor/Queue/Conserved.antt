-- ===== src/Processor/Queue/Conserved.antt =====
-- The messages of a state against those that were sent.
use distributed_testing_syst.Base.{
  ℕ, ◌+◌, List, [], ◌∷◌, ◌++◌, Option, none, some, Str, str_eq, if◌then◌else◌, ◌≡◌, ap, ◌∙◌, arith,
}
use distributed_testing_syst.Extern.Json.{Json}
use distributed_testing_syst.Extern.System.{System}
use distributed_testing_syst.Processor.Broker.{Delivery}
use distributed_testing_syst.Processor.Queue.{
  Instance, State, with_held, held_by, Work, deliver, acknowledge, Step, works, lost, starts, Reach,
  begun, sent, stepped,
}

abbrev pub count : Str → List Str → ℕ
count b [] = 0
count b (body ∷ bodies) = (if str_eq b body then 1 else 0) + count b bodies

pub count-append : (b : Str) (xs ys : List Str) → count b (xs ++ ys) ≡ count b xs + count b ys
count-append b [] ys = omega arith
count-append b (x ∷ xs) ys = omega (arith, count-append b xs ys)

abbrev held_count : Str → Option Delivery → ℕ
held_count b none = 0
held_count b (some delivery) = count b (delivery.body ∷ [])

-- How often a body stands in the queue, with the instances and among those done with.
abbrev pub total : {S : System} → Str → State S → ℕ
total b s = count b s.waiting + count b (held_by s.instances) + count b s.acknowledged

count-with_held :
    (b : Str) (held : Option Delivery) (bodies : List Str)
    → count b (with_held held bodies) ≡ held_count b held + count b bodies
count-with_held b none bodies = omega arith
count-with_held b (some delivery) bodies = omega arith

count-held_by_middle :
    {S : System} (b : Str) (before after : List (Instance S)) (i : Instance S)
    → count b (held_by (before ++ i ∷ after))
      ≡ held_count b i.held + count b (held_by (before ++ after))
count-held_by_middle b [] after i = count-with_held b i.held (held_by after)
count-held_by_middle b (x ∷ before) after i = omega (
  arith,
  count-with_held b x.held (held_by (before ++ i ∷ after)),
  count-with_held b x.held (held_by (before ++ after)),
  count-held_by_middle b before after i,
)

module _ (J : Json) (S : System) where
  Work-total : (b : Str) {s t : State S} → Work J S s t → total b t ≡ total b s
  Work-total b {s} {t} (deliver before after i delivery rest waits running idle e) = rw e (
      omega (
        arith,
        ap (count b) waits,
        ap (λ is. count b (held_by is)) running,
        ap (held_count b) idle,
        count-held_by_middle b before after i,
        count-held_by_middle b before after (record i { held = some delivery }),
      ))
  Work-total b {s} {t} (acknowledge before after i delivery w p running busy handled e) = rw e (
      omega (
        arith,
        ap (λ is. count b (held_by is)) running,
        ap (held_count b) busy,
        count-held_by_middle b before after i,
        count-held_by_middle b before after (record { processor = p; world = w; held = none }),
      ))

  Step-total : (b : Str) {s t : State S} → Step J S s t → total b t ≡ total b s
  Step-total b (works step) = Work-total b step
  Step-total b {s} (lost e) = rw e (omega (arith, count-append b (held_by s.instances) s.waiting))
  Step-total b {s} (starts instances none_there idle e) =
      rw e (omega (arith, ap (λ is. count b (held_by is)) none_there, ap (count b) idle))

  -- In every state that the queue and the instances reach, each body stands as often in the queue,
  -- with the instances and among the acknowledged ones together as it was sent: no message is lost
  -- or made up, and a lost connection gives back what the instances held.
  pub Reach-total :
      (b : Str) {bodies : List Str} {s : State S} → Reach J S bodies s → total b s ≡ count b bodies
  Reach-total b begun = omega arith
  Reach-total b (sent {s = s} body reached) =
      omega (arith, Reach-total b reached, count-append b s.waiting (body ∷ []))
  Reach-total b (stepped reached step) = Step-total b step ∙ Reach-total b reached
