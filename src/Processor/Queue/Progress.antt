-- ===== src/Processor/Queue/Progress.antt =====
-- How far the instances bring the messages while no connection is lost.
use distributed_testing_syst.Base.{
  ℕ, zero, suc, ◌+◌, ◌<◌, List, [], ◌∷◌, ◌++◌, Option, none, some, Str, length, length-append,
  Option-cases, nil_of_length, ◌⊎◌, inl, inr, ◌≡◌, refl, ap, arith,
}
use distributed_testing_syst.Extern.Json.{Json}
use distributed_testing_syst.Extern.System.{System}
use distributed_testing_syst.Processor.Broker.{Delivery}
use distributed_testing_syst.Processor.Broker.Defined.{NeverUndefined, IsPaired}
use distributed_testing_syst.Processor.Broker.Consume.{receive-value}
use distributed_testing_syst.Processor.Queue.{
  Instance, State, with_held, held_by, Work, deliver, acknowledge, works, Reach, stepped,
}
use distributed_testing_syst.Processor.Queue.Conserved.{count, Reach-total}

-- Two moves for each message that waits, one for each that an instance holds.
abbrev pub left_to_do : {S : System} → State S → ℕ
left_to_do s = length s.waiting + length s.waiting + length (held_by s.instances)

abbrev held_length : Option Delivery → ℕ
held_length none = 0
held_length (some delivery) = 1

length-with_held :
    (held : Option Delivery) (bodies : List Str)
    → length (with_held held bodies) ≡ held_length held + length bodies
length-with_held none bodies = omega arith
length-with_held (some delivery) bodies = omega arith

length-held_by_middle :
    {S : System} (before after : List (Instance S)) (i : Instance S)
    → length (held_by (before ++ i ∷ after))
      ≡ held_length i.held + length (held_by (before ++ after))
length-held_by_middle [] after i = length-with_held i.held (held_by after)
length-held_by_middle (x ∷ before) after i = omega (
  arith,
  length-with_held x.held (held_by (before ++ i ∷ after)),
  length-with_held x.held (held_by (before ++ after)),
  length-held_by_middle before after i,
)

module _ (J : Json) (S : System) where
  -- So many moves, one after the other.
  pub data Works : State S → ℕ → State S → Type 0 where
    stays : {s : State S} → Works s 0 s
    then_moves : {n : ℕ} {s t u : State S} → Work J S s t → Works t n u → Works s (suc n) u

  Work-left_to_do : {s t : State S} → Work J S s t → left_to_do t + 1 ≡ left_to_do s
  Work-left_to_do {s} {t} (deliver before after i delivery rest waits running idle e) = rw e (
      omega (
        arith,
        ap length waits,
        ap (λ is. length (held_by is)) running,
        ap held_length idle,
        length-held_by_middle before after i,
        length-held_by_middle before after (record i { held = some delivery }),
      ))
  Work-left_to_do {s} {t} (acknowledge before after i delivery w p running busy handled e) = rw e (
      omega (
        arith,
        ap (λ is. length (held_by is)) running,
        ap held_length busy,
        length-held_by_middle before after i,
        length-held_by_middle before after (record { processor = p; world = w; held = none }),
      ))

  -- Every delivery and every acknowledgement takes one from what is left to do: twice the bodies in
  -- the queue and once those with the instances. After n of them n less are left, so that without
  -- new messages and lost connections no run is longer than what was left at its start.
  pub Works-left_to_do : {n : ℕ} {s t : State S} → Works s n t → left_to_do t + n ≡ left_to_do s
  Works-left_to_do stays = omega arith
  Works-left_to_do (then_moves move moves) =
      omega (arith, Work-left_to_do move, Works-left_to_do moves)

  Works-Reach :
      {bodies : List Str} {n : ℕ} {s t : State S}
      → Reach J S bodies s
      → Works s n t
      → Reach J S bodies t
  Works-Reach reached stays = reached
  Works-Reach reached (then_moves move moves) = Works-Reach (stepped reached (works move)) moves

  module _ (defined : NeverUndefined J)
      (paired : (task_id batch_id : ℕ) (w : S.World)
        → IsPaired (S.stub_get_batch task_id batch_id w).0)
      (opens : (command : Str) (w : S.World)
        → (output : Str) × (w' : S.World) × (S.popen command w ≡ (some output, w'))) where
    -- An instance that works on a message, or none that does.
    abbrev HoldsOne : List (Instance S) → Type 0
    HoldsOne is =
        (before : List (Instance S)) × (after : List (Instance S)) × (i : Instance S)
        × (delivery : Delivery) × (is ≡ before ++ i ∷ after)
        × (i.held ≡ some delivery)

    busy_or_idle : (is : List (Instance S)) → HoldsOne is ⊎ (held_by is ≡ [])
    busy_or_idle [] = inr refl
    busy_or_idle (x ∷ is) = elim (Option-cases x.held) [
      | inr (delivery, busy) ↦ inl ([], is, x, delivery, refl, busy)
      | inl idle ↦ elim (busy_or_idle is) [
        | inl (before, after, i, delivery, e, busy) ↦
            inl (x ∷ before, after, i, delivery, ap (◌∷◌ x) e, busy)
        | inr none_held ↦ inr (rw idle none_held)
      ]
    ]

    length-middle :
        (before after : List (Instance S)) (i : Instance S) → 0 < length (before ++ i ∷ after)
    length-middle before after i = omega (arith, length-append before (i ∷ after))

    -- An instance that has nothing takes the first message.
    take_first :
        (s : State S) (waiting : List Str) (is : List (Instance S))
        → s.waiting ≡ waiting
        → s.instances ≡ is
        → held_by is ≡ []
        → 0 < length is
        → 0 < left_to_do s
        → (t : State S) × Work J S s t × (0 < length t.instances)
    take_first s [] is waits running idle some_instance some_left = absurd (
        omega
          (arith, ap length waits, ap (λ l. length (held_by l)) running, ap length idle, some_left))
    take_first s (body ∷ rest) [] waits running idle some_instance some_left =
        absurd (omega (arith, some_instance))
    take_first s (body ∷ rest) (x ∷ is) waits running idle some_instance some_left =
        elim (Option-cases x.held) [
          | inl free ↦ (
            _,
            deliver [] is x (record { body = body; delivery_tag = 0 }) rest waits running free refl,
            omega arith,
          )
          | inr (delivery, busy) ↦ cc (rw busy at idle)
        ]

    move_once :
        (s : State S)
        → 0 < length s.instances
        → 0 < left_to_do s
        → (t : State S) × Work J S s t × (0 < length t.instances)
    move_once s some_instance some_left = elim (busy_or_idle s.instances) [
      | inr idle ↦ take_first s s.waiting s.instances refl refl idle some_instance some_left
      | inl (before, after, i, delivery, running, busy) ↦
          let (p, w, handled) =
            receive-value J S defined paired opens i.processor delivery.body delivery.delivery_tag
              i.world in
          (
            _,
            acknowledge before after i delivery w p running busy handled refl,
            length-middle before after (record { processor = p; world = w; held = none }),
          )
    ]

    finish :
        (n : ℕ) (s : State S)
        → left_to_do s ≡ n
        → 0 < length s.instances
        → (t : State S) × Works s n t
    finish zero s e some_instance = (s, stays)
    finish (suc n) s e some_instance =
        let (t, move, more) = move_once s some_instance (omega (arith, e)) in
        let (u, moves) = finish n t (omega (arith, e, Work-left_to_do move)) more in
        (u, then_moves move moves)

    -- Where each call of the operating system and of the libraries returns, so that every process
    -- that is waited for ends, where popen always gives a stream, the operations of the JSON
    -- library return or throw and every batch that the service sends has at least as many outputs
    -- as inputs: from every state that the queue and the instances reach, after lost connections
    -- too, and in which an instance runs, as many deliveries and acknowledgements as are left to do
    -- lead to a state in which each body was acknowledged as often as it was sent.
    pub Reach-finish :
        {bodies : List Str} {s : State S}
        → Reach J S bodies s
        → 0 < length s.instances
        → (t : State S) × Works s (left_to_do s) t
          × ((b : Str) → count b t.acknowledged ≡ count b bodies)
    Reach-finish {bodies} {s} reached some_instance =
        let (t, moves) = finish (left_to_do s) s refl some_instance in
        let done : left_to_do t ≡ 0 = omega (arith, Works-left_to_do moves) in
        let none_waits : t.waiting ≡ [] = nil_of_length t.waiting (omega (arith, done)) in
        let none_held : held_by t.instances ≡ [] =
          nil_of_length (held_by t.instances) (omega (arith, done)) in
        (
          t,
          moves,
          λ b. omega (
            arith,
            ap (count b) none_waits,
            ap (count b) none_held,
            Reach-total J S b (Works-Reach reached moves),
          ),
        )
