-- ===== src/Examples/Broker.antt =====
-- Deliveries of the queue: one that is a submission, and one that is not.
use distributed_testing_syst.Base.{
  ℕ, zero, suc, ◌⊎◌, Option-cases, List, [], ◌∷◌, none, some, Str, str, ◌≡◌, refl, get_elem?, true,
  false, Bool-cases, if◌then◌else◌, inl, inr, str_eq, arith,
}
use distributed_testing_syst.Base.Outcome.{value, IsDefined, returned, threw}
use distributed_testing_syst.Extern.System.{System, BatchFields, ScriptsFields, replied}
use distributed_testing_syst.Extern.Json.{Json}
use distributed_testing_syst.Sample.Trees.{
  Tree, member, end, run_report, type_error, null, num, text, obj, tree_json, tree_find,
  tree_is_assignable, tree_index, tree_dump, tree_to_nat, tree_to_str,
}
use distributed_testing_syst.Sample.Machine.{machine, reply_of, processor}
use distributed_testing_syst.Processor.Queue.{Instance, State, starts, Reach, begun, sent, stepped}
use distributed_testing_syst.Processor.Queue.Conserved.{count}
use distributed_testing_syst.Processor.Queue.Progress.{Works, Reach-finish}
use distributed_testing_syst.Processor.Broker.{Delivery, consume}
use distributed_testing_syst.Processor.Broker.Defined.{NeverUndefined, IsPaired}
use distributed_testing_syst.Processor.Broker.Consume.{consume-tags}
use distributed_testing_syst.Processor.Request.{Request}

abbrev submission_tree : Tree
submission_tree = obj (
    member (str "submissionId") (num 11) (
      member (str "buildId") (num 5) (
        member (str "userData") (text (str "main")) (
          member (str "taskId") (num 7) (
            member (str "memoryLimit") (num 1024)
              (member (str "cpuTimeLimitMilliSeconds") (num 2000) end))))))

abbrev queue_json : Json
queue_json = record tree_json {
  parse = λ s.
      if str_eq s (str "submission")
      then some submission_tree
      else if str_eq s (str "report")
      then some run_report
      else none;
}

abbrev scripts : ScriptsFields
scripts = record {
  init_script = str "i";
  execute_script = str "e";
  batch_count = 1;
  task_root_dir = [];
}

abbrev batches : List BatchFields
batches = record { input = str "ab" ∷ []; output = str "c" ∷ [] } ∷ []

to_nat-IsDefined : (v : Tree) → IsDefined (tree_to_nat v)
to_nat-IsDefined (num n) = returned n
to_nat-IsDefined _ = threw _

to_str-IsDefined : (v : Tree) → IsDefined (tree_to_str v)
to_str-IsDefined (text s) = returned s
to_str-IsDefined _ = threw _

index-IsDefined : (v : Tree) (k : Str) → IsDefined (tree_index v k)
index-IsDefined v k = elim (Option-cases (tree_find v k)) [
  | inr (w, e) ↦ rw (e, tree_index) (returned w)
  | inl e ↦ rw (e, tree_index) (null_or_error (Bool-cases (tree_is_assignable v)))
]
  where
    null_or_error :
        (tree_is_assignable v ≡ true) ⊎ (tree_is_assignable v ≡ false)
        → IsDefined (if tree_is_assignable v then value null else type_error)
    null_or_error (inl e) = rw e (returned null)
    null_or_error (inr e) = rw e (threw _)

dump-IsDefined : (v : Tree) → IsDefined (tree_dump v)
dump-IsDefined (num n) = returned _
dump-IsDefined (text s) = returned _
dump-IsDefined _ = returned _

tree-NeverUndefined : NeverUndefined queue_json
tree-NeverUndefined = record {
  to_nat-IsDefined = to_nat-IsDefined;
  to_str-IsDefined = to_str-IsDefined;
  index-IsDefined = index-IsDefined;
  dump-IsDefined = dump-IsDefined;
}

replies-IsPaired : (id : ℕ) → IsPaired (reply_of (get_elem? batches id))
replies-IsPaired zero = omega arith
replies-IsPaired (suc id) = tt

abbrev system : System
system = record (machine 2 batches) {
  stub_get_scripts = λ task_id build_id w. (replied scripts, w);
}

abbrev deliveries : List Delivery
deliveries =
    record { body = str "submission"; delivery_tag = 4 }
    ∷ record { body = str "{"; delivery_tag = 5 }
    ∷ []

opens :
    (command : Str) (w : ℕ)
    → (output : Str) × (w' : ℕ) × (system.popen command w ≡ (some output, w'))
opens command w = (_, _, refl)

consume-tags_example : (consume queue_json system processor deliveries 0).0.0 ≡ value (4 ∷ 5 ∷ [])
consume-tags_example =
    consume-tags queue_json system tree-NeverUndefined
      (λ task_id batch_id w. replies-IsPaired batch_id) opens processor deliveries 0

-- Two messages, and then an instance that starts.
abbrev idle_instance : Instance system
idle_instance = record { processor = processor; world = 0; held = none }

abbrev two_sent : State system
two_sent = record {
  waiting = str "submission" ∷ str "{" ∷ [];
  instances = idle_instance ∷ [];
  acknowledged = [];
}

two_sent-Reach : Reach queue_json system (str "{" ∷ str "submission" ∷ []) two_sent
two_sent-Reach =
    stepped (sent (str "{") (sent (str "submission") begun))
      (starts (idle_instance ∷ []) refl refl refl)

Reach-finish_example :
    (t : State system) × Works queue_json system two_sent 4 t
    × ((b : Str) → count b t.acknowledged ≡ count b (str "{" ∷ str "submission" ∷ []))
Reach-finish_example =
    Reach-finish queue_json system tree-NeverUndefined
      (λ task_id batch_id w. replies-IsPaired batch_id) opens two_sent-Reach (omega arith)

-- A machine that opens no stream.
abbrev closed_system : System
closed_system = record system { popen = λ command w. (none, w) }

abbrev parsed_submission : Request
parsed_submission = record {
  submission_id = 11;
  build_id = 5;
  user_data = str "main";
  task_id = 7;
  memory_limit = 1024;
  cpu_time_limit_milli_seconds = 2000;
  batch_count = 0;
}
