-- ===== src/Sample/Requests.antt =====
-- Requests with their parts as a list.
use distributed_testing_syst.Base.{
  List, [], ◌∷◌, Option, none, some, Str, str_eq, if◌then◌else◌, length,
}
use distributed_testing_syst.Base.Outcome.{value}
use distributed_testing_syst.Extern.Crow.{Crow}

pub record Request : Type 0 where
  pub text : Str
  pub params : List (Str × Str)
  pub parts : List (Str × Str)

abbrev find_part : List (Str × Str) → Str → Option Str
find_part [] k = none
find_part ((j, v) ∷ l) k = if str_eq j k then some v else find_part l k

abbrev pub list_crow : Crow
list_crow = record {
  Request = Request;
  body = λ r. r.text;
  url_param = λ r. find_part r.params;
  multipart = λ r. value (record { part_count = length r.parts; part_body = find_part r.parts });
}
