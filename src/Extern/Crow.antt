-- ===== src/Extern/Crow.antt =====
-- crow: the requests that the HTTP server reads, and the responses that it fills in.
use distributed_testing_syst.Base.{ℕ, Option, Str, []}
use distributed_testing_syst.Base.Outcome.{Outcome}

-- crow::multipart::message: the number of its parts, and the body that `part_map.find(name)` finds.
pub record Message : Type 0 where
  pub part_count : ℕ
  pub part_body : Str → Option Str

pub record Crow : Type 1 where
  pub Request : Type 0
  pub body : Request → Str
  -- `url_params.get(key)`, `none` for a null pointer.
  pub url_param : Request → Str → Option Str
  -- The constructor throws on a request that is not multipart.
  pub multipart : Request → Outcome Message

-- crow::response: the fields that the handlers write; a new one has code 200 and no body.
pub record Response : Type 0 where
  pub code : ℕ
  pub body : Str

abbrev pub new_response : Response
new_response = record { code = 200; body = [] }
