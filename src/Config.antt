-- ===== src/Config.antt =====
-- The configuration file that each main function reads: a message in protobuf's text format. The
-- parser of the format is a parameter.
use distributed_testing_syst.Base.{Option, none, some, Str, str}
use distributed_testing_syst.Base.Outcome.{Outcome, value, throws}

abbrev pub config_or_error {ℓ} : {A : Type ℓ} → Option A → Outcome A
config_or_error none = throws (str "can't parse config")
config_or_error (some config) = value config

-- The content is that of the file, where it is open.
unfoldable pub read_config {ℓ} : {A : Type ℓ} → (Str → Option A) → Option Str → Outcome A
read_config parse none = throws (str "can't parse config")
read_config parse (some content) = config_or_error (parse content)
