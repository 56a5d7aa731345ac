-- ===== src/Base/Environment.antt =====
-- The environment of a process as a function, and what the config.py of a service reads from it.
use retail_ops_microservices.Base.{String, Option, none, some, present}

abbrev pub Environment : Type 0
Environment = String → Option String

-- `_read_float`: `none` where `float` raises ValueError.
unfoldable pub read_float : {F : Type 0} → (String → Option F) → Environment → String → F → Option F
read_float float source name default = elim (present (source name)) [
  | none ↦ some default
  | some raw_value ↦ float raw_value
]
