-- ===== src/Std/Status.antt =====
-- The `tonic::Status` values that the source builds: the code and the message of each.
use minerva_server.Prelude.{String}

-- The codes that the source uses.
pub data Code : Type 0 where
  invalid_argument not_found unavailable aborted unknown : Code

pub record Status : Type 0 where
  pub code : Code
  pub message : String

-- `Status::invalid_argument(message)`.
abbrev pub invalid : String → Status
invalid message = record { code = invalid_argument; message = message }
