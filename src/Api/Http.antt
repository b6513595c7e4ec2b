-- ===== src/Api/Http.antt =====
-- Requests and responses, as far as internal/api reads and writes them.
use taskflow.Common.{ℕ, String, List}
use taskflow.Model.{Job, JobRun, Worker}

-- `status`, `limit` and `offset` are the values of these query parameters, empty if they are
-- missing. `remote_addr` is the address of the connection.
pub record Request : Type 0 where
  pub method : String
  pub path : String
  pub authorization : String
  pub remote_addr : String
  pub status : String
  pub limit : String
  pub offset : String
  pub body : String

pub data Body : Type 0 where
  message : String → Body
  healthy metrics : Body
  job : Job → Body
  jobs : List Job → Body
  run : JobRun → Body
  runs : List JobRun → Body
  workers : List Worker → Body

pub record Response : Type 0 where
  pub code : ℕ
  pub body : Body

-- writeJSON
abbrev pub write_json : ℕ → Body → Response
write_json code body = record { code = code; body = body }

-- writeError
abbrev pub write_error : ℕ → String → Response
write_error code text = write_json code (Body.message text)

-- serverError logs the error and does not tell it.
abbrev pub server_error : Response
server_error = write_error 500 "internal server error"
