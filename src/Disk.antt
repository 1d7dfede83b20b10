-- ===== src/Disk.antt =====
-- One JSON file on disk, as both stores read and replace it. `document` holds the parsed content; a
-- file that cannot be read or parsed is `unreadable`.
use hermes_enterprise_deploy.Base.{Bool}
use hermes_enterprise_deploy.Json.{Json}

pub data File : Type 0 where
  absent : File
  unreadable : File
  document : Json → File

-- What a call meets outside the program: whether the write of the file succeeds.
pub record Disk : Type 0 where
  pub file : File
  pub writable : Bool
