-- ===== src/Protocol/Messages.antt =====
-- protocol.go: `ExecPayload`, `ReplyType`, `ExecReply` and `InventoryEntry`. The JSON text of a
-- reply's report or state is the value that it encodes.
use plaklet.Base.{ℕ, String, Option, none, List, Map}
use plaklet.State.{State}
use plaklet.Protocol.Configurations.{Configuration}
use plaklet.Protocol.Reports.{Report}

pub record ExecPayload : Type 0 where
  pub op : String
  pub task_config : Map String
  pub source : Option Configuration
  pub target : Option Configuration

pub data ReplyType : Type 0 where
  info warning error report state failure success inventory : ReplyType

-- The text of each constant.
unfoldable pub reply_text : ReplyType → String
reply_text info = "info"
reply_text warning = "warning"
reply_text error = "error"
reply_text report = "report"
reply_text state = "state"
reply_text failure = "failure"
reply_text success = "success"
reply_text inventory = "inventory"

pub record InventoryEndpoint : Type 0 where
  pub type : String
  pub endpoint : String
  pub attributes : Map String

pub record InventoryEntry : Type 0 where
  pub class : String
  pub subclass : String
  pub tags : List String
  pub urn : String
  pub name : String
  pub region : String
  pub service : String
  pub resource : String
  pub details : List ℕ
  pub endpoints : List InventoryEndpoint
  pub country : String

-- What the raw JSON of a reply's `Report` holds.
pub data Body : Type 0 where
  job : Report → Body
  entry : InventoryEntry → Body

pub record ExecReply : Type 0 where
  pub type : ReplyType
  pub message : String
  pub report : Option Body
  pub state : Option State

-- A reply with a type and a message only.
abbrev pub plain : ReplyType → String → ExecReply
plain t m = record { type = t; message = m; report = none; state = none }
