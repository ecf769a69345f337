-- ===== src/Agent/Messenger.antt =====
-- pkg/agent/messenger: messages, commands and answers.
pub mod Scan
use Prim.Native.String.{◌++◌ as concat}
use camblet.Base.{
  ℕ, Bool, true, false, List, [], ◌∷◌, ◌++◌, Option, none, some, String, ◌==◌, if◌then◌else◌,
}
use camblet.Base.Int.{ℤ}
use camblet.Base.Decimal.{itoa}
use camblet.Base.Result.{Error}
use camblet.Base.Fallible.{Fallible, value, fails}

abbrev pub Bytes : Type 0
Bytes = List ℕ

pub record Message : Type 0 where
  pub type : String
  pub content : Bytes

abbrev pub command_message_type : String
command_message_type = "command"

abbrev pub answer_message_type : String
answer_message_type = "answer"

pub record NamespaceIds : Type 0 where
  pub uts : ℤ
  pub ipc : ℤ
  pub mount : ℤ
  pub pid : ℤ
  pub network : ℤ
  pub time : ℤ
  pub cgroup : ℤ

pub record CommandContext : Type 0 where
  pub uid : ℤ
  pub gid : ℤ
  pub pid : ℤ
  pub command_name : String
  pub command_path : String
  pub namespace_ids : NamespaceIds
  pub cgroup_path : String

unfoldable pub unique_string : CommandContext → String
unfolding itoa
unique_string c = concat c.cgroup_path (
    concat "-" (
      concat (itoa c.uid) (
        concat "-"
          (concat (itoa c.gid) (concat "-" (concat c.command_name (concat "-" c.command_path)))))))

pub record Command : Type 0 where
  pub context : CommandContext
  pub id : String
  pub command : String
  pub name : String
  pub code : Bytes
  pub entrypoint : String
  pub content : String
  pub is_message : Bool

pub record Answer : Type 0 where
  pub id : String
  pub command : String
  pub answer : String
  pub error : String

-- What the code takes from encoding/json for these types.
pub record Json : Type 0 where
  pub marshal_command : Command → Fallible Bytes
  pub unmarshal_command : Bytes → Fallible Command
  pub marshal_answer : Answer → Fallible Bytes

module _ (json : Json) where
  -- `SetData` leaves the data nil on an error, which `NewCommand` ignores.
  abbrev pub data_or_nil : Fallible Bytes → Bytes
  data_or_nil (value j) = j
  data_or_nil (fails e) = []

  unfoldable pub new_command : Command → Message
  new_command cmd = record {
    type = command_message_type;
    content = data_or_nil (json.marshal_command cmd);
  }

  unfoldable pub get_command : Message → Fallible Command
  get_command msg =
      if msg.type == command_message_type
      then json.unmarshal_command msg.content
      else fails "invalid message type"

  -- The handler of outgoing messages writes to the device, if it is open, the data and a newline.
  unfoldable pub write_outgoing : Option Bytes → Message → Option Bytes
  write_outgoing none msg = none
  write_outgoing (some written) msg = some (written ++ (msg.content ++ b'\n' ∷ []))

  -- The scan loop of `Run` over the lines of the device: the messages that it publishes, and the
  -- error that ends it, if a line is no command.
  unfoldable pub scan_lines : List Bytes → List Message × Option Error
  scan_lines [] = ([], none)
  scan_lines (line ∷ lines) = elim (json.unmarshal_command line) [
    | fails e ↦ ([], some e)
    | value command ↦
        let (published, e) = scan_lines lines in
        (record { type = command_message_type; content = line } ∷ published, e)
  ]
