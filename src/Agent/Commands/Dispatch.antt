-- ===== src/Agent/Commands/Dispatch.antt =====
-- pkg/agent/commands/commands.go, and the handlers `accept` and `connect`. The handlers share a
-- state S, and may panic.
pub mod Answers
use camblet.Base.{
  ℕ, Bool, true, false, List, [], ◌∷◌, ◌++◌, Option, none, some, String, if◌then◌else◌,
}
use camblet.Base.Assoc.{Assoc, lookup, insert}
use camblet.Base.Result.{Error, Result, ok, ◌>>=◌}
use camblet.Base.Fallible.{Fallible, value, fails}
use camblet.Agent.Messenger.{
  Bytes, Message, answer_message_type, Command, Answer, Json, get_command,
}

-- HandleCommand: the answer, and the error beside it.
abbrev pub Handler : Type 0 → Type 0
Handler S = Command → S → Result ((String × Option Error) × S)

module _ {S : Type 0} where
  unfoldable pub add_handler : String → Handler S → Assoc (Handler S) → Assoc (Handler S)
  unfolding insert
  add_handler command_name handler handlers = insert command_name handler handlers

  abbrev pub accept : Handler S
  accept cmd s = ok (("ok", none), s)

  abbrev pub connect : Handler S
  connect cmd s = ok (("ok", none), s)

  -- A command with no handler.
  abbrev pub invalid_command : Handler S
  invalid_command cmd s = ok (("", some "invalid command"), s)

  abbrev pub or_invalid : Option (Handler S) → Handler S
  or_invalid (some handler) = handler
  or_invalid none = invalid_command

abbrev pub error_text : Option Error → String
error_text none = ""
error_text (some e) = e

abbrev pub answer_of : Command → String × Option Error → Answer
answer_of cmd result = record {
  id = cmd.id;
  command = "answer";
  answer = result.0;
  error = error_text result.1;
}

module _ {S : Type 0} (json : Json) (handlers : Assoc (Handler S)) where
  -- The answer that is published, none if it has no JSON.
  abbrev pub publish : Fallible Bytes → List Message
  publish (value j) = record { type = answer_message_type; content = j } ∷ []
  publish (fails e) = []

  abbrev pub reply : Command → String × Option Error → List Message
  reply cmd result =
      if cmd.is_message then [] else publish (json.marshal_answer (answer_of cmd result))

  -- `handleCommand`: the next state and the messages published to the outgoing topic.
  unfoldable pub handle_command : Message → S → Result (List Message × S)
  unfolding get_command lookup
  handle_command msg s = elim (get_command json msg) [
    | fails e ↦ ok ([], s)
    | value cmd ↦ do
      done ← or_invalid (lookup cmd.command handlers) cmd s
      ok (reply cmd done.0, done.1)
  ]

  -- The subscription: one message of the incoming topic after the other.
  unfoldable pub handle_all : List Message → S → Result (List Message × S)
  unfolding handle_command
  handle_all [] s = ok ([], s)
  handle_all (msg ∷ msgs) s = do
    first ← handle_command msg s
    rest ← handle_all msgs first.1
    ok (first.0 ++ rest.0, rest.1)
