-- ===== src/Agent/Commands/Dispatch/Answers.antt =====
-- The answers to the commands of the device.
use camblet.Base.{
  ◌≡◌, refl, true, false, Bool-cases, List, [], ◌∷◌, ◌++◌, Option, none, some, inl, inr, String,
  Option-cases,
}
use camblet.Base.Assoc.{Assoc, lookup}
use camblet.Base.Result.{Error, ok}
use camblet.Base.Fallible.{Fallible, value, fails}
use camblet.Agent.Messenger.{
  Bytes, Message, answer_message_type, Command, Answer, Json, get_command,
}
use camblet.Agent.Commands.Dispatch.{
  Handler, answer_of, or_invalid, handle_command, handle_all, reply,
}

-- The text of an error: the empty one if there is none.
pub data HasText : Option Error → String → Type 0 where
  no_error : HasText none ""
  its_text : (e : Error) → HasText (some e) e

module _ {S : Type 0} (json : Json) (handlers : Assoc (Handler S)) where
  -- What the handler of the name of a command does in a state: its result, an answer and an error,
  -- and the next state. Without a handler there is no answer, the error is "invalid command", and
  -- the state stays.
  pub data Handles (cmd : Command) (s : S) : String → Option Error → S → Type 0 where
    by_handler :
        (handler : Handler S) (text : String) (e : Option Error) (s' : S)
        → lookup cmd.command handlers ≡ some handler
        → handler cmd s ≡ ok ((text, e), s')
        → Handles cmd s text e s'
    by_nobody : lookup cmd.command handlers ≡ none → Handles cmd s "" (some "invalid command") s

  -- From a state, the messages that come in, those that are published for them, and the state
  -- behind them. A message that is no command is passed over; a command is handled; and one that is
  -- not marked as a message is answered by one message, with its ID, the answer and the text of the
  -- error.
  pub data Answered : S → List Message → List Message → S → Type 0 where
    nothing_left : (s : S) → Answered s [] [] s
    no_command :
        (msg : Message) (error : Error) {s s' : S} {msgs published : List Message}
        → get_command json msg ≡ fails error
        → Answered s msgs published s'
        → Answered s (msg ∷ msgs) published s'
    unanswered :
        (msg : Message) (cmd : Command) (text : String) (e : Option Error) {s s1 s' : S}
        {msgs published : List Message}
        → get_command json msg ≡ value cmd
        → cmd.is_message ≡ true
        → Handles cmd s text e s1
        → Answered s1 msgs published s'
        → Answered s (msg ∷ msgs) published s'
    answered :
        (msg : Message) (cmd : Command) (text error : String) (e : Option Error) (j : Bytes)
        {s s1 s' : S} {msgs published : List Message}
        → get_command json msg ≡ value cmd
        → cmd.is_message ≡ false
        → Handles cmd s text e s1
        → HasText e error
        → json.marshal_answer
            (record { id = cmd.id; command = "answer"; answer = text; error = error })
          ≡ value j
        → Answered s1 msgs published s'
        → Answered s
            (msg ∷ msgs)
            (record { type = answer_message_type; content = j } ∷ published)
            s'

  module _ (marshals : (a : Answer) → (j : Bytes) × (json.marshal_answer a ≡ value j))
      (handler_returns : (name : String) (handler : Handler S)
        → lookup name handlers ≡ some handler
        → (cmd : Command) (s : S)
        → (done : (String × Option Error) × S) × (handler cmd s ≡ ok done)) where
    handler-Handles :
        (cmd : Command) (s : S)
        → (text : String) × (e : Option Error) × (s' : S) × (or_invalid
              (lookup cmd.command handlers)
              cmd
              s
            ≡ ok ((text, e), s'))
          × Handles cmd s text e s'
    handler-Handles cmd s = elim (Option-cases (lookup cmd.command handlers)) [
      | inl missing ↦ ("", some "invalid command", s, rw missing refl, by_nobody missing)
      | inr (handler, found) ↦
          let (((text, e), s'), returns) = handler_returns cmd.command handler found cmd s in
          (text, e, s', rw found returns, by_handler handler text e s' found returns)
    ]

    answer-Answered :
        (msg : Message) (cmd : Command) (text : String) (e : Option Error) (s s1 s' : S)
        (msgs published : List Message)
        → get_command json msg ≡ value cmd
        → cmd.is_message ≡ false
        → Handles cmd s text e s1
        → Answered s1 msgs published s'
        → Answered s (msg ∷ msgs) (reply json handlers cmd (text, e) ++ published) s'
    answer-Answered msg cmd text none s s1 s' msgs published h asks handles rest =
        let (j, marshalled) = marshals (answer_of cmd (text, none)) in
        rw (asks, marshalled)
          (answered msg cmd text "" none j h asks handles no_error marshalled rest)
    answer-Answered msg cmd text (some e) s s1 s' msgs published h asks handles rest =
        let (j, marshalled) = marshals (answer_of cmd (text, some e)) in
        rw (asks, marshalled)
          (answered msg cmd text e (some e) j h asks handles (its_text e) marshalled rest)

    command-Answered :
        (msg : Message) (cmd : Command) (text : String) (e : Option Error) (s s1 s' : S)
        (msgs published : List Message)
        → get_command json msg ≡ value cmd
        → Handles cmd s text e s1
        → Answered s1 msgs published s'
        → Answered s (msg ∷ msgs) (reply json handlers cmd (text, e) ++ published) s'
    command-Answered msg cmd text e s s1 s' msgs published h handles rest =
        elim (Bool-cases cmd.is_message) [
          | inl silent ↦ rw silent (unanswered msg cmd text e h silent handles rest)
          | inr asks ↦ answer-Answered msg cmd text e s s1 s' msgs published h asks handles rest
        ]

    -- If every answer has a JSON encoding and the registered handlers return for every command,
    -- the subscription handles every sequence of messages, from every state. What it publishes is
    -- exactly one answer for each message that is a command and not marked as a message, in the
    -- order of the commands: with the ID of the command, the answer that the handler of its name
    -- gives in the state that the commands before it leave, and the text of the handler's error; and
    -- with no answer and the error "invalid command" if no handler has its name.
    pub handle_all-Answered :
        (msgs : List Message) (s : S)
        → (done : List Message × S) × (handle_all json handlers msgs s ≡ ok done)
          × Answered s msgs done.0 done.1
    unfolding handle_all handle_command
    handle_all-Answered [] s = (([], s), refl, nothing_left s)
    handle_all-Answered (msg ∷ msgs) s = go (get_command json msg) refl (handle_all-Answered msgs)
      where
        go :
            (decoded : Fallible Command)
            → get_command json msg ≡ decoded
            → ((s : S)
                → (done : List Message × S) × (handle_all json handlers msgs s ≡ ok done)
                  × Answered s msgs done.0 done.1)
            → (done : List Message × S) × (handle_all json handlers (msg ∷ msgs) s ≡ ok done)
              × Answered s (msg ∷ msgs) done.0 done.1
        go (fails e) h later =
            let (done, run, all) = later s in
            (done, rw (h, handle_command) (rw run refl), no_command msg e h all)
        go (value cmd) h later =
            let (text, e, s1, returns, handles) = handler-Handles cmd s in
            let (done, run, all) = later s1 in
            (
              (reply json handlers cmd (text, e) ++ done.0, done.1),
              rw (h, handle_command) (rw (returns, handle_command) (rw run refl)),
              command-Answered msg cmd text e s s1 done.1 msgs done.0 h handles all,
            )
