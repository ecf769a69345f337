-- ===== src/Agent/Samples.antt =====
-- Commands, a JSON format and registered handlers for the examples of the agent.
use camblet.Base.{
  ◌≡◌, refl, false, List, [], ◌∷◌, Option, none, some, String, zero, suc, Bool-cases, inl, inr,
  ◌==◌, subst,
}
use mathlib.Core.Option.{some-injective}
use camblet.Base.Assoc.{Assoc, lookup}
use camblet.Base.Int.{pos}
use camblet.Base.Result.{Error, ok}
use camblet.Base.Fallible.{Fallible, value, fails}
use camblet.Agent.Messenger.{Bytes, Message, CommandContext, Command, Json}
use camblet.Agent.Messenger.Scan.{message}
use camblet.Agent.Commands.Dispatch.{Handler, accept}
use camblet.Agent.Commands.Augment.{no_context}

abbrev pub context : CommandContext
context = record no_context { pid = pos 12; uid = pos 33; command_name = "nginx" }

abbrev pub command : String → Command
command name = record {
  context = context;
  id = "id-1";
  command = name;
  name = "";
  code = [];
  entrypoint = "";
  content = "data";
  is_message = false;
}

-- A line is one byte: 0 is no command, 1 is "accept", any other one "unknown".
abbrev pub unmarshal : Bytes → Fallible Command
unmarshal [] = fails "no JSON"
unmarshal (zero ∷ rest) = fails "no JSON"
unmarshal (suc zero ∷ rest) = value (command "accept")
unmarshal (suc (suc n) ∷ rest) = value (command "unknown")

abbrev pub json : Json
json = record {
  marshal_command = λ cmd. value (1 ∷ []);
  unmarshal_command = unmarshal;
  marshal_answer = λ answer. value (5 ∷ []);
}

abbrev pub messages : List Message
messages = message (1 ∷ []) ∷ message (0 ∷ []) ∷ message (2 ∷ []) ∷ []

abbrev pub handlers : Assoc (Handler (Unit {0}))
handlers = ("accept", accept) ∷ []

pub handlers_return :
    (name : String) (handler : Handler (Unit {0}))
    → lookup name handlers ≡ some handler
    → (cmd : Command) (s : Unit {0})
    → (done : (String × Option Error) × Unit {0}) × (handler cmd s ≡ ok done)
unfolding lookup
handlers_return name handler h cmd s = elim (Bool-cases ("accept" == name)) [
  | inl e ↦
      let same : accept ≡ handler = some-injective accept handler (rw e at h) in
      ((("ok", none), s), subst (λ x. x cmd s ≡ ok (("ok", none), s)) same refl)
  | inr e ↦ cc (rw e at h)
]
