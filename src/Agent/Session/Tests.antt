-- ===== src/Agent/Session/Tests.antt =====
-- Sessions of the agent on examples.
use camblet.Base.{◌≡◌, ◌≤◌, refl, List, [], ◌∷◌, ◌++◌, Option, none, some, length}
use camblet.Base.Result.{ok}
use camblet.Base.Fallible.{value, fails}
use camblet.Agent.Bus.{Bus}
use camblet.Agent.Messenger.{Bytes, Message, scan_lines, answer_message_type, command_message_type}
use camblet.Agent.Commands.Dispatch.{handle_all}
use camblet.Agent.Kernel.{messenger_started}
use camblet.Agent.Samples.{json, handlers, handlers_return}
use camblet.Agent.Session.{running, Session, Move, opens, scans, handles, tells, Parts, start, run}
use camblet.Agent.Session.Written.{answers_in, frames}
use camblet.Agent.Session.Refines.{Refines, session-Refines}
use camblet.Agent.Session.Advances.{load}
use camblet.Agent.Session.Drains.{session-drains}

-- A bus whose topics are lists.
abbrev pop : List Message → Option (Message × List Message)
pop [] = none
pop (m ∷ ms) = some (m, ms)

pop-some :
    (t : List Message) (m : Message) (left : List Message) → pop t ≡ some (m, left) → t ≡ m ∷ left
pop-some [] m left h = cc
pop-some (x ∷ t) m left h = cc

pop-none : (t : List Message) → pop t ≡ none → t ≡ []
pop-none [] h = refl
pop-none (x ∷ t) h = cc

abbrev list_bus : Bus Message
list_bus = record {
  Topic = List Message;
  fresh = [];
  publish = λ m t. t ++ m ∷ [];
  deliver = pop;
  pending = λ t. t;
  pending-fresh = refl;
  pending-publish = λ m t. refl;
  deliver-some = pop-some;
  deliver-none = pop-none;
}

abbrev parts : Parts (Unit {0})
parts = record {
  json = json;
  formats = record {
    config = λ trust_domain. value (7 ∷ []);
    trace_message = λ req action. fails "no JSON";
    services = λ services. fails "no JSON";
    policies = λ policies. fails "no JSON";
  };
  slice_stable = λ less ps. ps;
  trust_domain = "camblet";
  handlers = handlers;
  bus = list_bus;
}

-- The first of two commands is scanned, and the agent tells its configuration.
abbrev moves : List Move
moves = opens ∷ scans ∷ tells messenger_started ∷ handles ∷ []

abbrev lines : List Bytes
lines = (1 ∷ []) ∷ (2 ∷ []) ∷ []

abbrev answer : Message
answer = record { type = answer_message_type; content = 5 ∷ [] }

-- The command `load_config`
abbrev config : Message
config = record { type = command_message_type; content = 1 ∷ [] }

abbrev halfway : Session (List Message) (Unit {0})
halfway = record {
  phase = running;
  lines = (2 ∷ []) ∷ [];
  incoming = [];
  outgoing = config ∷ answer ∷ [];
  device = some [];
  state = tt;
}

run-moves : run parts moves (start parts lines tt) ≡ ok halfway
unfolding run
run-moves = refl

session-Refines_example : Refines parts lines tt halfway
session-Refines_example = session-Refines parts lines tt moves halfway run-moves refl

session-drains_example :
    (more : List Move) × (length more ≤ load parts halfway)
    × (b : Session (List Message) (Unit {0})) × (run parts more halfway ≡ ok b)
    × (sent : List Message) × (b.device ≡ some (frames sent))
    × (handle_all json handlers (scan_lines json lines).0 tt ≡ ok (answers_in sent, b.state))
session-drains_example =
    session-drains parts handlers_return lines tt moves halfway run-moves refl ((_, refl), tt)
