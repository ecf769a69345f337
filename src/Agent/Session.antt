-- ===== src/Agent/Session.antt =====
-- A session of the agent: `Run` of pkg/agent/messenger/messenger.go, `Run` and `handleCommand` of
-- pkg/agent/commands/commands.go, and `run` of internal/cli/cmd/agent/agent.go, which share the bus
-- and run beside one another. A schedule says in which order they take their steps.

pub mod Written
pub mod Follows
pub mod Delivers
pub mod Refines
pub mod Advances
pub mod Drains
mod Tests
use camblet.Base.{Bool, List, [], ◌∷◌, Option, none, some, String}
use camblet.Base.Assoc.{Assoc}
use camblet.Base.Result.{Result, ok, ◌>>=◌}
use camblet.Base.Fallible.{Fallible, value, fails}
use camblet.Agent.Bus.{Bus, publish_all}
use camblet.Agent.Messenger.{Bytes, Message, command_message_type, Command, Json, write_outgoing}
use camblet.Agent.Commands.Dispatch.{Handler, handle_command}
use camblet.Agent.Kernel.{KernelEvent, KernelFormats, kernel_messages}
use camblet.Policy.Types.{Policy}

-- The messenger: before the device is opened, while it scans, and after its `Run` has returned.
pub data Phase : Type 0 where
  starting running stopped : Phase

-- The lines that the device gives and that are not yet scanned, the two topics, the field `dev` of
-- the messenger with what was written to it, and the state of the handlers.
pub record Session (Topic S : Type 0) : Type 0 where
  pub phase : Phase
  pub lines : List Bytes
  pub incoming : Topic
  pub outgoing : Topic
  pub device : Option Bytes
  pub state : S

pub data Move : Type 0 where
  opens scans handles writes ends : Move
  tells : KernelEvent → Move

-- What the parts of the agent are given: the libraries, the sort, the trust domain of the
-- configuration, the registered handlers and the bus.
pub record Parts (S : Type 0) : Type 1 where
  pub json : Json
  pub formats : KernelFormats
  pub slice_stable : (Policy → Policy → Bool) → List Policy → List Policy
  pub trust_domain : String
  pub handlers : Assoc (Handler S)
  pub bus : Bus Message

module _ {S : Type 0} (parts : Parts S) where
  open parts use {json, formats, slice_stable, trust_domain, handlers, bus}
  open bus use {Topic, fresh, publish, deliver}

  abbrev pub start : List Bytes → S → Session Topic S
  start lines s = record {
    phase = starting;
    lines = lines;
    incoming = fresh;
    outgoing = fresh;
    device = none;
    state = s;
  }

  -- `os.OpenFile` succeeds.
  abbrev pub open_device : Phase → Session Topic S → Session Topic S
  open_device starting a = record a { phase = running; device = some [] }
  open_device running a = a
  open_device stopped a = a

  -- The deferred function of `Run`
  abbrev pub close_device : Session Topic S → Session Topic S
  close_device a = record a { phase = stopped; device = none }

  -- One round of the scan loop, on the decoded line
  abbrev pub publish_line :
      Bytes → List Bytes → Fallible Command → Session Topic S → Session Topic S
  publish_line line rest (fails e) a = close_device (record a { lines = rest })
  publish_line line rest (value command) a = record a {
    lines = rest;
    incoming = publish (record { type = command_message_type; content = line }) a.incoming;
  }

  unfoldable pub scan : Phase → List Bytes → Session Topic S → Session Topic S
  scan starting lines a = a
  scan stopped lines a = a
  scan running [] a = a
  scan running (line ∷ rest) a = publish_line line rest (json.unmarshal_command line) a

  -- The scan ends at the end of the lines.
  unfoldable pub end_scan : Phase → List Bytes → Session Topic S → Session Topic S
  end_scan starting lines a = a
  end_scan stopped lines a = a
  end_scan running [] a = close_device a
  end_scan running (line ∷ rest) a = a

  -- The subscriber of the incoming topic gets a message.
  abbrev pub handle_next : Option (Message × Topic) → Session Topic S → Result (Session Topic S)
  handle_next none a = ok a
  handle_next (some (msg, rest)) a = do
    done ← handle_command json handlers msg a.state
    ok (record a { incoming = rest; outgoing = publish_all bus done.0 a.outgoing; state = done.1 })

  -- The subscriber of the outgoing topic gets a message.
  abbrev pub write_next : Option (Message × Topic) → Session Topic S → Session Topic S
  write_next none a = a
  write_next (some (msg, rest)) a = record a {
    outgoing = rest;
    device = write_outgoing json a.device msg;
  }

  unfoldable pub step : Move → Session Topic S → Result (Session Topic S)
  unfolding scan end_scan handle_command write_outgoing kernel_messages publish_all
  step opens a = ok (open_device a.phase a)
  step scans a = ok (scan a.phase a.lines a)
  step ends a = ok (end_scan a.phase a.lines a)
  step handles a = handle_next (deliver a.incoming) a
  step writes a = ok (write_next (deliver a.outgoing) a)
  step (tells event) a = ok (record a {
    outgoing =
        publish_all bus (kernel_messages json formats slice_stable trust_domain event) a.outgoing;
  })

  unfoldable pub run : List Move → Session Topic S → Result (Session Topic S)
  unfolding step
  run [] a = ok a
  run (move ∷ moves) a = do b ← step move a; run moves b
