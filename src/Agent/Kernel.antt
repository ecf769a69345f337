-- ===== src/Agent/Kernel.antt =====
-- The commands that the agent sends to the kernel module: the subscriptions of `run` in
-- internal/cli/cmd/agent/agent.go.
pub mod Loads
pub mod Updates
mod Tests
use camblet.Base.{Bool, false, List, [], ◌∷◌, map, String}
use camblet.Base.Fallible.{Fallible, value, fails}
use camblet.Agent.Messenger.{Bytes, Message, Command, Json, new_command, data_or_nil}
use camblet.Agent.Commands.Augment.{no_context}
use camblet.Agent.Trace.{TraceRequest, TraceAction}
use camblet.Service.Convert.{Services}
use camblet.Policy.Types.{Policy, Policies}
use camblet.Policy.Organize.{organize}

-- What a subscription of the agent reacts to.
pub data KernelEvent : Type 0 where
  messenger_started : KernelEvent
  trace_requested : TraceRequest → TraceAction → KernelEvent
  services_loaded : Services → KernelEvent
  policies_loaded : Policies → KernelEvent

-- What the subscriptions take from encoding/json: of the configuration of the module, which has
-- the trust domain, of a trace request, and of what the loaders hand over.
pub record KernelFormats : Type 0 where
  pub config : String → Fallible Bytes
  pub trace_message : TraceRequest → TraceAction → Fallible String
  pub services : Services → Fallible Bytes
  pub policies : Policies → Fallible Bytes

abbrev pub kernel_command : String → Command
kernel_command name = record {
  context = no_context;
  id = "";
  command = name;
  name = "";
  code = [];
  entrypoint = "";
  content = "";
  is_message = false;
}

module _ (json : Json) (formats : KernelFormats)
    (slice_stable : (Policy → Policy → Bool) → List Policy → List Policy)
    (trust_domain : String) where
  abbrev pub with_code : String → Fallible Bytes → List Command
  with_code name (fails e) = []
  with_code name (value j) = record (kernel_command name) { code = j } ∷ []

  abbrev pub with_content : String → Fallible String → List Command
  with_content name (fails e) = []
  with_content name (value j) = record (kernel_command name) { content = j } ∷ []

  -- The subscriptions; a value that has no JSON is only logged, but for the policies, which are
  -- sent without code then.
  unfoldable pub kernel_commands : KernelEvent → List Command
  unfolding organize
  kernel_commands messenger_started = with_code "load_config" (formats.config trust_domain)
  kernel_commands (trace_requested req action) =
      with_content "manage_trace_requests" (formats.trace_message req action)
  kernel_commands (services_loaded services) = with_code "load_sd_info" (formats.services services)
  kernel_commands (policies_loaded loaded) =
      record (kernel_command "load_policies") {
        code = data_or_nil json (formats.policies (organize slice_stable loaded));
      }
      ∷ []

  -- The messages that are published for an event.
  unfoldable pub kernel_messages : KernelEvent → List Message
  unfolding kernel_commands new_command
  kernel_messages event = map (new_command json) (kernel_commands event)
