-- ===== src/Agent/Kernel/Loads.antt =====
-- The two goroutines of `run` in internal/cli/cmd/agent/agent.go that load the policies and the
-- services and send them to the kernel module.
use camblet.Base.{Bool, List, [], ◌∷◌, ◌++◌, Option, none, some, String}
use camblet.Base.Assoc.{Assoc}
use camblet.Base.Result.{Error}
use camblet.Base.Fallible.{Fallible}
use camblet.Files.{Bytes, Os, existing_paths}
use camblet.Files.Watch.{WatchEvent, Watcher}
use camblet.Files.Watch.{run as watch_files}
use camblet.Agent.Messenger.{Message, Json}
use camblet.Agent.Kernel.{
  KernelEvent, services_loaded, policies_loaded, KernelFormats, kernel_messages,
}
use camblet.Policy.Types.{RawPolicy, Policy, Policies}
use camblet.Policy.Convert.{Formats}
use camblet.Policy.Loader.{PolicyFormats, execute}
use camblet.Policy.Loader.{run as policies_of}
use camblet.Service.Convert.{RawService, Net}
use camblet.Service.Loader.{ServiceFormats}
use camblet.Service.Loader.{run as services_of}

-- What the loaders are given: the libraries, the validators, and how text/template parses a content
-- and renders it for the trust domain.
pub record Loaders (Item Template Addr : Type 0) : Type 0 where
  pub formats : Formats
  pub policy_formats : PolicyFormats Item
  pub parse : Bytes → Fallible Template
  pub render : String → Template → Fallible Bytes
  pub validate_policy : RawPolicy → Option Error
  pub net : Net Addr
  pub service_formats : ServiceFormats Item
  pub validate_service : RawService → Option Error

module _ (json : Json) (kernel_formats : KernelFormats)
    (slice_stable : (Policy → Policy → Bool) → List Policy → List Policy)
    (trust_domain : String) where
  -- What the handler of a loader publishes, if it does not panic
  abbrev pub tell : Option KernelEvent → Option (List Message) → Option (List Message)
  tell none later = none
  tell (some event) none = none
  tell (some event) (some later) =
      some (kernel_messages json kernel_formats slice_stable trust_domain event ++ later)

  -- What is published for the contents that a loader gets, one after the other.
  unfoldable pub tell_all :
      (Assoc Bytes → Option KernelEvent) → List (Assoc Bytes) → Option (List Message)
  unfolding kernel_messages
  tell_all event_of [] = some []
  tell_all event_of (contents ∷ more) = tell (event_of contents) (tell_all event_of more)

  module _ {Item Template Addr : Type 0} (loaders : Loaders Item Template Addr) where
    open loaders use {
      formats, policy_formats, parse, render, validate_policy, net, service_formats,
      validate_service,
    }

    abbrev pub template_func : Option (Bytes → Bytes)
    template_func = some (execute parse (render trust_domain))

    abbrev pub policies_event : Option Policies → Option KernelEvent
    policies_event none = none
    policies_event (some loaded) = some (policies_loaded loaded)

    abbrev pub policies_from : Assoc Bytes → Option KernelEvent
    policies_from contents = policies_event (
        policies_of formats policy_formats template_func (some validate_policy) slice_stable
          contents)

    -- The loader of policies: what is published, if nothing panics, and the error that it sends.
    unfoldable pub load_policies :
        Os → Watcher → List String → List WatchEvent → Option (List Message) × Option Error
    unfolding existing_paths watch_files policies_of execute tell_all
    load_policies os watcher policies_path events =
        let (handed, e) = watch_files os watcher (existing_paths os policies_path) events in
        (tell_all policies_from handed, e)

    abbrev pub services_from : Assoc Bytes → Option KernelEvent
    services_from contents =
        some (services_loaded (services_of net service_formats (some validate_service) [] contents))

    -- The loader of services
    unfoldable pub load_services :
        Os → Watcher → List String → List WatchEvent → Option (List Message) × Option Error
    unfolding existing_paths watch_files services_of tell_all
    load_services os watcher services_path events =
        let (handed, e) = watch_files os watcher (existing_paths os services_path) events in
        (tell_all services_from handed, e)
