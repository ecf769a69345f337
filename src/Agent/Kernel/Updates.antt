-- ===== src/Agent/Kernel/Updates.antt =====
-- What the kernel module is told in the end of the policies and services, whatever happens to their
-- files: of the loaders of internal/cli/cmd/agent/agent.go.
use mathlib.Core.List.{Perm}
use camblet.Base.{
  ◌≡◌, refl, sym, ap, ◌∙◌, Bool, List, [], ◌∷◌, ◌++◌, append_assoc, append-nil, All, Option, none,
  some, String,
}
use camblet.Base.Assoc.{Assoc, lookup}
use camblet.Base.Fallible.{value}
use camblet.Files.{Bytes, Os, existing_paths, load}
use camblet.Files.Watch.{WatchEvent, changed, Watcher}
use camblet.Files.Watch.{run as watch_files}
use camblet.Files.Watch.Latest.{GoesOn, IsQuiet, run-IsLatest}
use camblet.Agent.Messenger.{Message, Json, new_command, data_or_nil}
use camblet.Agent.Kernel.{
  KernelEvent, services_loaded, policies_loaded, KernelFormats, kernel_command, kernel_messages,
  kernel_commands,
}
use camblet.Agent.Kernel.Loads.{
  Loaders, tell_all, template_func, policies_from, load_policies, services_from, load_services,
}
use camblet.Service.Convert.{Services}
use camblet.Service.Convert.Merged.{gather}
use camblet.Service.Loader.{run as services_of}
use camblet.Service.Loader.Gathered.{file_pairs, run-gathers}
use camblet.Policy.Types.{RawPolicy, Policy, Policies, of_list}
use camblet.Policy.Organize.{less, organize}
use camblet.Policy.Organize.Numbered.{NumberedFrom, organize-NumberedFrom}
use camblet.Policy.Loader.{of_raw_list}
use camblet.Policy.Loader.{run as policies_of}
use camblet.Policy.Convert.Total.{AreConverted}
use camblet.Policy.Loader.Valid.{Reads, run-Reads}

module _ (json : Json) (kernel_formats : KernelFormats)
    (slice_stable : (Policy → Policy → Bool) → List Policy → List Policy)
    (trust_domain : String) where
  abbrev messages_of : KernelEvent → List Message
  messages_of = kernel_messages json kernel_formats slice_stable trust_domain

  abbrev all_told : (Assoc Bytes → Option KernelEvent) → List (Assoc Bytes) → Option (List Message)
  all_told = tell_all json kernel_formats slice_stable trust_domain

  -- If the handler of a loader never panics, its messages on the last contents come last.
  tell_all-last :
      (event_of : Assoc Bytes → Option KernelEvent)
      → ((contents : Assoc Bytes) → (event : KernelEvent) × (event_of contents ≡ some event))
      → (earlier : List (Assoc Bytes)) (contents : Assoc Bytes) (event : KernelEvent)
      → event_of contents ≡ some event
      → (sent : List Message) × (all_told event_of (earlier ++ contents ∷ [])
          ≡ some (sent ++ messages_of event))
  unfolding tell_all
  tell_all-last event_of total [] contents event h =
      ([], rw h (ap some (append-nil (messages_of event))))
  tell_all-last event_of total (first ∷ earlier) contents event h =
      let (event', e) = total first in
      let (sent, told) = tell_all-last event_of total earlier contents event h in
      (
        messages_of event' ++ sent,
        rw (e, told) (ap some (sym (append_assoc (messages_of event') sent (messages_of event)))),
      )

  -- The messages of a loader that watches its paths, at the last contents that could be loaded.
  watched-last :
      (event_of : Assoc Bytes → Option KernelEvent)
      → ((contents : Assoc Bytes) → (event : KernelEvent) × (event_of contents ≡ some event))
      → (os : Os) (watcher : Watcher) (paths : List String) (before after : List WatchEvent)
        (at : Os) (contents : Assoc Bytes) (event : KernelEvent)
      → (watch_files os watcher paths (before ++ changed at ∷ after)).1 ≡ none
      → All GoesOn before
      → IsQuiet paths after
      → load at paths ≡ value contents
      → event_of contents ≡ some event
      → (sent : List Message) × (all_told event_of
            (watch_files os watcher paths (before ++ changed at ∷ after)).0
          ≡ some (sent ++ messages_of event))
  watched-last event_of total os watcher paths before after at contents event free on quiet loads
        h =
      let ran = watch_files os watcher paths (before ++ changed at ∷ after) in
      let (earlier, all_is, files, listed, have) =
        run-IsLatest paths os watcher before after at contents ran.0 (ap (λ e. (ran.0, e)) free) on
          quiet loads in
      let (sent, told) = tell_all-last event_of total earlier contents event h in
      (sent, ap (all_told event_of) all_is ∙ told)

  module _ {Item Template Addr : Type 0} (loaders : Loaders Item Template Addr) where
    open loaders use {
      formats, policy_formats, validate_policy, net, service_formats, validate_service,
    }

    abbrev pub policies_found : Assoc Bytes → Option Policies
    policies_found =
        policies_of formats policy_formats
          (template_func json kernel_formats slice_stable trust_domain loaders)
          (some validate_policy) slice_stable

    -- If the sort permutes and the loader of policies ends with no error: when the files can be
    -- loaded at a change, which the loop reaches and after which they cannot be loaded again
    -- before it ends, the last message for the kernel module is "load_policies" with the
    -- organized form of the conversions of exactly the policies of these files in which the
    -- validator finds no error; and their positions count from 0 at every depth.
    pub load_policies-IsLatest :
        (slice_stable-perm : (l : List Policy) → Perm (slice_stable less l) l) (os : Os)
        (watcher : Watcher) (policies_path : List String) (before after : List WatchEvent) (at : Os)
        (contents : Assoc Bytes)
        → (load_policies json kernel_formats slice_stable trust_domain loaders os watcher
            policies_path
            (before ++ changed at ∷ after)).1
          ≡ none
        → All GoesOn before
        → IsQuiet (existing_paths os policies_path) after
        → load at (existing_paths os policies_path) ≡ value contents
        → (ps : List RawPolicy) × Reads policy_formats
            (some validate_policy)
            formats
            (template_func json kernel_formats slice_stable trust_domain loaders)
            contents
            ps
          × (found : List Policy) × AreConverted formats (of_raw_list ps) (of_list found)
          × (policies_found contents ≡ some (organize slice_stable (of_list found)))
          × NumberedFrom 0 (organize slice_stable (organize slice_stable (of_list found)))
          × (sent : List Message) × ((load_policies json kernel_formats slice_stable trust_domain
                loaders os watcher policies_path
                (before ++ changed at ∷ after)).0
              ≡ some (
                  sent
                  ++ new_command json (record (kernel_command "load_policies") {
                    code = data_or_nil json (
                        kernel_formats.policies
                          (organize slice_stable (organize slice_stable (of_list found))));
                  })
                    ∷ []))
    unfolding load_policies kernel_messages kernel_commands
    load_policies-IsLatest slice_stable-perm os watcher policies_path before after at contents free
          on quiet loads =
        let loads_all =
          run-Reads policy_formats (some validate_policy) formats
            (template_func json kernel_formats slice_stable trust_domain loaders) slice_stable
            slice_stable-perm in
        let total : (c : Assoc Bytes)
            → (event : KernelEvent) × (policies_from json kernel_formats slice_stable trust_domain
                  loaders c
                ≡ some event) =
          λ c.
            let (_, _, of_c, _, e, _) = loads_all c in
            (policies_loaded (organize slice_stable (of_list of_c)), rw e refl) in
        let (ps, reads, found, converted, e, numbered) = loads_all contents in
        let (sent, told) =
          watched-last (policies_from json kernel_formats slice_stable trust_domain loaders) total
            os watcher (existing_paths os policies_path) before after at contents
            (policies_loaded (organize slice_stable (of_list found))) free on quiet loads
            (rw e refl) in
        (
          ps,
          reads,
          found,
          converted,
          e,
          organize-NumberedFrom slice_stable slice_stable-perm
              (organize slice_stable (of_list found)),
          sent,
          told,
        )

    abbrev pub services_found : Assoc Bytes → Services
    services_found = services_of net service_formats (some validate_service) []

    -- If the loader of services ends with no error: when the files can be loaded at a change,
    -- which the loop reaches and after which they cannot be loaded again before it ends, and
    -- their services have a JSON, the last message for the kernel module is "load_sd_info" with
    -- this JSON; and the services have, for an address, the labels of all valid services in these
    -- files that have the address.
    pub load_services-IsLatest :
        (os : Os) (watcher : Watcher) (services_path : List String) (before after : List WatchEvent)
        (at : Os) (contents : Assoc Bytes) (j : Bytes) (address : String)
        → (load_services json kernel_formats slice_stable trust_domain loaders os watcher
            services_path
            (before ++ changed at ∷ after)).1
          ≡ none
        → All GoesOn before
        → IsQuiet (existing_paths os services_path) after
        → load at (existing_paths os services_path) ≡ value contents
        → kernel_formats.services (services_found contents) ≡ value j
        → (sent : List Message) × ((load_services json kernel_formats slice_stable trust_domain
              loaders os watcher services_path
              (before ++ changed at ∷ after)).0
            ≡ some (
                sent
                ++ new_command json (record (kernel_command "load_sd_info") { code = j }) ∷ []))
          × (lookup address (services_found contents)
              ≡ gather address (file_pairs net service_formats (some validate_service) [] contents))
    unfolding load_services kernel_messages kernel_commands
    load_services-IsLatest os watcher services_path before after at contents j address free on quiet
          loads has_json =
        let (sent, told) =
          watched-last (services_from json kernel_formats slice_stable trust_domain loaders)
            (λ c. (services_loaded (services_found c), refl)) os watcher
            (existing_paths os services_path) before after at contents
            (services_loaded (services_found contents)) free on quiet loads refl in
        (
          sent,
          told ∙ rw (has_json, kernel_messages, kernel_commands) refl,
          run-gathers net service_formats (some validate_service) [] contents address,
        )
