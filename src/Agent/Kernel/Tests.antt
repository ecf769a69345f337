-- ===== src/Agent/Kernel/Tests.antt =====
-- What the kernel module is told of a watched file, on examples.
use camblet.Base.{ℕ, ◌≡◌, refl, List, [], ◌∷◌, ◌++◌, some, none, String}
use camblet.Base.Assoc.{Assoc, lookup}
use camblet.Base.Fallible.{value}
use camblet.Files.{Bytes, load, list_files, read_all, existing_paths}
use camblet.Files.Watch.{changed, add_paths}
use camblet.Files.Watch.{run as watch_files}
use camblet.Files.Samples.{at_start, watcher, before, later, after, loaded_later, after-IsQuiet}
use camblet.Agent.Messenger.{Message, new_command, data_or_nil}
use camblet.Agent.Kernel.{KernelFormats, kernel_command}
use camblet.Agent.Kernel.Loads.{Loaders, template_func, load_policies, load_services}
use camblet.Agent.Kernel.Updates.{
  policies_found, services_found, load_policies-IsLatest, load_services-IsLatest,
}
use camblet.Agent.Samples.{json}
use camblet.Policy.Types.{RawPolicy, Policy, of_list}
use camblet.Policy.Organize.{less, insertion_sort, organize}
use camblet.Policy.Organize.Numbered.{NumberedFrom}
use camblet.Policy.Organize.Order.{insertion_sort-perm}
use camblet.Policy.Loader.Valid.{Reads}
use camblet.Policy.Loader.{of_raw_list}
use camblet.Policy.Convert.Total.{AreConverted}
use camblet.Policy.Samples.{formats, parsers}
use camblet.Service.Convert.Merged.{gather}
use camblet.Service.Loader.Gathered.{file_pairs}
use camblet.Service.Samples.{net}

-- An item is a number, which stands for the first service.
abbrev loaders : Loaders ℕ Bytes String
loaders = record {
  formats = formats;
  policy_formats = parsers;
  parse = λ content. value content;
  render = λ trust_domain content. value content;
  validate_policy = λ p. none;
  net = net;
  service_formats = record {
    yaml = λ content. value content;
    service = λ item. value (record {
      labels = ("app", "a") ∷ [];
      addresses = record { address = "h"; port = 80; tags = [] } ∷ [];
    });
  };
  validate_service = λ svc. none;
}

abbrev kernel_formats : KernelFormats
kernel_formats = record {
  config = λ trust_domain. value (7 ∷ []);
  trace_message = λ req action. value "{}";
  services = λ found. value (3 ∷ []);
  policies = λ found. value (4 ∷ []);
}

abbrev contents : Assoc Bytes
contents = ("a.yaml", 1 ∷ 2 ∷ []) ∷ []

policies_free :
    (load_policies json kernel_formats insertion_sort "camblet" loaders at_start watcher
      ("a.yaml" ∷ [])
      (before ++ changed later ∷ after)).1
    ≡ none
unfolding load_policies watch_files load list_files read_all existing_paths add_paths
policies_free = refl

services_free :
    (load_services json kernel_formats insertion_sort "camblet" loaders at_start watcher
      ("a.yaml" ∷ [])
      (before ++ changed later ∷ after)).1
    ≡ none
unfolding load_services watch_files load list_files read_all existing_paths add_paths
services_free = refl

load_policies-IsLatest_example :
    (ps : List RawPolicy) × Reads parsers
      (some (λ p. none))
      formats
      (template_func json kernel_formats insertion_sort "camblet" loaders)
      contents
      ps
    × (found : List Policy) × AreConverted formats (of_raw_list ps) (of_list found)
    × (policies_found json kernel_formats insertion_sort "camblet" loaders contents
        ≡ some (organize insertion_sort (of_list found)))
    × NumberedFrom 0 (organize insertion_sort (organize insertion_sort (of_list found)))
    × (sent : List Message) × ((load_policies json kernel_formats insertion_sort "camblet" loaders
          at_start watcher
          ("a.yaml" ∷ [])
          (before ++ changed later ∷ after)).0
        ≡ some (
            sent
            ++ new_command json (record (kernel_command "load_policies") {
              code = data_or_nil json (value (4 ∷ []));
            })
              ∷ []))
load_policies-IsLatest_example =
    load_policies-IsLatest json kernel_formats insertion_sort "camblet" loaders
      (insertion_sort-perm less) at_start watcher ("a.yaml" ∷ []) before after later contents
      policies_free (tt, (tt, tt)) after-IsQuiet loaded_later

load_services-IsLatest_example :
    (sent : List Message) × ((load_services json kernel_formats insertion_sort "camblet" loaders
        at_start watcher
        ("a.yaml" ∷ [])
        (before ++ changed later ∷ after)).0
      ≡ some (
          sent ++ new_command json (record (kernel_command "load_sd_info") { code = 3 ∷ [] }) ∷ []))
    × (lookup "h:80" (services_found json kernel_formats insertion_sort "camblet" loaders contents)
        ≡ gather "h:80"
            (file_pairs net loaders.service_formats (some loaders.validate_service) [] contents))
load_services-IsLatest_example =
    load_services-IsLatest json kernel_formats insertion_sort "camblet" loaders at_start watcher
      ("a.yaml" ∷ []) before after later contents (3 ∷ []) "h:80" services_free (tt, (tt, tt))
      after-IsQuiet loaded_later refl
