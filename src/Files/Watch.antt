-- ===== src/Files/Watch.antt =====
-- `Run` of pkg/util/file_content_loader.go: the files are loaded at the start, and again at every
-- event of the watcher.
pub mod Latest
use Prim.Native.String.{◌++◌ as concat}
use camblet.Base.{Bool, List, [], ◌∷◌, ◌++◌, Option, none, some, String}
use camblet.Base.Assoc.{Assoc}
use camblet.Base.Result.{Error}
use camblet.Base.Fallible.{Fallible, value, fails}
use camblet.Files.{Bytes, Os, load}

-- What the `select` of the loop gets: the end of the context, an event of the watcher, with what
-- the system answers when the files are loaded again, or an error of the watcher.
pub data WatchEvent : Type 0 where
  context_done watch_error : WatchEvent
  changed : Os → WatchEvent

-- What fsnotify returns: for a new watcher, and for a path that is added.
pub record Watcher : Type 0 where
  pub created : Option Error
  pub add : String → Option Error

-- The handler gets the contents, if they could be loaded; an error is only logged.
abbrev pub handed : Fallible (Assoc Bytes) → List (Assoc Bytes)
handed (value contents) = contents ∷ []
handed (fails e) = []

-- The loop: what the handler gets
unfoldable pub watch : List String → List WatchEvent → List (Assoc Bytes)
unfolding load
watch paths [] = []
watch paths (context_done ∷ events) = []
watch paths (watch_error ∷ events) = watch paths events
watch paths (changed os ∷ events) = handed (load os paths) ++ watch paths events

-- One path: its file info, and what adding it returns, before the others are added.
abbrev pub add_path : Fallible Bool → Option Error → Option Error → Option Error
add_path (fails e) added next = some (concat "could not get file info: " e)
add_path (value is_dir) (some e) next = some (concat "could not add path to watcher: " e)
add_path (value is_dir) none next = next

-- The paths are added to the watcher.
unfoldable pub add_paths : Os → Watcher → List String → Option Error
add_paths os watcher [] = none
add_paths os watcher (path ∷ paths) =
    add_path (os.lstat path) (watcher.add path) (add_paths os watcher paths)

abbrev pub start_watching : Os → Watcher → List String → Option Error
start_watching os watcher paths = elim watcher.created [
  | some e ↦ some (concat "could not get fsnotify watcher: " e)
  | none ↦ add_paths os watcher paths
]

abbrev pub loop_or_end :
    List String → Option Error → List WatchEvent → List (Assoc Bytes) × Option Error
loop_or_end paths (some e) events = ([], some e)
loop_or_end paths none events = (watch paths events, none)

abbrev pub with_first :
    Assoc Bytes → List (Assoc Bytes) × Option Error → List (Assoc Bytes) × Option Error
with_first contents rest = (contents ∷ rest.0, rest.1)

abbrev pub run_from :
    Os
    → Watcher
    → List String
    → List WatchEvent
    → Fallible (Assoc Bytes)
    → List (Assoc Bytes) × Option Error
run_from os watcher paths events (fails e) = ([], some e)
run_from os watcher paths events (value contents) =
    with_first contents (loop_or_end paths (start_watching os watcher paths) events)

-- `Run`, with what the system answers at the start: what the handler gets until the events end,
-- and the error that is returned.
unfoldable pub run :
    Os → Watcher → List String → List WatchEvent → List (Assoc Bytes) × Option Error
unfolding watch add_paths load
run os watcher paths events = run_from os watcher paths events (load os paths)
