-- ===== src/Files/Samples.antt =====
-- A watched file, for the examples: it is removed, written and removed again.
use camblet.Base.{◌≡◌, refl, true, false, List, [], ◌∷◌, ◌++◌, none}
use camblet.Base.Fallible.{Fallible, value, fails}
use camblet.Files.{Bytes, Os, list_files, load, read_all, existing_paths}
use camblet.Files.Watch.{WatchEvent, changed, watch_error, context_done, Watcher}
use camblet.Files.Watch.Latest.{IsQuiet}

-- A system where each file is read with the same result.
abbrev pub reading : Fallible Bytes → Os
reading content = record {
  lstat = λ path. value false;
  is_not_exist = λ e. true;
  read_dir = λ path. fails "not a directory";
  read_file = λ path. content;
  join = λ dir name. name;
}

abbrev pub watcher : Watcher
watcher = record { created = none; add = λ path. none }

abbrev pub removed : Os
removed = reading (fails "no such file")

abbrev pub later : Os
later = reading (value (1 ∷ 2 ∷ []))

abbrev pub before : List WatchEvent
before = changed removed ∷ watch_error ∷ []

abbrev pub after : List WatchEvent
after = changed removed ∷ context_done ∷ changed (reading (value (9 ∷ []))) ∷ []

abbrev pub at_start : Os
at_start = reading (value (7 ∷ []))

abbrev pub events : List WatchEvent
events = before ++ changed later ∷ after

pub loaded_later :
    load later (existing_paths at_start ("a.yaml" ∷ [])) ≡ value (("a.yaml", 1 ∷ 2 ∷ []) ∷ [])
unfolding load list_files read_all existing_paths
loaded_later = refl

pub after-IsQuiet : IsQuiet (existing_paths at_start ("a.yaml" ∷ [])) after
unfolding IsQuiet load list_files read_all existing_paths
after-IsQuiet = ("could not read file: no such file", refl, tt)
