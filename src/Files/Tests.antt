-- ===== src/Files/Tests.antt =====
-- What is handed over of a watched file, on an example.
use camblet.Base.{◌≡◌, refl, [], ◌∷◌, none}
use camblet.Files.{load, list_files, read_all}
use camblet.Files.Watch.{watch, add_paths, run}
use camblet.Files.Samples.{at_start, watcher, events}

ran :
    run at_start watcher ("a.yaml" ∷ []) events
    ≡ ((("a.yaml", 7 ∷ []) ∷ []) ∷ (("a.yaml", 1 ∷ 2 ∷ []) ∷ []) ∷ [], none)
unfolding run watch add_paths load list_files read_all
ran = refl
