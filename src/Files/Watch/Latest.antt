-- ===== src/Files/Watch/Latest.antt =====
-- What the handler of the watched files has in the end.
use camblet.Base.{
  ◌≡◌, refl, sym, ap, ◌∙◌, List, [], ◌∷◌, ◌++◌, append_assoc, All, Option, none, some, String,
}
use camblet.Base.Assoc.{Assoc}
use camblet.Base.Fallible.{Fallible, value, fails}
use camblet.Base.Result.{Error}
use camblet.Files.{Bytes, Os, load, list_files}
use camblet.Files.Contents.{HasContent, load-HasContent}
use camblet.Files.Watch.{
  WatchEvent, context_done, watch_error, changed, Watcher, handed, watch, start_watching,
  loop_or_end, run_from, with_first, run,
}

-- The loop goes on behind the event.
abbrev pub GoesOn : WatchEvent → Type 0
GoesOn context_done = ⊥
GoesOn watch_error = Unit
GoesOn (changed os) = Unit

module _ (paths : List String) where
  -- Until the loop ends, the files cannot be loaded at any change.
  unfoldable pub IsQuiet : List WatchEvent → Type 0
  IsQuiet [] = Unit
  IsQuiet (context_done ∷ events) = Unit
  IsQuiet (watch_error ∷ events) = IsQuiet events
  IsQuiet (changed os ∷ events) = (e : Error) × (load os paths ≡ fails e) × IsQuiet events

  watch-quiet : (events : List WatchEvent) → IsQuiet events → watch paths events ≡ []
  unfolding watch IsQuiet
  watch-quiet [] quiet = refl
  watch-quiet (context_done ∷ events) quiet = refl
  watch-quiet (watch_error ∷ events) quiet = watch-quiet events quiet
  watch-quiet (changed os ∷ events) (e, h, quiet) = rw (h, watch-quiet events quiet) refl

  watch-append :
      (before after : List WatchEvent)
      → All GoesOn before
      → watch paths (before ++ after) ≡ watch paths before ++ watch paths after
  unfolding watch
  watch-append [] after all = refl
  watch-append (context_done ∷ before) after all = absurd all.0
  watch-append (watch_error ∷ before) after all = watch-append before after all.1
  watch-append (changed os ∷ before) after all =
      ap (λ m. handed (load os paths) ++ m) (watch-append before after all.1)
      ∙ sym (append_assoc (handed (load os paths)) (watch paths before) (watch paths after))

  ends :
      (before after : List WatchEvent) (os : Os) (contents : Assoc Bytes)
      → All GoesOn before
      → IsQuiet after
      → load os paths ≡ value contents
      → watch paths (before ++ changed os ∷ after) ≡ watch paths before ++ contents ∷ []
  unfolding watch
  ends before after os contents on quiet h =
      watch-append before (changed os ∷ after) on ∙ rw (h, watch-quiet after quiet) refl

  started-none :
      (started : Option Error) (events : List WatchEvent) (contents : Assoc Bytes)
      (all : List (Assoc Bytes))
      → with_first contents (loop_or_end paths started events) ≡ (all, none)
      → all ≡ contents ∷ watch paths events
  started-none none events contents all h = sym (ap (λ r. r.0) h)
  started-none (some e) events contents all h = cc

  -- What `run` hands over if it returns no error: the contents at the start, and those of the loop
  run_from-none :
      (os : Os) (watcher : Watcher) (events : List WatchEvent) (loaded : Fallible (Assoc Bytes))
      (all : List (Assoc Bytes))
      → run_from os watcher paths events loaded ≡ (all, none)
      → (contents : Assoc Bytes) × (all ≡ contents ∷ watch paths events)
  run_from-none os watcher events (fails e) all h = cc
  run_from-none os watcher events (value contents) all h =
      (contents, started-none (start_watching os watcher paths) events contents all h)

  -- If `Run` returns no error, the loop goes on up to a change, and after the change the files
  -- cannot be loaded again before the loop ends: when the files can be loaded at the change, the
  -- contents that are handed over last hold, for each file listed then, what was read of it then.
  pub run-IsLatest :
      (os : Os) (watcher : Watcher) (before after : List WatchEvent) (at : Os)
      (contents : Assoc Bytes) (all : List (Assoc Bytes))
      → run os watcher paths (before ++ changed at ∷ after) ≡ (all, none)
      → All GoesOn before
      → IsQuiet after
      → load at paths ≡ value contents
      → (earlier : List (Assoc Bytes)) × (all ≡ earlier ++ contents ∷ [])
        × (files : List String) × (list_files at paths ≡ value files)
        × All (HasContent at contents) files
  unfolding run
  run-IsLatest os watcher before after at contents all h on quiet loads =
      let (first, handed_all) =
        run_from-none os watcher (before ++ changed at ∷ after) (load os paths) all h in
      let (files, listed, have) = load-HasContent at paths contents loads in
      (
        first ∷ watch paths before,
        handed_all ∙ ap (λ m. first ∷ m) (ends before after at contents on quiet loads),
        files,
        listed,
        have,
      )
