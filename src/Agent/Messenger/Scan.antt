-- ===== src/Agent/Messenger/Scan.antt =====
-- The messages that the scan of the device publishes.
use camblet.Base.{◌≡◌, refl, ap, List, [], ◌∷◌, ◌++◌, All, map, Option, none, some}
use camblet.Base.Result.{Error}
use camblet.Base.Fallible.{Fallible, value, fails}
use camblet.Agent.Messenger.{
  Bytes, Message, command_message_type, Command, Json, get_command, scan_lines,
}

abbrev pub IsCommand : Json → Message → Type 0
IsCommand json msg = (cmd : Command) × (get_command json msg ≡ value cmd)

abbrev pub message : Bytes → Message
message line = record { type = command_message_type; content = line }

-- What ends the scan: the end of the lines, or one that is no command.
abbrev pub EndsAt : Json → List Bytes → Option Error → Type 0
EndsAt json [] e = e ≡ none
EndsAt json (line ∷ lines) e = (m : Error) × (json.unmarshal_command line ≡ fails m) × (e ≡ some m)

-- The scanner publishes one message for each line before the first that is no command, in their
-- order; each of the messages is decoded to a command by the subscriber; and the scan ends
-- without an error at the end of the lines, or with that of the line that is no command.
pub scan_lines-IsCommand :
    (json : Json) (lines : List Bytes)
    → (before after : List Bytes) × (lines ≡ before ++ after)
      × ((scan_lines json lines).0 ≡ map message before)
      × All (IsCommand json) (map message before)
      × EndsAt json after (scan_lines json lines).1
unfolding scan_lines get_command
scan_lines-IsCommand json [] = ([], [], refl, refl, tt, refl)
scan_lines-IsCommand json (line ∷ lines) =
    go (json.unmarshal_command line) refl (scan_lines-IsCommand json lines)
  where
    go :
        (decoded : Fallible Command)
        → json.unmarshal_command line ≡ decoded
        → ((before after : List Bytes) × (lines ≡ before ++ after)
            × ((scan_lines json lines).0 ≡ map message before)
            × All (IsCommand json) (map message before)
            × EndsAt json after (scan_lines json lines).1)
        → (before after : List Bytes) × (line ∷ lines ≡ before ++ after)
          × ((scan_lines json (line ∷ lines)).0 ≡ map message before)
          × All (IsCommand json) (map message before)
          × EndsAt json after (scan_lines json (line ∷ lines)).1
    go (fails m) e rest =
        ([], line ∷ lines, refl, rw (e, scan_lines) refl, tt, (m, e, rw (e, scan_lines) refl))
    go (value cmd) e (before, after, split, published, all, ends) = (
      line ∷ before,
      after,
      ap (λ ls. line ∷ ls) split,
      rw (e, scan_lines) (ap (λ ms. message line ∷ ms) published),
      ((cmd, e), all),
      rw (e, scan_lines) ends,
    )
