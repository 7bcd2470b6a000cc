-- ===== src/Streamer/Requests.antt =====
-- wsh264/app/wsh264.cpp: which messages make the server read a null pointer.
use carplay_poc.Handshake.{codes}
use carplay_poc.Streamer.Commands.{
  Command, switch_ircut, set_fps, start_record, item, app_cmd, find_command,
}
use carplay_poc.Base.{some, ◌⊎◌, Option, List, none, ◌≡◌, ℕ}
use carplay_poc.Transport.{name}

module _ {Json : Type 0} (get_item : Json → List ℕ → Option Json)
    (valuestring : Json → Option (List ℕ)) (config : Option (List ℕ)) where
  abbrev param_of : Option Json → List ℕ → Option Json
  param_of root key = item get_item valuestring (item get_item valuestring root (codes "param")) key

  -- The function of the table needs something in "param" that the message does not have.
  abbrev pub Lacks : Option Json → Command → Type 0
  Lacks root c =
      ((c ≡ switch_ircut) × (param_of root (codes "on") ≡ none))
      ⊎ ((c ≡ set_fps) × (param_of root (codes "isp_fps") ≡ none))
      ⊎ ((c ≡ start_record)
          × ((param_of root (codes "folder") ≡ none)
              ⊎ (param_of root (codes "record_seconds") ≡ none)))

  -- A text `r_cmd->valuestring` with which the server reads a null pointer: none, or the name of a function that needs what the
  -- message does not have.
  abbrev pub IsBad : Option (List ℕ) → Option Json → Type 0
  IsBad text root =
      (text ≡ none)
      ⊎ ((name : List ℕ) × (c : Command) × (text ≡ some name)
          × (find_command name app_cmd ≡ some c)
          × Lacks root c)
