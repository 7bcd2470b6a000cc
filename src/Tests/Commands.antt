-- ===== src/Tests/Commands.antt =====
-- The commands of the server at concrete values.
use carplay_poc.Base.{Option, some, none, List, ◌≡◌, ℕ, refl, if◌then◌else◌}
use carplay_poc.Handshake.{codes}
use carplay_poc.Session.{same_text}
use carplay_poc.Streamer.Commands.{
  crashed, answered, version_text, process_command, perform, run_found, dispatch, on_cmd,
  find_command,
}

-- An object with the item "cmd" alone, which is a text: either is given by that text.
abbrev cmd_item : List ℕ → List ℕ → Option (List ℕ)
cmd_item object key = if same_text key (codes "cmd") then some object else none

abbrev parsed : List ℕ → Option (List ℕ)
parsed msg = some msg

version_is_answered :
    process_command cmd_item some parsed none (codes "get_version") ≡ answered version_text
unfolding process_command on_cmd dispatch run_found find_command perform
version_is_answered = refl

ircut_without_param : process_command cmd_item some parsed none (codes "ircut") ≡ crashed
unfolding process_command on_cmd dispatch run_found find_command perform
ircut_without_param = refl
