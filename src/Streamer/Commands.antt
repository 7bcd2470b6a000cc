-- ===== src/Streamer/Commands.antt =====
-- wsh264/app/wsh264.cpp: the commands that a message can hold. cJSON is a parameter: `get_item` is `cJSON_GetObjectItem` on an
-- object that is there (on a null one it gives null), and `valuestring` what an item's text is, null where it has none. The
-- configuration file is read from the disk, and is the argument `config`; a read that fails ends the program.
use carplay_poc.Handshake.{codes}
use carplay_poc.Base.{Option, [], ◌∷◌, some, List, none, ℕ, if◌then◌else◌}
use carplay_poc.Transport.{name}
use carplay_poc.Session.{same_text}

-- the functions of the table `app_cmd`
pub data Command : Type 0 where
  start_video start_video2 stop_video start_audio stop_audio : Command
  version smart_bitrate store_config fetch_config detect_motion : Command
  switch_ircut set_fps start_record stop_record record_status : Command

-- `app_cmd`
abbrev pub app_cmd : List (List ℕ × Command)
app_cmd =
    (codes "start_stream", start_video)
    ∷ (codes "start_stream2", start_video2)
    ∷ (codes "stop_stream", stop_video)
    ∷ (codes "start_audio_stream", start_audio)
    ∷ (codes "stop_audio_stream", stop_audio)
    ∷ (codes "get_version", version)
    ∷ (codes "set_smartbitrate", smart_bitrate)
    ∷ (codes "set_config", store_config)
    ∷ (codes "get_config", fetch_config)
    ∷ (codes "md", detect_motion)
    ∷ (codes "ircut", switch_ircut)
    ∷ (codes "isp_fps", set_fps)
    ∷ (codes "start_mp4_record", start_record)
    ∷ (codes "stop_mp4_record", stop_record)
    ∷ (codes "mp4_record_status", record_status)
    ∷ []

-- the loop over the table
unfoldable pub find_command : List ℕ → List (List ℕ × Command) → Option Command
find_command name [] = none
find_command name ((known, c) ∷ cs) = if same_text known name then some c else find_command name cs

-- What a message makes the program do: nothing that lasts, a step on the streams, an answer, the end of the program, or a null
-- pointer read.
pub data Effect : Type 0 where
  ignored : Effect
  streams : Command → Effect
  answered : List ℕ → Effect
  exited crashed : Effect

abbrev pub version_text : List ℕ
version_text = codes "{\"type\": \"get_version\", \"result\": { \"value\" : [\"1.0.0\"]}}"

module _ {Json : Type 0} (get_item : Json → List ℕ → Option Json)
    (valuestring : Json → Option (List ℕ)) where
  -- `cJSON_GetObjectItem`
  abbrev pub item : Option Json → List ℕ → Option Json
  item none key = none
  item (some object) key = get_item object key

  -- `x->valueint` or `x->valuestring` on what may be null
  abbrev pub reads : Option Json → Effect → Effect
  reads none e = crashed
  reads (some x) e = e

  -- a function of the table on the message
  unfoldable pub perform : Option (List ℕ) → Command → Option Json → Effect
  perform config start_video root = streams start_video
  perform config start_video2 root = streams start_video2
  perform config stop_video root = streams stop_video
  perform config start_audio root = streams start_audio
  perform config stop_audio root = streams stop_audio
  perform config version root = answered version_text
  perform config smart_bitrate root = ignored
  perform config store_config root = ignored
  perform none fetch_config root = exited
  perform (some text) fetch_config root = answered text
  perform config detect_motion root = ignored
  perform config switch_ircut root = reads (item (item root (codes "param")) (codes "on")) ignored
  perform config set_fps root = reads (item (item root (codes "param")) (codes "isp_fps")) ignored
  perform config start_record root =
      let param = item root (codes "param") in
      reads (item param (codes "folder")) (reads (item param (codes "record_seconds")) ignored)
  perform config stop_record root = ignored
  perform config record_status root = ignored

  -- the function that is found, if any
  unfoldable pub run_found : Option (List ℕ) → Option Command → Option Json → Effect
  run_found config none root = ignored
  run_found config (some c) root = perform config c root

  -- `strcmp (cmd->name, r_cmd->valuestring)` in the loop, and the function that is found
  unfoldable pub dispatch : Option (List ℕ) → Option (List ℕ) → Option Json → Effect
  dispatch config none root = crashed
  dispatch config (some name) root = run_found config (find_command name app_cmd) root

  -- with the item "cmd", if there is one
  unfoldable pub on_cmd : Option (List ℕ) → Option Json → Option Json → Effect
  on_cmd config none root = ignored
  on_cmd config (some r_cmd) root = dispatch config (valuestring r_cmd) root

  -- `process_command`
  unfoldable pub process_command : (List ℕ → Option Json) → Option (List ℕ) → List ℕ → Effect
  process_command parse config msg =
      let root = parse msg in on_cmd config (item root (codes "cmd")) root
