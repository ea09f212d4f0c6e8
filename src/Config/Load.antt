-- ===== src/Config/Load.antt =====
-- `Load` of internal/config/config.go, in front of the start command. The file system,
-- `filepath.Ext` and the decoders of JSON and YAML are arguments; a decoder gets the configuration
-- that it writes into.
use gonet.Prelude.{ℕ, ◌||◌, Option, none, some, List, [], ◌∷◌, if◌then◌else◌, Result, ok, err}
use gonet.Prelude.Net.{same_bytes}
use gonet.Config.{Config, defaults, Flags, StartError, start}

-- `os.ReadFile`: an error for which `os.IsNotExist` holds, or another one.
pub data FileRead (E : Type 0) : Type 0 where
  read_data : List ℕ → FileRead E
  no_file : FileRead E
  unreadable : E → FileRead E

pub data LoadError (E : Type 0) : Type 0 where
  read_failed parse_json_failed parse_yaml_failed : E → LoadError E
  unsupported_extension : List ℕ → LoadError E

pub record FileSystem (E : Type 0) : Type 0 where
  pub read_file : List ℕ → FileRead E
  pub ext : List ℕ → List ℕ
  pub unmarshal_json : List ℕ → Config → Config × Option E
  pub unmarshal_yaml : List ℕ → Config → Config × Option E

-- ".json", ".yaml" and ".yml".
abbrev pub json_ext : List ℕ
json_ext = 46 ∷ 106 ∷ 115 ∷ 111 ∷ 110 ∷ []

abbrev pub yaml_ext : List ℕ
yaml_ext = 46 ∷ 121 ∷ 97 ∷ 109 ∷ 108 ∷ []

abbrev pub yml_ext : List ℕ
yml_ext = 46 ∷ 121 ∷ 109 ∷ 108 ∷ []

module _ {E : Type 0} where
  -- The configuration that a decoder has written into, or its error.
  unfoldable pub unmarshalled : (E → LoadError E) → Config × Option E → Result (LoadError E) Config
  unmarshalled failed (c, none) = ok c
  unmarshalled failed (c, some e) = err (failed e)

  -- By the extension, in lower case.
  unfoldable pub decode : FileSystem E → List ℕ → List ℕ → Result (LoadError E) Config
  unfolding unmarshalled
  decode fs ext content =
      if same_bytes ext json_ext
      then unmarshalled parse_json_failed (fs.unmarshal_json content defaults)
      else if same_bytes ext yaml_ext || same_bytes ext yml_ext
      then unmarshalled parse_yaml_failed (fs.unmarshal_yaml content defaults)
      else err (unsupported_extension ext)

  -- By what `os.ReadFile` returns.
  unfoldable pub load_file : FileSystem E → List ℕ → FileRead E → Result (LoadError E) Config
  unfolding decode
  load_file fs ext (read_data content) = decode fs ext content
  load_file fs ext no_file = ok defaults
  load_file fs ext (unreadable e) = err (read_failed e)

  unfoldable pub load : FileSystem E → (List ℕ → List ℕ) → List ℕ → Result (LoadError E) Config
  unfolding load_file
  load fs to_lower [] = ok defaults
  load fs to_lower (c ∷ path) =
      load_file fs (to_lower (fs.ext (c ∷ path))) (fs.read_file (c ∷ path))

  -- The start command, from the path of its flag on.
  unfoldable pub run_start :
      FileSystem E
      → (List ℕ → Option (List ℕ))
      → (List ℕ → List ℕ)
      → List ℕ
      → Flags
      → Result (StartError (LoadError E)) Config
  unfolding load start
  run_start fs parse_ip to_lower path flags = start parse_ip to_lower (load fs to_lower path) flags
