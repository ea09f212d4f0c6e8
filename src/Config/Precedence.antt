-- ===== src/Config/Precedence.antt =====
-- What the start command starts with: the flags over the file over the defaults.
use gonet.Prelude.{
  ℕ, ◌≡◌, refl, sym, ap, ◌⊎◌, inl, inr, Bool, true, false, Option, none, some, List, [], ◌∷◌,
  Result, ok, err,
}
use mathlib.Core.Path.{subst}
use gonet.Prelude.Integers.{ℤ, pos}
use gonet.Config.{
  Config, ConfigError, mode_tun, info_level, defaults, validate, Flags, changed, override,
  StartError, invalid_configuration, checked,
}
use gonet.Config.Load.{
  LoadError, read_data, no_file, FileSystem, json_ext, yaml_ext, yml_ext, unmarshalled, decode,
  load_file, load, run_start,
}
use gonet.Config.Accepted.{IsAcceptable, Blames, validate_cases}

abbrev pub pick : {A : Type 0} → Option A → A → A
pick none old = old
pick (some new) old = new

-- The fields that a document has.
pub record Document : Type 0 where
  pub mode : Option (List ℕ)
  pub device_name : Option (List ℕ)
  pub device_ip : Option (List ℕ)
  pub peer_ip : Option (List ℕ)
  pub mtu : Option ℤ
  pub log_level : Option (List ℕ)
  pub log_pretty : Option Bool
  pub buf_size : Option ℤ
  pub ipv6 : Option Bool
  pub mptcp : Option Bool
  pub ecn : Option Bool
  pub timestamps : Option Bool

-- The fields of a document, those of its `extensions` included, over a configuration.
abbrev pub overlay : Document → Config → Config
overlay doc c = record {
  mode = pick doc.mode c.mode;
  device_name = pick doc.device_name c.device_name;
  device_ip = pick doc.device_ip c.device_ip;
  peer_ip = pick doc.peer_ip c.peer_ip;
  mtu = pick doc.mtu c.mtu;
  log_level = pick doc.log_level c.log_level;
  log_pretty = pick doc.log_pretty c.log_pretty;
  buf_size = pick doc.buf_size c.buf_size;
  extensions = record {
    ipv6 = pick doc.ipv6 c.extensions.ipv6;
    mptcp = pick doc.mptcp c.extensions.mptcp;
    ecn = pick doc.ecn c.extensions.ecn;
    timestamps = pick doc.timestamps c.extensions.timestamps;
  };
}

abbrev pub empty_document : Document
empty_document = record {
  mode = none;
  device_name = none;
  device_ip = none;
  peer_ip = none;
  mtu = none;
  log_level = none;
  log_pretty = none;
  buf_size = none;
  ipv6 = none;
  mptcp = none;
  ecn = none;
  timestamps = none;
}

-- A decoder writes the fields of a document that it reads, and no others, those of a nested object
-- one by one, as `encoding/json` and `yaml` document it.
abbrev pub Overlays :
    {E : Type 0} → (List ℕ → Config → Config × Option E) → (List ℕ → Option Document) → Type 0
Overlays unmarshal read_document =
    (content : List ℕ) (doc : Document) (c : Config)
    → read_document content ≡ some doc
    → unmarshal content c ≡ (overlay doc c, none)

module _ {E : Type 0} (fs : FileSystem E) (to_lower : List ℕ → List ℕ)
    (json yaml : List ℕ → Option Document) where
  -- The document behind a path: there is none to read, or the file holds one in the format of its
  -- extension, in letters of either case.
  pub data Provides : List ℕ → Document → Type 0 where
    no_path : Provides [] empty_document
    missing :
        {c : ℕ} {path : List ℕ}
        → fs.read_file (c ∷ path) ≡ no_file
        → Provides (c ∷ path) empty_document
    as_json :
        {c : ℕ} {path : List ℕ} (content : List ℕ) (doc : Document)
        → fs.read_file (c ∷ path) ≡ read_data content
        → to_lower (fs.ext (c ∷ path)) ≡ json_ext
        → json content ≡ some doc
        → Provides (c ∷ path) doc
    as_yaml :
        {c : ℕ} {path : List ℕ} (content : List ℕ) (doc : Document)
        → fs.read_file (c ∷ path) ≡ read_data content
        → (to_lower (fs.ext (c ∷ path)) ≡ yaml_ext) ⊎ (to_lower (fs.ext (c ∷ path)) ≡ yml_ext)
        → yaml content ≡ some doc
        → Provides (c ∷ path) doc

  module _ (json_law : Overlays fs.unmarshal_json json)
      (yaml_law : Overlays fs.unmarshal_yaml yaml) where
    load-Provides :
        (path : List ℕ) (doc : Document)
        → Provides path doc
        → load fs to_lower path ≡ ok (overlay doc defaults)
    unfolding load load_file decode unmarshalled
    load-Provides _ _ no_path = refl
    load-Provides _ _ (missing e) = rw e refl
    load-Provides _ _ (as_json content doc e x d) = rw (e, x, json_law content doc defaults d) refl
    load-Provides _ _ (as_yaml content doc e (inl x) d) =
        rw (e, x, yaml_law content doc defaults d) refl
    load-Provides _ _ (as_yaml content doc e (inr x) d) =
        rw (e, x, yaml_law content doc defaults d) refl

-- The configuration that is to be started with, field by field: the flag, else the field of the
-- document, else the default.
abbrev pub chosen : Flags → Document → Config
chosen flags doc = record {
  mode = pick flags.mode (pick doc.mode mode_tun);
  device_name = pick flags.device (pick doc.device_name (103 ∷ 111 ∷ 110 ∷ 101 ∷ 116 ∷ 48 ∷ []));
  device_ip = pick flags.ip (pick doc.device_ip []);
  peer_ip = pick flags.peer (pick doc.peer_ip []);
  mtu = pick flags.mtu (pick doc.mtu (pos 1500));
  log_level = pick flags.log_level (pick doc.log_level info_level);
  log_pretty = pick doc.log_pretty true;
  buf_size = pick doc.buf_size (pos 65535);
  extensions = record {
    ipv6 = pick doc.ipv6 false;
    mptcp = pick doc.mptcp false;
    ecn = pick doc.ecn false;
    timestamps = pick doc.timestamps false;
  };
}

changed-pick : {A : Type 0} (new : Option A) (old : A) → changed new old ≡ pick new old
unfolding changed
changed-pick none old = refl
changed-pick (some new) old = refl

override-chosen :
    (flags : Flags) (doc : Document) → override flags (overlay doc defaults) ≡ chosen flags doc
unfolding override defaults
override-chosen flags doc = λ i. record (chosen flags doc) {
  mode = changed-pick flags.mode (pick doc.mode mode_tun) i;
  device_name =
      changed-pick flags.device (pick doc.device_name (103 ∷ 111 ∷ 110 ∷ 101 ∷ 116 ∷ 48 ∷ [])) i;
  device_ip = changed-pick flags.ip (pick doc.device_ip []) i;
  peer_ip = changed-pick flags.peer (pick doc.peer_ip []) i;
  mtu = changed-pick flags.mtu (pick doc.mtu (pos 1500)) i;
  log_level = changed-pick flags.log_level (pick doc.log_level info_level) i;
}

-- The command starts with `c`, or fails with an error that names a field of `c` that is not
-- acceptable.
abbrev pub Starts :
    {E : Type 0}
    → (List ℕ → Option (List ℕ))
    → (List ℕ → List ℕ)
    → Config
    → Result (StartError E) Config
    → Type 0
Starts parse_ip to_lower c r =
    IsAcceptable parse_ip to_lower c × (r ≡ ok c)
    ⊎ ((e : ConfigError) × Blames parse_ip to_lower e c × (r ≡ err (invalid_configuration e)))

checked-Starts :
    {E : Type 0} (parse_ip : List ℕ → Option (List ℕ)) (to_lower : List ℕ → List ℕ) (c : Config)
    → Starts {E = E} parse_ip to_lower c (checked c (validate parse_ip to_lower c))
unfolding checked
checked-Starts parse_ip to_lower c = elim (validate_cases parse_ip to_lower c) [
  | inl (good, e) ↦ inl (good, ap (checked c) e)
  | inr (x, blamed, e) ↦ inr (x, blamed, ap (checked c) e)
]

-- The start command, from a path with a document behind it, JSON or YAML by the extension, or with
-- no document because the path is empty or the file is missing, and with decoders that write the
-- fields of the document only. Field by field the flag stands over the document and the document
-- over the default. The command starts with exactly that configuration if its mode is "tun" or
-- "raw", its MTU from 576 to 65535, its addresses empty or readable, its log level known and its
-- buffer size above 0; else it fails with an error that names a field for which this does not hold.
pub run_start-chosen :
    {E : Type 0} (fs : FileSystem E) (parse_ip : List ℕ → Option (List ℕ))
    (to_lower : List ℕ → List ℕ) (json yaml : List ℕ → Option Document) (path : List ℕ)
    (doc : Document) (flags : Flags)
    → Overlays fs.unmarshal_json json
    → Overlays fs.unmarshal_yaml yaml
    → Provides fs to_lower json yaml path doc
    → Starts parse_ip to_lower (chosen flags doc) (run_start fs parse_ip to_lower path flags)
unfolding run_start
run_start-chosen {E = E} fs parse_ip to_lower json yaml path doc flags json_law yaml_law provided =
    rw (load-Provides fs to_lower json yaml json_law yaml_law path doc provided) (
      subst
        (λ c.
          Starts {E = LoadError E} parse_ip to_lower (chosen flags doc)
            (checked c (validate parse_ip to_lower c)))
        (sym (override-chosen flags doc)) (checked-Starts parse_ip to_lower (chosen flags doc)))
