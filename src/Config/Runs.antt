-- ===== src/Config/Runs.antt =====
-- The start command at concrete flags.
use gonet.Prelude.{
  ℕ, ◌≤◌, ◌≡◌, refl, ap, Option, none, some, List, [], ◌∷◌, arith, length, All, ok, err,
}
use gonet.Ip.Fragment.{fragment}
use gonet.Ip.Fragment.Example.{packet_header, packet, parsed}
use gonet.Prelude.Integers.{ℤ, pos, negsuc}
use gonet.Config.{
  below, above, Config, invalid_mtu, is_bad_ip, is_level, defaults, validate, Flags, override,
  changed, checked, invalid_configuration, start,
}
use gonet.Config.Load.{
  FileSystem, read_data, json_ext, run_start, load, load_file, decode, unmarshalled,
}
use gonet.Config.Precedence.{
  Document, empty_document, overlay, Overlays, as_json, chosen, Starts, run_start-chosen,
}
use gonet.Config.Mtu.{IsSized, start-fragment}

abbrev no_ip : List ℕ → Option (List ℕ)
no_ip s = none

abbrev as_is : List ℕ → List ℕ
as_is s = s

abbrev with_mtu : ℤ → Flags
with_mtu mtu = record {
  mode = none;
  device = none;
  ip = none;
  peer = none;
  mtu = some mtu;
  log_level = none;
}

abbrev small : Config
unfolding defaults
small = record defaults { mtu = pos 576 }

started : start {E = ℕ} no_ip as_is (ok defaults) (with_mtu (pos 576)) ≡ ok small
unfolding start checked override changed validate below above is_bad_ip is_level defaults
started = refl

refused :
    start {E = ℕ} no_ip as_is (ok defaults) (with_mtu (negsuc 0))
    ≡ err (invalid_configuration invalid_mtu)
unfolding start checked override changed validate below above is_bad_ip is_level defaults
refused = refl

start-fragment_example :
    (mtu : ℕ) × (buf_size : ℕ) × (packets : List (List ℕ)) × IsSized small mtu buf_size
    × (fragment packet mtu ≡ ok packets)
    × All (λ p. length p ≤ mtu) packets
start-fragment_example =
    start-fragment no_ip as_is (ok defaults) (with_mtu (pos 576)) small packet packet_header started
      (omega arith) parsed (omega arith) refl (omega arith)

-- A file system with one file, "c.json", that sets the MTU and the name of the device.
abbrev stored : Document
stored = record empty_document { mtu = some (pos 1400); device_name = some (116 ∷ []) }

abbrev read_stored : List ℕ → Option Document
read_stored content = some stored

abbrev files : FileSystem ℕ
files = record {
  read_file = λ path. read_data (123 ∷ 125 ∷ []);
  ext = λ path. json_ext;
  unmarshal_json = λ content c. (overlay stored c, none);
  unmarshal_yaml = λ content c. (overlay stored c, none);
}

stored_only : (doc : Document) → some stored ≡ some doc → stored ≡ doc
stored_only doc e = cc e

stored-Overlays : Overlays {E = ℕ} (λ content c. (overlay stored c, none)) read_stored
stored-Overlays content doc c e = ap (λ d. (overlay d c, none)) (stored_only doc e)

abbrev path : List ℕ
path = 99 ∷ 46 ∷ 106 ∷ 115 ∷ 111 ∷ 110 ∷ []

run_start-chosen_example :
    Starts no_ip as_is
      (chosen (with_mtu (pos 576)) stored)
      (run_start files no_ip as_is path (with_mtu (pos 576)))
run_start-chosen_example =
    run_start-chosen files no_ip as_is read_stored read_stored path stored (with_mtu (pos 576))
      stored-Overlays stored-Overlays (as_json (123 ∷ 125 ∷ []) stored refl refl refl)

-- The flag stands over the file, and the file over the defaults.
run_start_run :
    run_start files no_ip as_is path (with_mtu (pos 576))
    ≡ ok (record defaults { mtu = pos 576; device_name = 116 ∷ [] })
unfolding run_start load load_file decode unmarshalled start checked override changed validate below
    above is_bad_ip is_level defaults
run_start_run = refl
