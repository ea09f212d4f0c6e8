-- ===== src/Config.antt =====
-- internal/config/config.go: the configuration, `Defaults` and `Validate`, and the start command of
-- cmd/gonet/main.go that puts the flags over it. A string is a list of bytes. `net.ParseIP` and
-- `strings.ToLower` are arguments; `start` takes the result of `Load`, which Config/Load has.
pub mod Load
pub mod Accepted
pub mod Precedence
pub mod Mtu
mod Runs
use gonet.Prelude.{
  ℕ, Bool, true, false, ◌&&◌, ◌||◌, not, Option, none, some, List, [], ◌∷◌, ltb, if◌then◌else◌,
  Result, ok, err, panic,
}
use gonet.Prelude.Integers.{ℤ, pos, negsuc}
use gonet.Prelude.Net.{same_bytes}

unfoldable pub below : ℤ → ℕ → Bool
below (pos n) bound = ltb n bound
below (negsuc n) bound = true

unfoldable pub above : ℤ → ℕ → Bool
above (pos n) bound = ltb bound n
above (negsuc n) bound = false

pub record Extensions : Type 0 where
  pub ipv6 : Bool
  pub mptcp : Bool
  pub ecn : Bool
  pub timestamps : Bool

pub record Config : Type 0 where
  pub mode : List ℕ
  pub device_name : List ℕ
  pub device_ip : List ℕ
  pub peer_ip : List ℕ
  pub mtu : ℤ
  pub log_level : List ℕ
  pub log_pretty : Bool
  pub buf_size : ℤ
  pub extensions : Extensions

-- "tun" and "raw", "debug", "info", "warn" and "error".
abbrev pub mode_tun : List ℕ
mode_tun = 116 ∷ 117 ∷ 110 ∷ []

abbrev pub mode_raw : List ℕ
mode_raw = 114 ∷ 97 ∷ 119 ∷ []

abbrev pub debug_level : List ℕ
debug_level = 100 ∷ 101 ∷ 98 ∷ 117 ∷ 103 ∷ []

abbrev pub info_level : List ℕ
info_level = 105 ∷ 110 ∷ 102 ∷ 111 ∷ []

abbrev pub warn_level : List ℕ
warn_level = 119 ∷ 97 ∷ 114 ∷ 110 ∷ []

abbrev pub error_level : List ℕ
error_level = 101 ∷ 114 ∷ 114 ∷ 111 ∷ 114 ∷ []

unfoldable pub defaults : Config
defaults = record {
  mode = mode_tun;
  device_name = 103 ∷ 111 ∷ 110 ∷ 101 ∷ 116 ∷ 48 ∷ [];
  device_ip = [];
  peer_ip = [];
  mtu = pos 1500;
  log_level = info_level;
  log_pretty = true;
  buf_size = pos 65535;
  extensions = record { ipv6 = false; mptcp = false; ecn = false; timestamps = false };
}

pub data ConfigError : Type 0 where
  invalid_mode invalid_mtu invalid_device_ip invalid_peer_ip invalid_log_level invalid_buf_size :
      ConfigError

-- `s != "" && net.ParseIP(s) == nil`
unfoldable pub is_bad_ip : (List ℕ → Option (List ℕ)) → List ℕ → Bool
is_bad_ip parse_ip [] = false
is_bad_ip parse_ip (c ∷ s) = elim (parse_ip (c ∷ s)) [ none ↦ true | some ip ↦ false ]

-- The cases of the switch over the log level.
unfoldable pub is_level : List ℕ → Bool
is_level level =
    same_bytes level debug_level
    || (same_bytes level info_level
        || (same_bytes level warn_level || same_bytes level error_level))

module _ (parse_ip : List ℕ → Option (List ℕ)) (to_lower : List ℕ → List ℕ) where
  -- `none` is no error.
  unfoldable pub validate : Config → Option ConfigError
  unfolding below above is_bad_ip is_level
  validate c =
      if not (same_bytes c.mode mode_tun) && not (same_bytes c.mode mode_raw)
      then some invalid_mode
      else if below c.mtu 576 || above c.mtu 65535
      then some invalid_mtu
      else if is_bad_ip parse_ip c.device_ip
      then some invalid_device_ip
      else if is_bad_ip parse_ip c.peer_ip
      then some invalid_peer_ip
      else if not (is_level (to_lower c.log_level))
      then some invalid_log_level
      else if below c.buf_size 1
      then some invalid_buf_size
      else none

-- The flags of the start command: `none` is a flag that is not set.
pub record Flags : Type 0 where
  pub mode : Option (List ℕ)
  pub device : Option (List ℕ)
  pub ip : Option (List ℕ)
  pub peer : Option (List ℕ)
  pub mtu : Option ℤ
  pub log_level : Option (List ℕ)

unfoldable pub changed : {A : Type 0} → Option A → A → A
changed none old = old
changed (some new) old = new

unfoldable pub override : Flags → Config → Config
unfolding changed
override flags cfg = record cfg {
  mode = changed flags.mode cfg.mode;
  device_name = changed flags.device cfg.device_name;
  device_ip = changed flags.ip cfg.device_ip;
  peer_ip = changed flags.peer cfg.peer_ip;
  mtu = changed flags.mtu cfg.mtu;
  log_level = changed flags.log_level cfg.log_level;
}

pub data StartError (E : Type 0) : Type 0 where
  load_failed : E → StartError E
  invalid_configuration : ConfigError → StartError E

unfoldable pub checked : {E : Type 0} → Config → Option ConfigError → Result (StartError E) Config
checked cfg none = ok cfg
checked cfg (some e) = err (invalid_configuration e)

-- The start command, with the result of `config.Load`: the configuration that it starts with.
unfoldable pub start :
    {E : Type 0}
    → (List ℕ → Option (List ℕ))
    → (List ℕ → List ℕ)
    → Result E Config
    → Flags
    → Result (StartError E) Config
unfolding checked
start parse_ip to_lower (err e) flags = err (load_failed e)
start parse_ip to_lower panic flags = panic
start parse_ip to_lower (ok loaded) flags =
    checked (override flags loaded) (validate parse_ip to_lower (override flags loaded))
