-- ===== src/Tun/Factory/Runs.antt =====
-- `Open` on a small system.
use gonet.Prelude.{
  ℕ, suc, ◌+◌, ◌*◌, ◌/◌, ◌%◌, ◌<◌, ◌≡◌, refl, ◌≢◌, true, false, Option, none, some, List, [], ◌∷◌,
  arith, All, byte_at,
}
use gonet.Prelude.Integers.{pos}
use gonet.Config.{mode_tun}
use gonet.Tun.System.{
  done, tunsetiff, siocgifflags, siocsifflags, siocsifmtu, System, without, HasDescriptors,
}
use gonet.Tun.Factory.{DeviceConfig, open_packet_io}
use gonet.Tun.Factory.Descriptors.{Releases, close_packet_io-open_packet_io}

abbrev total : List ℕ → ℕ
total [] = 0
total (x ∷ xs) = x + total xs

-- The world is the list of the open descriptors; the last step of `OpenTUN` fails.
abbrev small : System (List ℕ) ℕ
small = record {
  open_tun_file = λ w. (suc (total w) ∷ w, done (suc (total w)));
  socket = λ kind w. (suc (total w) ∷ w, done (suc (total w)));
  ioctl = λ fd request ifr w. elim request [
    | siocsifflags ↦ (w, some 1, ifr)
    | tunsetiff ↦ (w, none, ifr)
    | siocgifflags ↦ (w, none, ifr)
    | siocsifmtu ↦ (w, none, ifr)
  ];
  include_header = λ fd w. (w, none);
  bind = λ fd addr w. (w, none);
  close = λ fd w. (without fd w, none);
  is_not_exist = λ e. false;
  is_permission = λ e. true;
  iff_tun = 1;
  iff_no_pi = 4096;
  iff_up = 1;
  iff_running = 64;
  bytes16 = λ n. n % 256 ∷ n / 256 % 256 ∷ [];
  bytes32 = λ n. n % 256 ∷ n / 256 % 256 ∷ n / 65536 % 256 ∷ n / 16777216 % 256 ∷ [];
  number16 = λ bs. byte_at bs 0 + byte_at bs 1 * 256;
}

All-below : (n : ℕ) (xs : List ℕ) → total xs < n → All (λ x. x ≢ n) xs
All-below n [] h = tt
All-below n (x ∷ xs) h = (λ e. omega (arith, e), All-below n xs (omega arith))

small-HasDescriptors : HasDescriptors small (λ w. w)
small-HasDescriptors = record {
  open_tun_file_opens = λ w. (refl, All-below (suc (total w)) w (omega arith));
  socket_opens = λ kind w. (refl, All-below (suc (total w)) w (omega arith));
  ioctl_keeps = λ fd request ifr w. elim request as (λ r. (small.ioctl fd r ifr w).0 ≡ w) [
    | siocsifflags ↦ refl
    | tunsetiff ↦ refl
    | siocgifflags ↦ refl
    | siocsifmtu ↦ refl
  ];
  include_header_keeps = λ fd w. refl;
  bind_keeps = λ fd addr w. refl;
  close_releases = λ fd w. refl;
}

abbrev config_of : List ℕ → DeviceConfig
config_of mode = record { mode = mode; name = 116 ∷ 48 ∷ []; mtu = pos 1500; bind_ip = [] }

abbrev no_ip : List ℕ → Option (List ℕ)
no_ip s = none

close_packet_io-open_packet_io_example :
    Releases small (λ w. w) (7 ∷ []) (open_packet_io small no_ip (config_of mode_tun) (7 ∷ []))
close_packet_io-open_packet_io_example =
    close_packet_io-open_packet_io small (λ w. w) no_ip (config_of mode_tun) (7 ∷ [])
      small-HasDescriptors
