-- ===== src/Tun/System.antt =====
-- The operating system as internal/tun uses it (internal/tun/ioctl_linux.go, and Go's syscall
-- package): its calls are arguments that act on a world `W` and may fail with an error of `E`. What
-- Linux documents about them is in the records of laws.
use gonet.Prelude.{ℕ, ◌≡◌, ◌≢◌, Bool, Option, List, [], ◌∷◌, ◌==◌, if◌then◌else◌, All}

pub data Answer (E A : Type 0) : Type 0 where
  done : A → Answer E A
  refused : E → Answer E A

-- `ifreq`: 16 bytes for the name, 24 for the data.
pub record Ifreq : Type 0 where
  pub name : List ℕ
  pub payload : List ℕ

pub data Request : Type 0 where
  tunsetiff siocgifflags siocsifflags siocsifmtu : Request

pub data SocketKind : Type 0 where
  datagram raw_ip : SocketKind

pub record System (W E : Type 0) : Type 0 where
  pub open_tun_file : W → W × Answer E ℕ
  pub socket : SocketKind → W → W × Answer E ℕ
  -- The kernel may write into the `ifreq`.
  pub ioctl : ℕ → Request → Ifreq → W → W × Option E × Ifreq
  -- `IP_HDRINCL` is set.
  pub include_header : ℕ → W → W × Option E
  pub bind : ℕ → List ℕ → W → W × Option E
  pub close : ℕ → W → W × Option E
  pub is_not_exist : E → Bool
  pub is_permission : E → Bool
  pub iff_tun : ℕ
  pub iff_no_pi : ℕ
  pub iff_up : ℕ
  pub iff_running : ℕ
  -- Numbers in the byte order of the machine.
  pub bytes16 : ℕ → List ℕ
  pub bytes32 : ℕ → List ℕ
  pub number16 : List ℕ → ℕ

-- `close(fd)` on the list of the open descriptors.
abbrev pub without : ℕ → List ℕ → List ℕ
without fd [] = []
without fd (x ∷ xs) = if fd == x then xs else x ∷ without fd xs

-- What a call that makes a descriptor does to the open descriptors.
abbrev pub Opens : {W E : Type 0} → (W → List ℕ) → W → W × Answer E ℕ → Type 0
Opens live w (w', done fd) = (live w' ≡ fd ∷ live w) × All (λ x. x ≢ fd) (live w)
Opens live w (w', refused e) = live w' ≡ live w

-- The descriptors of a process: a new one differs from the open ones, `close` releases its argument
-- even where it fails, and no other call opens or closes one.
pub record HasDescriptors {W E : Type 0} (sys : System W E) (live : W → List ℕ) : Type 0 where
  pub open_tun_file_opens : (w : W) → Opens live w (sys.open_tun_file w)
  pub socket_opens : (kind : SocketKind) (w : W) → Opens live w (sys.socket kind w)
  pub ioctl_keeps :
      (fd : ℕ) (r : Request) (ifr : Ifreq) (w : W) → live (sys.ioctl fd r ifr w).0 ≡ live w
  pub include_header_keeps : (fd : ℕ) (w : W) → live (sys.include_header fd w).0 ≡ live w
  pub bind_keeps : (fd : ℕ) (addr : List ℕ) (w : W) → live (sys.bind fd addr w).0 ≡ live w
  pub close_releases : (fd : ℕ) (w : W) → live (sys.close fd w).0 ≡ without fd (live w)
