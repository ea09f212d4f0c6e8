-- ===== src/Config/Accepted.antt =====
-- The configurations that `Validate` accepts, and what its errors say.
use gonet.Prelude.{
  ℕ, ◌≤◌, ◌≡◌, refl, ◌≢◌, ◌⊎◌, inl, inr, Bool, true, false, ◌&&◌, ◌||◌, not, Option, none, some,
  List, [], ◌∷◌, arith, Bool-cases, Option-cases,
}
use mathlib.Core.Path.{subst}
use gonet.Prelude.Integers.{ℤ, pos, negsuc}
use gonet.Prelude.Net.{same_bytes, same_bytes_refl, same_bytes-eq}
use gonet.Config.{
  below, above, Config, mode_tun, mode_raw, debug_level, info_level, warn_level, error_level,
  ConfigError, invalid_mode, invalid_mtu, invalid_device_ip, invalid_peer_ip, invalid_log_level,
  invalid_buf_size, is_bad_ip, is_level, validate,
}

abbrev pub IsMode : List ℕ → Type 0
IsMode mode = (mode ≡ mode_tun) ⊎ (mode ≡ mode_raw)

abbrev pub IsMtu : ℤ → Type 0
IsMtu (pos n) = (576 ≤ n) × (n ≤ 65535)
IsMtu (negsuc n) = ⊥

-- No address, or one that `net.ParseIP` reads.
abbrev pub IsIp : (List ℕ → Option (List ℕ)) → List ℕ → Type 0
IsIp parse_ip s = (s ≡ []) ⊎ ((ip : List ℕ) × (parse_ip s ≡ some ip))

abbrev pub IsLevel : List ℕ → Type 0
IsLevel level =
    (level ≡ debug_level) ⊎ (level ≡ info_level) ⊎ (level ≡ warn_level) ⊎ (level ≡ error_level)

abbrev pub IsBufSize : ℤ → Type 0
IsBufSize (pos n) = 1 ≤ n
IsBufSize (negsuc n) = ⊥

-- A test is true just where `P` fails.
abbrev Refutes : Bool → Type 0 → Type 0
Refutes b P = P × (b ≡ false) ⊎ ¬ P × (b ≡ true)

differs : (s t : List ℕ) → same_bytes s t ≡ false → s ≢ t
differs s t e same = absurd (cc (e, subst (λ u. same_bytes s u ≡ true) same (same_bytes_refl s)))

IsMode-refuted :
    (mode : List ℕ)
    → Refutes (not (same_bytes mode mode_tun) && not (same_bytes mode mode_raw)) (IsMode mode)
IsMode-refuted mode = elim (Bool-cases (same_bytes mode mode_tun)) [
  | inl tun ↦ inl (inl (same_bytes-eq mode mode_tun tun), rw tun refl)
  | inr not_tun ↦ elim (Bool-cases (same_bytes mode mode_raw)) [
    | inl raw ↦ inl (inr (same_bytes-eq mode mode_raw raw), rw not_tun (rw raw refl))
    | inr not_raw ↦ inr (
      (λ h. elim h [
        | inl e ↦ differs mode mode_tun not_tun e
        | inr e ↦ differs mode mode_raw not_raw e
      ]),
      rw not_tun (rw not_raw refl),
    )
  ]
]

IsMtu-refuted : (mtu : ℤ) → Refutes (below mtu 576 || above mtu 65535) (IsMtu mtu)
unfolding below above
IsMtu-refuted (pos n) = ground arith
IsMtu-refuted (negsuc n) = inr ((λ h. h), refl)

IsBufSize-refuted : (size : ℤ) → Refutes (below size 1) (IsBufSize size)
unfolding below
IsBufSize-refuted (pos n) = ground arith
IsBufSize-refuted (negsuc n) = inr ((λ h. h), refl)

IsIp-refuted :
    (parse_ip : List ℕ → Option (List ℕ)) (s : List ℕ)
    → Refutes (is_bad_ip parse_ip s) (IsIp parse_ip s)
unfolding is_bad_ip
IsIp-refuted parse_ip [] = inl (inl refl, refl)
IsIp-refuted parse_ip (c ∷ s) = elim (Option-cases (parse_ip (c ∷ s))) [
  | inl unread ↦ inr (
    (λ h. elim h [ inl e ↦ absurd (cc e) | inr (ip, e) ↦ absurd (cc (unread, e)) ]),
    rw (is_bad_ip, unread) refl,
  )
  | inr (ip, read) ↦ inl (inr (ip, read), rw (is_bad_ip, read) refl)
]

IsLevel-refuted : (level : List ℕ) → Refutes (not (is_level level)) (IsLevel level)
unfolding is_level
IsLevel-refuted level = elim (Bool-cases (same_bytes level debug_level)) [
  | inl e ↦ inl (inl (same_bytes-eq level debug_level e), rw e refl)
  | inr no_debug ↦ elim (Bool-cases (same_bytes level info_level)) [
    | inl e ↦ inl (inr (inl (same_bytes-eq level info_level e)), rw no_debug (rw e refl))
    | inr no_info ↦ elim (Bool-cases (same_bytes level warn_level)) [
      | inl e ↦
          inl (
            inr (inr (inl (same_bytes-eq level warn_level e))),
            rw no_debug (rw no_info (rw e refl)),
          )
      | inr no_warn ↦ elim (Bool-cases (same_bytes level error_level)) [
        | inl e ↦ inl (
          inr (inr (inr (same_bytes-eq level error_level e))),
          rw no_debug (rw no_info (rw no_warn (rw e refl))),
        )
        | inr no_error ↦ inr (
          (λ h. elim h [
            | inl e ↦ differs level debug_level no_debug e
            | inr (inl e) ↦ differs level info_level no_info e
            | inr (inr (inl e)) ↦ differs level warn_level no_warn e
            | inr (inr (inr e)) ↦ differs level error_level no_error e
          ]),
          rw no_debug (rw no_info (rw no_warn (rw no_error refl))),
        )
      ]
    ]
  ]
]

module _ (parse_ip : List ℕ → Option (List ℕ)) (to_lower : List ℕ → List ℕ) where
  -- A configuration that `Validate` is to accept.
  pub record IsAcceptable (c : Config) : Type 0 where
    pub mode : IsMode c.mode
    pub mtu : IsMtu c.mtu
    pub device_ip : IsIp parse_ip c.device_ip
    pub peer_ip : IsIp parse_ip c.peer_ip
    pub log_level : IsLevel (to_lower c.log_level)
    pub buf_size : IsBufSize c.buf_size

  -- The field that an error names is not acceptable.
  abbrev pub Blames : ConfigError → Config → Type 0
  Blames invalid_mode c = ¬ IsMode c.mode
  Blames invalid_mtu c = ¬ IsMtu c.mtu
  Blames invalid_device_ip c = ¬ IsIp parse_ip c.device_ip
  Blames invalid_peer_ip c = ¬ IsIp parse_ip c.peer_ip
  Blames invalid_log_level c = ¬ IsLevel (to_lower c.log_level)
  Blames invalid_buf_size c = ¬ IsBufSize c.buf_size

  pub validate_cases :
      (c : Config)
      → IsAcceptable c × (validate parse_ip to_lower c ≡ none)
        ⊎ ((e : ConfigError) × Blames e c × (validate parse_ip to_lower c ≡ some e))
  unfolding validate
  validate_cases c = elim (IsMode-refuted c.mode) [
    | inr (bad, e1) ↦ inr (invalid_mode, bad, rw e1 refl)
    | inl (mode, e1) ↦ elim (IsMtu-refuted c.mtu) [
      | inr (bad, e2) ↦ inr (invalid_mtu, bad, rw (e1, e2) refl)
      | inl (mtu, e2) ↦ elim (IsIp-refuted parse_ip c.device_ip) [
        | inr (bad, e3) ↦ inr (invalid_device_ip, bad, rw (e1, e2, e3) refl)
        | inl (device_ip, e3) ↦ elim (IsIp-refuted parse_ip c.peer_ip) [
          | inr (bad, e4) ↦ inr (invalid_peer_ip, bad, rw (e1, e2, e3, e4) refl)
          | inl (peer_ip, e4) ↦ elim (IsLevel-refuted (to_lower c.log_level)) [
            | inr (bad, e5) ↦ inr (invalid_log_level, bad, rw (e1, e2, e3, e4, e5) refl)
            | inl (log_level, e5) ↦ elim (IsBufSize-refuted c.buf_size) [
              | inr (bad, e6) ↦ inr (invalid_buf_size, bad, rw (e1, e2, e3, e4, e5, e6) refl)
              | inl (buf_size, e6) ↦ inl (
                record {
                  mode = mode;
                  mtu = mtu;
                  device_ip = device_ip;
                  peer_ip = peer_ip;
                  log_level = log_level;
                  buf_size = buf_size;
                },
                rw (e1, e2, e3, e4, e5, e6) refl,
              )
            ]
          ]
        ]
      ]
    ]
  ]
