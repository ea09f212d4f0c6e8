-- ===== src/Config/Mtu.antt =====
-- What a configuration that the start command accepts means for `Fragment`.
use gonet.Prelude.{
  ℕ, ◌+◌, ◌-◌, ◌*◌, ◌/◌, ◌≤◌, ◌<◌, bit_and, ◌≡◌, refl, inl, inr, Bool, false, ◌&&◌, ◌||◌, not,
  Option, none, some, List, [], ◌∷◌, arith, ltb, if◌then◌else◌, ltb→lt, ltb_false→le, le→ltb_false,
  Bool-cases, length, All, Result, ok, err, panic, IsByte,
}
use mathlib.Core.Path.{subst}
use gonet.Prelude.Net.{same_bytes}
use gonet.Ip.Header.{Header, parse_header}
use gonet.Ip.Header.RoundTrip.{parse_header-IsValid}
use gonet.Ip.Fragment.{fragment}
use gonet.Ip.Fragment.Split.{Fragmentation, final, next, fragment-Fragmentation}
use gonet.Prelude.Integers.{ℤ, pos, negsuc}
use gonet.Config.{
  below, above, Config, ConfigError, invalid_mode, invalid_mtu, invalid_device_ip, invalid_peer_ip,
  invalid_log_level, invalid_buf_size, is_bad_ip, is_level, mode_tun, mode_raw, validate, Flags,
  override, checked, start,
}

-- An MTU and a buffer size in the range that `Validate` asks for.
pub record IsSized (c : Config) (mtu buf_size : ℕ) : Type 0 where
  pub mtu_is : c.mtu ≡ pos mtu
  pub mtu_low : 576 ≤ mtu
  pub mtu_high : mtu ≤ 65535
  pub buf_size_is : c.buf_size ≡ pos buf_size
  pub buf_size_low : 0 < buf_size

both_checks :
    (mode mtu device peer level size : Bool)
    → (if mode
        then some invalid_mode
        else if mtu
        then some invalid_mtu
        else if device
        then some invalid_device_ip
        else if peer
        then some invalid_peer_ip
        else if level
        then some invalid_log_level
        else if size
        then some invalid_buf_size
        else none)
      ≡ none
    → (mtu ≡ false) × (size ≡ false)
both_checks mode mtu device peer level size h = ground (arith, h)

module _ (parse_ip : List ℕ → Option (List ℕ)) (to_lower : List ℕ → List ℕ) where
  sizes :
      (m b : ℤ)
      → (below m 576 || above m 65535) ≡ false
      → below b 1 ≡ false
      → (mtu : ℕ) × (buf_size : ℕ) × (m ≡ pos mtu)
        × (576 ≤ mtu)
        × (mtu ≤ 65535)
        × (b ≡ pos buf_size)
        × (0 < buf_size)
  unfolding below above
  sizes (pos mtu) (pos buf_size) h k =
      (mtu, buf_size, refl, ground (arith, h), ground (arith, h), refl, ground (arith, k))
  sizes (pos mtu) (negsuc n) h k = absurd (cc k)
  sizes (negsuc n) b h k = absurd (cc h)

  validate_checks :
      (c : Config)
      → validate parse_ip to_lower c ≡ none
      → ((below c.mtu 576 || above c.mtu 65535) ≡ false) × (below c.buf_size 1 ≡ false)
  unfolding validate
  validate_checks c h =
      (both_checks (not (same_bytes c.mode mode_tun) && not (same_bytes c.mode mode_raw))
        (below c.mtu 576 || above c.mtu 65535) (is_bad_ip parse_ip c.device_ip)
        (is_bad_ip parse_ip c.peer_ip) (not (is_level (to_lower c.log_level))) (below c.buf_size 1)
        h)

  validate-IsSized :
      (c : Config)
      → validate parse_ip to_lower c ≡ none
      → (mtu : ℕ) × (buf_size : ℕ) × IsSized c mtu buf_size
  validate-IsSized c h =
      let (mtu_ok, buf_ok) = validate_checks c h in
      let (mtu, buf_size, m, low, high, b, positive) = sizes c.mtu c.buf_size mtu_ok buf_ok in
      (
        mtu,
        buf_size,
        record {
          mtu_is = m;
          mtu_low = low;
          mtu_high = high;
          buf_size_is = b;
          buf_size_low = positive;
        },
      )

  start_accepted :
      {E : Type 0} (loaded : Result E Config) (flags : Flags) (c : Config)
      → start parse_ip to_lower loaded flags ≡ ok c
      → validate parse_ip to_lower c ≡ none
  unfolding start checked
  start_accepted (err e) flags c h = absurd (cc h)
  start_accepted panic flags c h = absurd (cc h)
  start_accepted {E = E} (ok old) flags c h =
      was_checked (override flags old) (validate parse_ip to_lower (override flags old)) refl h
    where
      was_checked :
          (new : Config) (r : Option ConfigError)
          → validate parse_ip to_lower new ≡ r
          → checked {E = E} new r ≡ ok c
          → validate parse_ip to_lower c ≡ none
      was_checked new none v e = subst (λ x. validate parse_ip to_lower x ≡ none) (cc e) v
      was_checked new (some x) v e = absurd (cc e)

all_fit :
    (h : Header) (mtu : ℕ) {offset : ℕ} {left : List ℕ} {packets : List (List ℕ)}
    → Fragmentation h mtu offset left packets
    → All (λ p. length p ≤ mtu) packets
all_fit h mtu (final f nonempty fits) = (fits, tt)
all_fit h mtu (next cut f nonempty eights fits more) = (fits, all_fit h mtu more)

whole_fits :
    (packet : List ℕ) (mtu : ℕ) → length packet ≤ mtu → fragment packet mtu ≡ ok (packet ∷ [])
unfolding fragment
whole_fits packet mtu le = rw (le→ltb_false mtu (length packet) le) refl

-- A configuration that the start command accepts, from whatever file and flags, has an MTU from 576
-- to 65535 and a buffer size above 0; with its MTU, `Fragment` succeeds on every packet of bytes
-- that ParseHeader accepts with an IHL of 5 at least, without the DF flag and with a payload that
-- ends within the range of the fragment offset, and every packet that it returns fits the MTU.
pub start-fragment :
    {E : Type 0} (parse_ip : List ℕ → Option (List ℕ)) (to_lower : List ℕ → List ℕ)
    (loaded : Result E Config) (flags : Flags) (c : Config) (packet : List ℕ) (h : Header)
    → start parse_ip to_lower loaded flags ≡ ok c
    → All IsByte packet
    → parse_header packet ≡ ok h
    → 5 ≤ h.ihl
    → bit_and h.flags 2 ≡ 0
    → h.frag_offset + (length packet - h.ihl * 4) / 8 < 8192
    → (mtu : ℕ) × (buf_size : ℕ) × (packets : List (List ℕ)) × IsSized c mtu buf_size
      × (fragment packet mtu ≡ ok packets)
      × All (λ p. length p ≤ mtu) packets
start-fragment parse_ip to_lower loaded flags c packet h started bytes e low df range =
    let (mtu, buf_size, sized) =
      validate-IsSized parse_ip to_lower c
        (start_accepted parse_ip to_lower loaded flags c started) in
    let (packets, sent, fit) = sent_in mtu sized.mtu_low sized.mtu_high in
    (mtu, buf_size, packets, sized, sent, fit)
  where
    sent_in :
        (mtu : ℕ)
        → 576 ≤ mtu
        → mtu ≤ 65535
        → (packets : List (List ℕ)) × (fragment packet mtu ≡ ok packets)
          × All (λ p. length p ≤ mtu) packets
    sent_in mtu lo hi = elim (Bool-cases (ltb mtu (length packet))) [
      | inl long ↦
          let (packets, sent, split) =
            fragment-Fragmentation packet h mtu bytes e low df (ltb→lt mtu (length packet) long)
              (omega (arith, lo, (parse_header-IsValid packet h bytes e low).ihl_high))
              (omega (arith, hi)) range in
          (packets, sent, all_fit h mtu split)
      | inr short ↦
          let fits = ltb_false→le mtu (length packet) short in
          (packet ∷ [], whole_fits packet mtu fits, (fits, tt))
    ]
