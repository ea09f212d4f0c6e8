-- ===== src/Tcp/Header/Flags.antt =====
-- `SetFlag` and `HasFlag` on the eight flags.
use gonet.Prelude.{
  ℕ, ◌^◌, ◌<◌, bit_and, bit_or, ◌≡◌, refl, Bool, true, false, ◌||◌, not, arith, ◌==◌, all_under,
  all_under_sound,
}
use gonet.Tcp.Header.{Header, has_flag, set_flag}

bool_eq : Bool → Bool → Bool
bool_eq true b = b
bool_eq false b = not b

bool_eq_sound : (a b : Bool) → bool_eq a b ≡ true → a ≡ b
unfolding bool_eq
bool_eq_sound a b h = ground arith

abbrev flags_agree : ℕ → ℕ → ℕ → Bool
unfolding bool_eq
flags_agree x j k =
    bool_eq (not (bit_and (bit_or x (2 ^ j)) (2 ^ k) == 0)) (j == k || not (bit_and x (2 ^ k) == 0))

flags_table : all_under 256 (λ x. all_under 8 (λ j. all_under 8 (λ k. flags_agree x j k))) ≡ true
unfolding all_under bool_eq
flags_table = refl

-- After `SetFlag` of one of the eight flags exactly that flag and those from before are set.
has_flag-set_flag :
    (h : Header) (j k : ℕ)
    → h.flags < 256
    → j < 8
    → k < 8
    → has_flag (set_flag h (2 ^ j)) (2 ^ k) ≡ (j == k || has_flag h (2 ^ k))
unfolding has_flag set_flag bool_eq
has_flag-set_flag h j k fits hj hk = bool_eq_sound _ _ (
    all_under_sound 8 (λ n. flags_agree h.flags j n) k
      (all_under_sound 8 (λ m. all_under 8 (λ n. flags_agree h.flags m n)) j
        (all_under_sound 256 (λ x. all_under 8 (λ m. all_under 8 (λ n. flags_agree x m n))) h.flags
          flags_table fits)
        hj)
      hk)
