-- ===== src/Icmp/Echo.antt =====
-- What `Marshal` writes of an echo message, and that `ParseEcho` reads it back.
use gonet.Prelude.{
  ℕ, suc, ◌+◌, ◌-◌, ◌*◌, ◌/◌, ◌%◌, ◌≤◌, ◌<◌, ◌≡◌, refl, sym, ap, ◌∙◌, ◌⊎◌, inl, inr, true, false,
  List, [], ◌∷◌, ◌++◌, arith, ltb, ◌==◌, le→ltb_false, eq→==, ne→==_false, Bool-cases, length, drop,
  replicate, All, length-drop, length-replicate, drop_all, ok, IsByte, byte_at, uint16_at, be16,
  copy, copy_same,
}
use gonet.Ip.Checksum.{checksum, verify_checksum, icmp_checksum}
use gonet.Ip.Checksum.Closed.{checksum-lt}
use gonet.Ip.Checksum.Verify.{verify_checksum-set}
use gonet.Icmp.{
  EchoMessage, type_echo_reply, type_echo_request, parse_echo, read_data, put_data, marshal,
}

-- The layout of RFC 792, with a value in the checksum field.
abbrev pub wire : EchoMessage → ℕ → List ℕ
wire m sum = m.message_type ∷ m.code ∷ be16 sum ++ (be16 m.id ++ (be16 m.seq ++ m.content))

pub record IsEcho (m : EchoMessage) : Type 0 where
  pub request_or_reply : (m.message_type ≡ type_echo_request) ⊎ (m.message_type ≡ type_echo_reply)
  pub code_fits : IsByte m.code
  pub id_fits : m.id < 65536
  pub seq_fits : m.seq < 65536
  pub content_bytes : All IsByte m.content
  pub content_short : length m.content ≤ 65507

zeros_behind : (n : ℕ) → replicate {A = ℕ} (8 + n) 0 ≡ 0 ∷ 0 ∷ 0 ∷ 0 ∷ 0 ∷ 0 ∷ 0 ∷ 0 ∷ replicate n 0
zeros_behind n = ap (λ k. replicate {A = ℕ} k 0) eight
  where
    eight : 8 + n ≡ suc (suc (suc (suc (suc (suc (suc (suc n)))))))
    eight = omega arith

put_data-zeros :
    {E : Type 0} (content : List ℕ) (b0 b1 b2 b3 b4 b5 b6 b7 : ℕ)
    → put_data {E = E} content
        (b0 ∷ b1 ∷ b2 ∷ b3 ∷ b4 ∷ b5 ∷ b6 ∷ b7 ∷ replicate (length content) 0)
      ≡ ok (b0 ∷ b1 ∷ b2 ∷ b3 ∷ b4 ∷ b5 ∷ b6 ∷ b7 ∷ content)
unfolding put_data
put_data-zeros content b0 b1 b2 b3 b4 b5 b6 b7 = elim (Bool-cases (ltb 0 (length content))) [
  | inl some_data ↦ rw (some_data, copied)
  | inr empty ↦ rw empty (rw (nothing content (ground arith)) refl)
]
  where
    copied : copy (replicate (length content) 0) content ≡ content
    copied =
        copy_same (replicate (length content) 0) content
          (length-replicate {A = ℕ} (length content) 0)

    nothing : (xs : List ℕ) → length xs ≤ 0 → xs ≡ []
    nothing [] h = refl
    nothing (x ∷ xs) h = absurd (omega arith)

pub marshal-wire : (m : EchoMessage) → marshal m ≡ ok (wire m (checksum (wire m 0)))
unfolding marshal icmp_checksum
marshal-wire m = rw (zeros_behind (length m.content), put_data-zeros m.content)

read_data-drop : (raw : List ℕ) → read_data raw ≡ drop 8 raw
unfolding read_data
read_data-drop raw = elim (Bool-cases (ltb 8 (length raw))) [
  | inl some_data ↦ rw some_data (copy_same (replicate (length raw - 8) 0) (drop 8 raw) lengths)
  | inr empty ↦ rw empty (sym (drop_all 8 raw (ground arith)))
]
  where
    lengths : length (replicate {A = ℕ} (length raw - 8) 0) ≡ length (drop 8 raw)
    lengths = omega (arith, length-replicate {A = ℕ} (length raw - 8) 0, length-drop 8 raw)

-- A message by its bytes.
abbrev pub echo_at : List ℕ → EchoMessage
echo_at raw = record {
  message_type = byte_at raw 0;
  code = byte_at raw 1;
  checksum = uint16_at raw 2;
  id = uint16_at raw 4;
  seq = uint16_at raw 6;
  content = drop 8 raw;
}

pub parse_echo-echo_at :
    (raw : List ℕ)
    → 8 ≤ length raw
    → (byte_at raw 0 ≡ type_echo_request) ⊎ (byte_at raw 0 ≡ type_echo_reply)
    → parse_echo raw ≡ ok (echo_at raw)
unfolding parse_echo
parse_echo-echo_at raw long (inl request) =
    rw (le→ltb_false (length raw) 8 long, eq→== _ _ request, read_data-drop raw)
parse_echo-echo_at raw long (inr reply) =
    rw (le→ltb_false (length raw) 8 long, other, eq→== _ _ reply, read_data-drop raw)
  where
    other : (byte_at raw 0 == type_echo_request) ≡ false
    other = ne→==_false _ _ (omega arith)

pub parse_echo-wire :
    (m : EchoMessage) (sum : ℕ)
    → sum < 65536
    → IsEcho m
    → parse_echo (wire m sum) ≡ ok (record m { checksum = sum })
parse_echo-wire m sum fits v =
    parse_echo-echo_at (wire m sum) (omega arith) v.request_or_reply ∙ (λ i. ok (record m {
      checksum = word sum fits i;
      id = word m.id v.id_fits i;
      seq = word m.seq v.seq_fits i;
    }))
  where
    word : (w : ℕ) → w < 65536 → w / 256 % 256 * 256 + w % 256 ≡ w
    word w h = omega arith

pub wire-verifies :
    (m : EchoMessage) → IsEcho m → verify_checksum (wire m (checksum (wire m 0))) ≡ true
wire-verifies m v =
    verify_checksum-set 1 (m.message_type ∷ m.code ∷ []) (be16 m.id ++ (be16 m.seq ++ m.content))
      refl (ground arith)
      (omega arith, (omega arith, (omega arith, (omega arith, v.content_bytes)))) (omega arith)

-- A message that `Marshal` writes is read back by `ParseEcho` with the checksum that was filled in,
-- and the bytes verify: for an echo request or reply whose fields fit.
pub parse_echo-marshal :
    (m : EchoMessage)
    → IsEcho m
    → (raw : List ℕ) × (sum : ℕ) × (marshal m ≡ ok raw)
      × (parse_echo raw ≡ ok (record m { checksum = sum }))
      × (verify_checksum raw ≡ true)
parse_echo-marshal m v = (
  wire m (checksum (wire m 0)),
  checksum (wire m 0),
  marshal-wire m,
  parse_echo-wire m (checksum (wire m 0)) (checksum-lt (wire m 0)) v,
  wire-verifies m v,
)
