-- ===== src/Icmp.antt =====
-- internal/icmp/icmp.go: echo messages. `Marshal` writes into its buffer with bounds checked.
pub mod Echo
pub mod Handler
mod Runs
use gonet.Prelude.{
  ℕ, ◌+◌, ◌-◌, ◌&&◌, not, List, [], ◌∷◌, ltb, ◌==◌, if◌then◌else◌, length, drop, replicate, Result,
  ok, err, ◌>>=◌, byte_at, uint16_at, be16, put_bytes, copy, copy_from,
}
use gonet.Ip.Checksum.{icmp_checksum}

-- The values of `MessageType`, a uint8.
abbrev pub type_echo_reply : ℕ
type_echo_reply = 0

abbrev pub type_echo_request : ℕ
type_echo_request = 8

-- ErrTooShort and ErrNotEcho.
pub data EchoError : Type 0 where
  too_short not_echo : EchoError

pub record EchoMessage : Type 0 where
  pub message_type : ℕ
  pub code : ℕ
  pub checksum : ℕ
  pub id : ℕ
  pub seq : ℕ
  pub content : List ℕ

-- `m.Data = make([]byte, len(raw)-8); copy(m.Data, raw[8:])`
unfoldable pub read_data : List ℕ → List ℕ
read_data raw = if ltb 8 (length raw) then copy (replicate (length raw - 8) 0) (drop 8 raw) else []

unfoldable pub parse_echo : List ℕ → Result EchoError EchoMessage
parse_echo raw =
    if ltb (length raw) 8
    then err too_short
    else if not (byte_at raw 0 == type_echo_request) && not (byte_at raw 0 == type_echo_reply)
    then err not_echo
    else ok (record {
      message_type = byte_at raw 0;
      code = byte_at raw 1;
      checksum = uint16_at raw 2;
      id = uint16_at raw 4;
      seq = uint16_at raw 6;
      content = read_data raw;
    })

-- `if len(m.Data) > 0 { copy(buf[8:], m.Data) }`
unfoldable pub put_data : {E : Type 0} → List ℕ → List ℕ → Result E (List ℕ)
put_data content buf = if ltb 0 (length content) then copy_from 8 content buf else ok buf

unfoldable pub marshal : EchoMessage → Result EchoError (List ℕ)
marshal m = do
  typed ← put_bytes 0 (m.message_type ∷ []) (replicate (8 + length m.content) 0)
  coded ← put_bytes 1 (m.code ∷ []) typed
  blank ← put_bytes 2 (0 ∷ []) coded
  unsummed ← put_bytes 3 (0 ∷ []) blank
  named ← put_bytes 4 (be16 m.id) unsummed
  numbered ← put_bytes 6 (be16 m.seq) named
  buf ← put_data m.content numbered
  put_bytes 2 (be16 (icmp_checksum buf)) buf

unfoldable pub new_echo_reply : EchoMessage → EchoMessage
new_echo_reply req = record {
  message_type = type_echo_reply;
  code = 0;
  checksum = 0;
  id = req.id;
  seq = req.seq;
  content = req.content;
}
