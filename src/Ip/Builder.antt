-- ===== src/Ip/Builder.antt =====
-- internal/ip/builder.go: the generator of packet IDs, the build options and `PacketBuilder`. The
-- generator is shared by all builders, so its value is a state that a build takes and returns.
pub mod Packet
pub mod Ids
mod Runs
use gonet.Prelude.{
  ℕ, ◌+◌, ◌/◌, List, [], ◌∷◌, ◌++◌, Result, ok, err, ◌>>=◌, bit_or, u16, u32, length, ltb,
  if◌then◌else◌,
}
use gonet.Ip.Errors.{Error, packet_too_large}
use gonet.Ip.Header.{Header, marshal, min_header_len, default_ttl, flag_df}
use gonet.Ip.Checksum.{checksum}

-- `IDGenerator.val`, a uint32.
pub record IdGenerator : Type 0 where
  pub val : ℕ

-- `Next`: the ID and the generator behind it.
unfoldable pub next : IdGenerator → ℕ × IdGenerator
next g = let val = u32 (g.val + 1) in (u16 val, record { val = val })

pub record PacketBuilder : Type 0 where
  pub src : List ℕ
  pub dst : List ℕ
  pub proto : ℕ
  pub ttl : ℕ
  pub tos : ℕ

pub record BuildContext : Type 0 where
  pub ttl : ℕ
  pub tos : ℕ
  pub flags : ℕ
  pub id : ℕ

abbrev pub BuildOption : Type 0
BuildOption = BuildContext → BuildContext

unfoldable pub with_ttl : ℕ → BuildOption
with_ttl n c = record c { ttl = n }

unfoldable pub with_tos : ℕ → BuildOption
with_tos n c = record c { tos = n }

unfoldable pub with_df : BuildOption
with_df c = record c { flags = bit_or c.flags flag_df }

unfoldable pub with_id : ℕ → BuildOption
with_id id c = record c { id = id }

unfoldable pub new_packet_builder : List ℕ → List ℕ → ℕ → PacketBuilder
new_packet_builder src dst proto = record {
  src = src;
  dst = dst;
  proto = proto;
  ttl = default_ttl;
  tos = 0;
}

-- `for _, opt := range opts { opt(&ctx) }`
unfoldable pub apply_options : BuildContext → List BuildOption → BuildContext
apply_options ctx [] = ctx
apply_options ctx (opt ∷ opts) = apply_options (opt ctx) opts

-- The header literal of `BuildWithOptions`, with the checksum that is filled in later.
unfoldable pub header_of : PacketBuilder → BuildContext → ℕ → ℕ → Header
header_of b ctx total_len checksum = record {
  version = 4;
  ihl = min_header_len / 4;
  tos = ctx.tos;
  total_len = u16 total_len;
  id = ctx.id;
  flags = ctx.flags;
  frag_offset = 0;
  ttl = ctx.ttl;
  protocol = b.proto;
  checksum = checksum;
  src = b.src;
  dst = b.dst;
  options = [];
}

-- `BuildWithOptions` behind the options.
unfoldable pub assemble : PacketBuilder → BuildContext → List ℕ → Result Error (List ℕ)
assemble b ctx payload =
    let total_len = min_header_len + length payload in
    if ltb 0xffff total_len then err packet_too_large else do
      unsummed ← marshal (header_of b ctx total_len 0)
      header_bytes ← marshal (header_of b ctx total_len (checksum unsummed))
      ok (header_bytes ++ payload)

-- The context that a build starts from.
unfoldable pub initial_context : PacketBuilder → ℕ → BuildContext
initial_context b id = record { ttl = b.ttl; tos = b.tos; flags = 0; id = id }

unfoldable pub build_with_options :
    PacketBuilder → IdGenerator → List ℕ → List BuildOption → Result Error (List ℕ) × IdGenerator
unfolding initial_context
build_with_options b gen payload opts =
    let (id, gen') = next gen in
    (assemble b (apply_options (initial_context b id) opts) payload, gen')

unfoldable pub build : PacketBuilder → IdGenerator → List ℕ → Result Error (List ℕ) × IdGenerator
build b gen payload = build_with_options b gen payload []
