-- ===== src/Ip/Errors.antt =====
-- The error values of internal/ip: ErrTooShort and ErrInvalid of header.go, ErrPacketTooLarge of
-- builder.go, ErrDontFragment and ErrMTUTooSmall of fragment.go, ErrInvalidFragment of
-- reassembly.go.
pub data Error : Type 0 where
  too_short invalid packet_too_large dont_fragment mtu_too_small invalid_fragment : Error
