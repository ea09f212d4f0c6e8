-- ===== src/Lib.antt =====
-- gonet: a userspace TCP/IP stack in Go. This library models the stack's pure core over explicit
-- state and proves what its parts promise.
--
-- The program and this model. A byte slice is a list of numbers, of bytes where a hypothesis says
-- `All IsByte`; uint8 to uint64 are numbers with the wrap-around written out; an error result is
-- `Result`, whose `panic` is an index or slice bound out of range; a method that changes its receiver
-- returns the new record. Locks and log lines are left out, and so is the scheduling of goroutines
-- but for the read loop's.
--
-- Prelude: tests, lists over the native numbers, shifts and masks, big-endian fields, bounded writes
--   (`put_bytes`, `copy_from`), Go maps as association lists (Prelude/Dict, with the laws of their
--   updates in Prelude/DictLaws), signed integers (Prelude/Integers), lists in another order
--   (Prelude/Rearranged), and `net.IP` (Prelude/Net: `To4` and `net.IPv4` of Go's net package).
-- Ip/Header is internal/ip/header.go (ParseHeader, Marshal, HeaderLen, Payload). `Marshal` writes
--   into its buffer with bounds checked, so its panics are results of the model.
-- Ip/Checksum is internal/ip/checksum.go. The folding loop recurs on the proof that its sum gets
--   smaller, so it needs no fuel; the loops over the bytes are recursions on the slice.
-- Ip/Builder is internal/ip/builder.go; the ID generator shared by all builders is passed along.
-- Ip/Summed has the lines that fragment.go and reassembly.go share. Ip/Fragment is
--   internal/ip/fragment.go; its loop has one round of fuel for each byte of the payload, and every
--   round takes at least one. Ip/Reassembly is internal/ip/reassembly.go: maps are association lists,
--   the order in which a map is visited, the clock and the callback are arguments. The theorems run
--   the two against each other. Ip/Reassembly/Machines is a specification of reassembly with one
--   reassembler for each key, and Ip/Reassembly/Refinement holds the buffer against it.
--   Ip/Reassembly/Held says what each step does to the groups that are held, and Ip/Reassembly/Age
--   has the ticks of the timer of Start among the calls of Add. The int counters are natural numbers.
-- Ip/Parser is internal/ip/parser.go; the decoders of gopacket, net.IP.String and the printing of
--   numbers are arguments, and of a layer of gopacket the model has the fields that are read.
-- Ip/Dispatcher is internal/ip/dispatcher.go; a protocol handler is an argument, a function on a
--   world of its own.
-- Tcp/State is internal/tcp/state.go, with the table of transitions; the callback is a function on a
--   world, and a state is one of the eleven that have a name (String's UNKNOWN(n) is left out).
-- Tcp/Header is internal/tcp/header.go (ParseHeader, ParseOptions, Marshal, flags). The loop over the
--   options has as many rounds as bytes, and the padding loop three; a slice behind the options or the
--   end of fuel is a panic.
-- Tcp/Checksum is internal/tcp/checksum.go (ChecksumCalculator); `SetAndCompute` returns the slice
--   that it changes in place.
-- Tcp/Conn is internal/tcp/conn.go and Tcp/Handshake is internal/tcp/handshake.go. A method takes the
--   connection and the world of its output function and returns both with its error; `GenerateISN`
--   reads random numbers and the clock, so its result is an argument.
-- Tcp/ConnTable is internal/tcp/conn_table.go; the maps are functions. `EphemeralPort` is on
--   fuel, and 32768 rounds are enough where a port other than the first is free.
-- Icmp is internal/icmp/icmp.go (ParseEcho, Marshal, NewEchoReply) and Icmp/Handler is
--   internal/icmp/handler.go; the device that the handler writes to is an argument, a function on a
--   world of its own, and the handler fills the interface of the dispatcher.
-- Config is internal/config/config.go (Load is in Config/Load) with the start command of
--   cmd/gonet/main.go; the file system and the decoders of JSON and YAML are arguments, strings are
--   lists of bytes, and an int is pos n or negsuc n. Config/Accepted says which configurations are
--   acceptable, and Config/Precedence has the law of the decoders and where each field comes from.
-- Tun/System is the operating system as internal/tun calls it (internal/tun/ioctl_linux.go): its calls
--   are arguments on a world, and a record of laws has what Linux documents about the descriptors of a
--   process. Tun/Device is OpenTUN and Close of internal/tun/tun.go, Tun/Raw is internal/tun/raw.go, and
--   Tun/Factory is Open of internal/tun/factory.go, which makes either of the two.
-- Tun/Loop is internal/tun/loop.go: a list of turns says what the device and the context do, so the
--   model runs as long as the list. Tun/Loop/Stopping has Start and Stop, with the steps of the loop and
--   the end of its context one between the other. Tun/Pipeline puts the loop in front of the dispatcher.
--
-- Ip/EndToEnd runs the builder, fragmentation, reassembly and the dispatcher one behind the other.
--
-- The dispatcher reads the same header as ParseHeader by hand, and the builder's packets go through
-- both, so the theorems about Ip/Dispatcher and Ip/Builder are stated against Ip/Header.
--
-- Not modelled: the String methods of the headers, Read and Write of the TUN device (one system call each), a second
-- Start of a running read loop, logging and the rest of the command line.
pub mod Config
pub mod Icmp
pub mod Ip
pub mod Prelude
pub mod Tcp
pub mod Tun
