-- ===== src/Ip/Reassembly/Machines.antt =====
-- A specification of reassembly: one reassembler for each key, which knows nothing of the others.
use gonet.Prelude.{
  ℕ, not, Option, none, some, List, [], ◌∷◌, ◌++◌, if◌then◌else◌, Result, ok, err, panic, ◌>>=◌,
}
use gonet.Ip.Errors.{Error}
use gonet.Ip.Header.{Header, parse_header}
use gonet.Ip.Reassembly.Group.{
  FragmentGroup, Visit, reassemble, new_group, add_to_group, complete_len,
}
use gonet.Ip.Reassembly.{FragmentKey, same_fragment_key, fragment_key, is_fragment}

-- What a reassembler holds of its packet: nothing, or the fragments so far.
abbrev pub Machines : Type 0
Machines = FragmentKey → Option FragmentGroup

-- A packet that is delivered, with the key whose fragments it was made of, or `none` for a whole
-- packet.
abbrev pub Delivery : Type 0
Delivery = Option FragmentKey × List ℕ

abbrev pub group_or_new : ℕ → Option FragmentGroup → FragmentGroup
group_or_new now none = new_group now
group_or_new now (some g) = g

-- The reassembler behind a complete group: it holds nothing any more.
abbrev pub emptied : Result Error (List ℕ) → Result Error (Option FragmentGroup × Option (List ℕ))
emptied (ok packet) = ok (none, some packet)
emptied (err e) = ok (none, none)
emptied panic = panic

abbrev pub settled_machine :
    Visit → FragmentGroup → Option ℕ → Result Error (Option FragmentGroup × Option (List ℕ))
settled_machine visit g none = ok (some g, none)
settled_machine visit g (some total) = emptied (reassemble visit g total)

-- One fragment, in one reassembler.
abbrev pub machine :
    Visit
    → ℕ
    → Header
    → List ℕ
    → Option FragmentGroup
    → Result Error (Option FragmentGroup × Option (List ℕ))
machine visit now h frag held =
    let g = add_to_group h frag (group_or_new now held) in settled_machine visit g (complete_len g)

abbrev pub deliveries : FragmentKey → Option (List ℕ) → List Delivery
deliveries key none = []
deliveries key (some packet) = (some key, packet) ∷ []

abbrev pub updated : FragmentKey → Option FragmentGroup → Machines → Machines
updated key held s = λ k. if same_fragment_key k key then held else s k

abbrev pub react_key :
    FragmentKey
    → Machines
    → Result Error (Option FragmentGroup × Option (List ℕ))
    → Result Error (Machines × List Delivery)
react_key key s (ok (held, out)) = ok (updated key held s, deliveries key out)
react_key key s (err e) = err e
react_key key s panic = panic

abbrev pub react_header :
    Visit → ℕ → List ℕ → Machines → Header → Result Error (Machines × List Delivery)
react_header visit now frag s h =
    if not (is_fragment h)
    then ok (s, (none, frag) ∷ [])
    else react_key (fragment_key h) s (machine visit now h frag (s (fragment_key h)))

-- One arrival: only the reassembler of its key moves.
abbrev pub react : Visit → ℕ → List ℕ → Machines → Result Error (Machines × List Delivery)
react visit now frag s = parse_header frag >>= λ h. react_header visit now frag s h

abbrev pub and_then :
    List Delivery
    → Result Error (Machines × List Delivery)
    → Result Error (Machines × List Delivery)
and_then out rest = rest >>= λ (s, outs). ok (s, out ++ outs)

-- Arrivals one behind the other, each with its time.
unfoldable pub replay :
    Visit → List (ℕ × List ℕ) → Machines → Result Error (Machines × List Delivery)
replay visit [] s = ok (s, [])
replay visit ((now, frag) ∷ rest) s =
    react visit now frag s >>= λ (s', out). and_then out (replay visit rest s')
