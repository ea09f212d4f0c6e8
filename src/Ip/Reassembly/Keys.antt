-- ===== src/Ip/Reassembly/Keys.antt =====
-- The test of two keys of the map of groups is equality.
use gonet.Prelude.{◌≡◌, refl, sym, Bool, true, ◌&&◌, arith, ◌==◌, ==_iff, eq→==}
use gonet.Prelude.Net.{same_bytes, same_bytes_refl, same_bytes-eq}
use gonet.Ip.Reassembly.{FragmentKey, same_fragment_key}

pub same_fragment_key_refl : (k : FragmentKey) → same_fragment_key k k ≡ true
unfolding same_fragment_key
same_fragment_key_refl k =
    rw
      (
        same_bytes_refl k.src,
        same_bytes_refl k.dst,
        eq→== k.id k.id refl,
        eq→== k.proto k.proto refl,
      )
      refl

and_both : (a b : Bool) → (a && b) ≡ true → (a ≡ true) × (b ≡ true)
and_both a b h = ground (arith, h)

pub same_fragment_key-eq : (a b : FragmentKey) → same_fragment_key a b ≡ true → b ≡ a
unfolding same_fragment_key
same_fragment_key-eq a b h =
    let (src, more) =
      and_both (same_bytes a.src b.src)
        (same_bytes a.dst b.dst && (a.id == b.id && a.proto == b.proto)) h in
    let (dst, last) = and_both (same_bytes a.dst b.dst) (a.id == b.id && a.proto == b.proto) more in
    let (id, proto) = and_both (a.id == b.id) (a.proto == b.proto) last in
    sym (λ i. record {
      src = same_bytes-eq a.src b.src src i;
      dst = same_bytes-eq a.dst b.dst dst i;
      id = (==_iff a.id b.id).0 id i;
      proto = (==_iff a.proto b.proto).0 proto i;
    })
