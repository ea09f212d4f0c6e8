-- ===== src/Ip/Reassembly/Refinement.antt =====
-- `ReassemblyBuffer` implements one reassembler for each key.
use gonet.Prelude.{ℕ, ◌≡◌, refl, sym, ap, ◌∙◌, List, [], ◌∷◌, ◌++◌, Result, ok, err, panic, ◌>>=◌}
use mathlib.Core.Path.{subst}
use gonet.Ip.Errors.{Error}
use gonet.Ip.Reassembly.Group.{Visit}
use gonet.Ip.Reassembly.{ReassemblyBuffer, add, add_all}
use gonet.Ip.Reassembly.Invariant.{Reached, added, Reached-IsSound}
use gonet.Ip.Reassembly.Machines.{Machines, Delivery, react, and_then, replay}
use gonet.Ip.Reassembly.OneAdd.{held_by, deliver, Implements, add-Implements}

deliver-append :
    {W : Type 0} (on_complete : List ℕ → W → W) (out outs : List Delivery) (w : W)
    → deliver on_complete outs (deliver on_complete out w) ≡ deliver on_complete (out ++ outs) w
deliver-append on_complete [] outs w = refl
deliver-append on_complete ((key, packet) ∷ out) outs w =
    deliver-append on_complete out outs (on_complete packet w)

module _ {W : Type 0} (b : ReassemblyBuffer W) (w : W) (out : List Delivery) where
  and_then-Implements :
      (b' : ReassemblyBuffer W)
      → b'.on_complete ≡ b.on_complete
      → (rest : Result Error (Machines × List Delivery)) (r : Result Error (ReassemblyBuffer W × W))
      → Implements b' (deliver b.on_complete out w) rest r
      → Implements b w (and_then out rest) r
  and_then-Implements b' same (ok (s, outs)) r (b'', e, held, same') = (
    b'',
    e
        ∙ (λ i. ok (b'', deliver (same i) outs (deliver b.on_complete out w)))
        ∙ ap (λ v. ok (b'', v)) (deliver-append b.on_complete out outs w),
    held,
    same' ∙ same,
  )
  and_then-Implements b' same (err e) r h = h
  and_then-Implements b' same panic r h = h

module _ {W : Type 0} (visit : Visit) (on_complete : List ℕ → W → W) where
  abbrev Continues : List (ℕ × List ℕ) → Type 0
  Continues rest =
      (b : ReassemblyBuffer W) (w : W)
      → Reached on_complete b
      → Implements b w (replay visit rest (held_by b)) (add_all visit rest b w)

  react-Continues :
      (rest : List (ℕ × List ℕ)) (ih : Continues rest) (b : ReassemblyBuffer W) (w : W)
      (first : Result Error (Machines × List Delivery)) (r : Result Error (ReassemblyBuffer W × W))
      → ((b' : ReassemblyBuffer W) (w' : W) → r ≡ ok (b', w') → Reached on_complete b')
      → Implements b w first r
      → Implements b w
          (first >>= λ (s', out). and_then out (replay visit rest s'))
          (r >>= λ (b', w'). add_all visit rest b' w')
  react-Continues rest ih b w (ok (s', out)) r reaches (b', e, held, same) =
      subst
        (λ x.
          Implements b w (and_then out (replay visit rest s'))
            (x >>= λ (b'', w''). add_all visit rest b'' w''))
        (sym e)
        (and_then-Implements b w out b' same (replay visit rest s')
          (add_all visit rest b' (deliver b.on_complete out w))
          (subst
            (λ x.
              Implements b' (deliver b.on_complete out w) (replay visit rest x)
                (add_all visit rest b' (deliver b.on_complete out w)))
            held
            (ih b' (deliver b.on_complete out w) (reaches b' (deliver b.on_complete out w) e))))
  react-Continues rest ih b w (err e') r reaches e = rw e refl
  react-Continues rest ih b w panic r reaches e = rw e refl

  all-Continues : (arrivals : List (ℕ × List ℕ)) → Continues arrivals
  unfolding replay add_all
  all-Continues [] b w reached = (b, refl, refl, refl)
  all-Continues ((now, frag) ∷ rest) b w reached =
      react-Continues rest (all-Continues rest) b w (react visit now frag (held_by b))
        (add visit now frag b w) (λ b' w' e. added visit now frag w w' reached e)
        (add-Implements visit now frag b w (Reached-IsSound on_complete b reached))

-- The buffer, from every state that it reaches, implements one reassembler for each key: over any
-- arrivals, its groups are what the reassemblers hold, each of which sees the fragments of its own
-- key only, the callback gets what they deliver, in order, and it returns an error or panics
-- exactly where they do.
pub add_all-Implements :
    {W : Type 0} (on_complete : List ℕ → W → W) (b : ReassemblyBuffer W) (visit : Visit)
    (arrivals : List (ℕ × List ℕ)) (w : W)
    → Reached on_complete b
    → Implements b w (replay visit arrivals (held_by b)) (add_all visit arrivals b w)
add_all-Implements on_complete b visit arrivals w reached =
    all-Continues visit on_complete arrivals b w reached
