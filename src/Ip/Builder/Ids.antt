-- ===== src/Ip/Builder/Ids.antt =====
-- The IDs of successive packets.
use gonet.Prelude.{ℕ, zero, suc, ◌+◌, ◌%◌, ◌<◌, ◌≡◌, ◌∙◌, ◌≢◌, arith}
use gonet.Ip.Builder.{IdGenerator, next}

-- The generator after `n` calls of `Next`.
abbrev after : ℕ → IdGenerator → IdGenerator
after zero g = g
after (suc n) g = after n (next g).1

-- The ID of the call after `n` others.
abbrev nth_id : ℕ → IdGenerator → ℕ
nth_id n g = (next (after n g)).0

-- The ID that follows `n` others counts on from the generator's value and wraps at 65536.
nth_id-eq : (n : ℕ) (g : IdGenerator) → nth_id n g ≡ (g.val + n + 1) % 65536
nth_id-eq zero g = unfold next in omega arith
nth_id-eq (suc n) g = nth_id-eq n (next g).1 ∙ unfold next in omega arith

-- Fewer than 65536 calls apart, two packets never get the same ID.
nth_id-ne : (m n : ℕ) (g : IdGenerator) → m < n → n < m + 65536 → nth_id m g ≢ nth_id n g
nth_id-ne m n g lt near e = omega (arith, nth_id-eq m g, nth_id-eq n g)
