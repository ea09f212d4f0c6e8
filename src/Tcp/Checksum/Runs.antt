-- ===== src/Tcp/Checksum/Runs.antt =====
-- Runs of the checksum calculator, and its theorem at a concrete segment.
use gonet.Prelude.{ℕ, ◌<◌, ◌≡◌, refl, true, List, [], ◌∷◌, arith, ok}
use gonet.Tcp.Checksum.{new_checksum_calculator, verify, set_and_compute}
use gonet.Tcp.Checksum.SetAndCompute.{with_field, verify-set_and_compute}

abbrev client : List ℕ
client = 10 ∷ 0 ∷ 0 ∷ 1 ∷ []

abbrev server : List ℕ
server = 10 ∷ 0 ∷ 0 ∷ 2 ∷ []

abbrev syn : List ℕ
syn =
    0xc3 ∷ 0x50 ∷ 0 ∷ 80 ∷ 1 ∷ 2 ∷ 3 ∷ 4 ∷ 0 ∷ 0 ∷ 0 ∷ 0 ∷ 0x50 ∷ 2 ∷ 0xff ∷ 0xff ∷ 7 ∷ 7 ∷ 0 ∷ 0
    ∷ []

short_run :
    set_and_compute {E = ℕ} (new_checksum_calculator client server) (1 ∷ 2 ∷ []) ≡ ok (1 ∷ 2 ∷ [])
unfolding set_and_compute
short_run = refl

verify-set_and_compute_example :
    (field : ℕ) × (field < 65536)
    × (set_and_compute {E = ℕ} (new_checksum_calculator client server) syn
        ≡ ok (with_field field syn))
    × (verify (new_checksum_calculator client server) (with_field field syn) ≡ true)
verify-set_and_compute_example =
    verify-set_and_compute client server syn (omega arith) (omega arith) (omega arith) (omega arith)
      (omega arith)
