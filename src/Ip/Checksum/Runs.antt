-- ===== src/Ip/Checksum/Runs.antt =====
-- Runs of the checksums, and their theorems at concrete bytes.
use gonet.Prelude.{ℕ, ◌≡◌, refl, true, List, [], ◌∷◌, ◌++◌, arith}
use gonet.Prelude.Net.{to4}
use gonet.Ip.Checksum.{
  checksum, verify_checksum, tcp_checksum, fold_sum, add_words, add_addresses, add_address,
}
use gonet.Ip.Checksum.Closed.{checksum-ones}

abbrev words : List ℕ
words = 0x45 ∷ 0x00 ∷ 0x00 ∷ 0x73 ∷ []

abbrev more_words : List ℕ
more_words = 0xff ∷ 0xff ∷ 0x12 ∷ []

checksum_run : checksum (words ++ more_words) ≡ 0xa88c
unfolding checksum add_words fold_sum
checksum_run = refl

checksum-ones_example : checksum words ≡ 0xba8c
checksum-ones_example = checksum-ones words (omega arith)

abbrev summed : List ℕ
summed = 0x45 ∷ 0x00 ∷ 0xba ∷ 0xff ∷ []

summed_verifies : verify_checksum summed ≡ true
unfolding verify_checksum checksum add_words fold_sum
summed_verifies = refl

abbrev client : List ℕ
client = 10 ∷ 0 ∷ 0 ∷ 1 ∷ []

abbrev server : List ℕ
server = 10 ∷ 0 ∷ 0 ∷ 2 ∷ []

tcp_checksum_run : tcp_checksum client server words ≡ 0xa67f
unfolding tcp_checksum fold_sum add_words add_addresses add_address to4
tcp_checksum_run = refl
