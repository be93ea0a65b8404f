-- ===== src/Tests/Dscale.antt =====
-- dscale.c on one number of each width.
use reiser.Base.{ℕ, ◌≡◌, refl, List, [], ◌∷◌, ◌==◌, arith}
use reiser.Dscale.Codec.{dscale_write, dscale_fit, dscale_bytes_to_write}
use reiser.Dscale.RoundTrip.{Stored, read-write, dscale_fit_lem}

abbrev memory : List ℕ
memory = 9 ∷ 9 ∷ 9 ∷ 9 ∷ 9 ∷ 9 ∷ 9 ∷ 9 ∷ 9 ∷ 9 ∷ 9 ∷ []

one_byte : dscale_write memory 5 ≡ (5 ∷ 9 ∷ 9 ∷ 9 ∷ 9 ∷ 9 ∷ 9 ∷ 9 ∷ 9 ∷ 9 ∷ 9 ∷ [], 1)
unfolding dscale_write
one_byte = refl

two_bytes : dscale_write memory 0x1234 ≡ (0x52 ∷ 0x34 ∷ 9 ∷ 9 ∷ 9 ∷ 9 ∷ 9 ∷ 9 ∷ 9 ∷ 9 ∷ 9 ∷ [], 2)
unfolding dscale_write
two_bytes = refl

-- The six low bits of the byte in front of a wide number are what they were.
nine_bytes :
    dscale_write memory 0x123456789
    ≡ (0xc9 ∷ 0 ∷ 0 ∷ 0 ∷ 1 ∷ 0x23 ∷ 0x45 ∷ 0x67 ∷ 0x89 ∷ 9 ∷ 9 ∷ [], 9)
unfolding dscale_write
nine_bytes = refl

read-write_example : let r = dscale_write memory 0x12345678 in Stored 0x12345678 memory r.0 r.1
read-write_example =
    read-write 0x12345678 9 (9 ∷ 9 ∷ 9 ∷ 9 ∷ 9 ∷ 9 ∷ 9 ∷ 9 ∷ 9 ∷ 9 ∷ []) (omega arith) (omega arith)

dscale_fit_lem_example : dscale_fit 63 64 ≡ (dscale_bytes_to_write 63 == dscale_bytes_to_write 64)
dscale_fit_lem_example = dscale_fit_lem 63 64
