-- ===== src/Bitmap/Checksum.antt =====
-- reiser4_adler32 and adler32_recalc. The sums are `__u32`; `|` joins fields that share no bit.
use reiser.Base.{ℕ, zero, suc, ◌+◌, ◌-◌, ◌*◌, ◌/◌, ◌%◌, ◌^◌, List, [], ◌∷◌, to_u32, length}

abbrev pub adler_base : ℕ
adler_base = 65521

abbrev pub adler_nmax : ℕ
adler_nmax = 5552

-- `while (k--)`: the data that is left, `s1` and `s2`. It stops at the end of the data, since `k` is
-- at most what is left of it.
unfoldable pub adler_chunk : ℕ → List ℕ → ℕ → ℕ → List ℕ × ℕ × ℕ
adler_chunk zero t s1 s2 = (t, s1, s2)
adler_chunk (suc k) [] s1 s2 = ([], s1, s2)
adler_chunk (suc k) (x ∷ t) s1 s2 =
    let s1' = to_u32 (s1 + x) in adler_chunk k t s1' (to_u32 (s2 + s1'))

-- `while (len > 0)`; a round takes a byte at least, so the length of the data is fuel enough.
unfoldable pub adler_loop : ℕ → List ℕ → ℕ → ℕ → ℕ × ℕ
unfolding adler_chunk
adler_loop fuel [] s1 s2 = (s1, s2)
adler_loop zero (x ∷ t) s1 s2 = (s1, s2)
adler_loop (suc fuel) (x ∷ t) s1 s2 =
    let (rest, s1', s2') = adler_chunk adler_nmax (x ∷ t) s1 s2 in
    adler_loop fuel rest (s1' % adler_base) (s2' % adler_base)

abbrev pub join : ℕ × ℕ → ℕ
join (s1, s2) = s2 * 2 ^ 16 + s1

unfoldable pub adler32 : List ℕ → ℕ
unfolding adler_loop
adler32 data' = join (adler_loop (length data') data' 1 0)

-- `data - old_data` is a sum of `int`s with 2 * ADLER_BASE, and so not negative.
unfoldable pub adler32_recalc : ℕ → ℕ → ℕ → ℕ → ℕ
adler32_recalc adler old_data data' tail =
    let delta = data' + 2 * adler_base - old_data in
    let s1 = to_u32 (delta + adler % 2 ^ 16) % adler_base in
    let s2 = to_u32 (to_u32 (delta * tail) + adler / 2 ^ 16 % 2 ^ 16) % adler_base in join (s1, s2)
