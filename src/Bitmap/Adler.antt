-- ===== src/Bitmap/Adler.antt =====
-- The checksum: no sum wraps, and a changed byte needs no second pass over the data.
use mathlib.Core.Path.{subst, ap₂}
use reiser.Base.{
  ℕ, zero, suc, ◌+◌, ◌-◌, ◌*◌, ◌/◌, ◌%◌, ◌^◌, ◌≤◌, ◌<◌, ◌≡◌, refl, sym, ap, ◌∙◌, List, [], ◌∷◌,
  ◌++◌, to_u32, length, arith,
}
use reiser.Bitmap.Checksum.{
  adler_base, adler_nmax, adler_chunk, adler_loop, join, adler32, adler32_recalc,
}

abbrev pub AreBytes : List ℕ → Type 0
AreBytes [] = Unit
AreBytes (x ∷ xs) = (x < 256) × AreBytes xs

-- The two sums as numbers without bound.
abbrev pub sums : List ℕ → ℕ → ℕ → ℕ × ℕ
sums [] a b = (a, b)
sums (x ∷ xs) a b = sums xs (a + x) (b + (a + x))

abbrev reduced : ℕ × ℕ → ℕ × ℕ
reduced (a, b) = (a % adler_base, b % adler_base)

-- The greatest second sum after `i` bytes of a chunk.
bound : ℕ → ℕ
bound zero = 65520
bound (suc i) = bound i + (65520 + 255 * suc i)

bound_closed : (i : ℕ) → 2 * bound i ≡ 131040 * (i + 1) + 255 * (i * (i + 1))
unfolding bound
bound_closed zero = refl
bound_closed (suc i) = omega (arith, bound_closed i)

square_mono : (i n : ℕ) → i ≤ n → i * (i + 1) ≤ n * (n + 1)
square_mono i n h = grind arith

bound_fits : (i : ℕ) → i ≤ 5552 → bound i < 2 ^ 32
bound_fits i h = omega (arith, bound_closed i, square_mono i 5552 h)

-- What a chunk leaves has the sums of all the data, and no number wrapped.
abbrev Chunked : List ℕ → ℕ → ℕ → List ℕ × ℕ × ℕ → Type 0
Chunked xs a b (rest, a', b') = (sums rest a' b' ≡ sums xs a b) × AreBytes rest

chunk_lem :
    (k i : ℕ) (xs : List ℕ) (a b : ℕ)
    → i + k ≤ 5552
    → AreBytes xs
    → a ≤ 65520 + 255 * i
    → b ≤ bound i
    → Chunked xs a b (adler_chunk k xs a b)
unfolding adler_chunk
chunk_lem zero i xs a b e h ha hb = (refl, h)
chunk_lem (suc k) i [] a b e h ha hb = (refl, h)
chunk_lem (suc k) i (x ∷ xs) a b e h ha hb =
    let next : b + (a + x) ≤ bound (suc i) = unfold bound in omega arith in
    let fits = bound_fits (suc i) (omega arith) in
    let first : to_u32 (a + x) ≡ a + x = omega arith in
    let second : to_u32 (b + (a + x)) ≡ b + (a + x) = omega arith in
    subst (λ p. Chunked (x ∷ xs) a b (adler_chunk k xs p (to_u32 (b + p)))) (sym first)
      (subst (λ q. Chunked (x ∷ xs) a b (adler_chunk k xs (a + x) q)) (sym second)
        (chunk_lem k (suc i) xs (a + x) (b + (a + x)) (omega arith) h.1 (omega arith) next))

shorter : (k : ℕ) (xs : List ℕ) (a b : ℕ) → length (adler_chunk k xs a b).0 ≤ length xs
unfolding adler_chunk
shorter zero xs a b = omega arith
shorter (suc k) [] a b = omega arith
shorter (suc k) (x ∷ xs) a b =
    omega (arith, shorter k xs (to_u32 (a + x)) (to_u32 (b + to_u32 (a + x))))

chunk_shorter :
    (k x : ℕ) (xs : List ℕ) (a b : ℕ) → length (adler_chunk (suc k) (x ∷ xs) a b).0 ≤ length xs
unfolding adler_chunk
chunk_shorter k x xs a b = shorter k xs (to_u32 (a + x)) (to_u32 (b + to_u32 (a + x)))

-- Reduction before the rest of the data changes no reduced sum.
sums-reduced :
    (xs : List ℕ) (a b c d : ℕ)
    → a % 65521 ≡ c % 65521
    → b % 65521 ≡ d % 65521
    → reduced (sums xs a b) ≡ reduced (sums xs c d)
sums-reduced [] a b c d p q = ground arith
sums-reduced (x ∷ xs) a b c d p q =
    sums-reduced xs (a + x) (b + (a + x)) (c + x) (d + (c + x)) (omega arith) (omega arith)

loop_lem :
    (fuel : ℕ) (xs : List ℕ) (a b : ℕ)
    → length xs ≤ fuel
    → AreBytes xs
    → a < 65521
    → b < 65521
    → adler_loop fuel xs a b ≡ reduced (sums xs a b)
unfolding adler_loop
loop_lem zero [] a b e h ha hb = ground arith
loop_lem (suc fuel) [] a b e h ha hb = ground arith
loop_lem zero (x ∷ xs) a b e h ha hb = absurd (omega arith)
loop_lem (suc fuel) (x ∷ xs) a b e h ha hb =
    let (rest, a', b') = adler_chunk adler_nmax (x ∷ xs) a b in
    let (same, bytes) =
      chunk_lem adler_nmax 0 (x ∷ xs) a b (omega arith) h (omega arith)
        (unfold bound in omega arith) in
    let less = chunk_shorter 5551 x xs a b in
    loop_lem fuel rest (a' % 65521) (b' % 65521) (omega arith) bytes (omega arith) (omega arith)
    ∙ sums-reduced rest (a' % 65521) (b' % 65521) a' b' (omega arith) (omega arith)
    ∙ ap reduced same

-- reiser4_adler32 of bytes, of any number of them, is made of the two sums of Adler-32, taken of all
-- the bytes without any wrap-around, modulo 65521.
pub adler32_lem :
    (xs : List ℕ)
    → AreBytes xs
    → adler32 xs ≡ (sums xs 1 0).1 % 65521 * 2 ^ 16 + (sums xs 1 0).0 % 65521
unfolding adler32
adler32_lem xs h = ap join (loop_lem (length xs) xs 1 0 (omega arith) h (omega arith) (omega arith))

-- How the sums depend on what they start from.
sums-from :
    (xs : List ℕ) (a b c d : ℕ)
    → ((sums xs a b).0 + c ≡ (sums xs c d).0 + a)
      × ((sums xs a b).1 + d + c * length xs ≡ (sums xs c d).1 + b + a * length xs)
sums-from [] a b c d = omega arith
sums-from (x ∷ xs) a b c d =
    let ih = sums-from xs (a + x) (b + (a + x)) (c + x) (d + (c + x)) in
    (omega (arith, ih.0), omega (arith, ih.1))

-- One byte of the data changed: the sums before and after, as numbers without bound.
sums-changed :
    (before after : List ℕ) (old new a b : ℕ)
    → ((sums (before ++ new ∷ after) a b).0 + old ≡ (sums (before ++ old ∷ after) a b).0 + new)
      × ((sums (before ++ new ∷ after) a b).1 + old * (length after + 1)
          ≡ (sums (before ++ old ∷ after) a b).1 + new * (length after + 1))
sums-changed [] after old new a b =
    let f = sums-from after (a + new) (b + (a + new)) (a + old) (b + (a + old)) in
    (omega (arith, f.0), omega (arith, f.1))
sums-changed (x ∷ before) after old new a b =
    sums-changed before after old new (a + x) (b + (a + x))

product_fits : (d t : ℕ) → d ≤ 131297 → t ≤ 32710 → d * t ≤ 131297 * 32710
product_fits d t h k = grind arith

AreBytes-append : (xs ys : List ℕ) → AreBytes xs → AreBytes ys → AreBytes (xs ++ ys)
AreBytes-append [] ys h k = k
AreBytes-append (x ∷ xs) ys h k = (h.0, AreBytes-append xs ys h.1 k)

first_sum :
    (old new a b a' : ℕ)
    → old < 256
    → new < 256
    → a' + old ≡ a + new
    → to_u32 (new + 131042 - old + (b % 65521 * 2 ^ 16 + a % 65521) % 2 ^ 16) % 65521 ≡ a' % 65521
first_sum old new a b a' ho hn ha = omega arith

-- `p`, `o` and `n` stand for the products of the tail with the difference and with the two bytes.
second_sum :
    (p o n t a b b' : ℕ)
    → p + o ≡ n + 131042 * t
    → p ≤ 131297 * 32710
    → b' + o ≡ b + n
    → to_u32 (to_u32 p + (b % 65521 * 2 ^ 16 + a % 65521) / 2 ^ 16 % 2 ^ 16) % 65521 ≡ b' % 65521
second_sum p o n t a b b' e fits hb = omega arith

-- The step on the two sums.
recalc_sums :
    (old new tail a b a' b' : ℕ)
    → old < 256
    → new < 256
    → tail ≤ 32710
    → a' + old ≡ a + new
    → b' + old * tail ≡ b + new * tail
    → adler32_recalc (b % 65521 * 2 ^ 16 + a % 65521) old new tail
      ≡ b' % 65521 * 2 ^ 16 + a' % 65521
unfolding adler32_recalc
recalc_sums old new tail a b a' b' ho hn ht ha hb =
    let delta = new + 131042 - old in
    let multiplied : delta * tail + old * tail ≡ new * tail + 131042 * tail =
      omega (arith, ap (λ (t : ℕ). t * tail) {x = delta + old} {y = new + 131042} (omega arith)) in
    let fits = product_fits delta tail (omega arith) ht in
    ap₂ (λ s1 s2. join (s1, s2)) (first_sum old new a b a' ho hn ha)
      (second_sum (delta * tail) (old * tail) (new * tail) tail a b b' multiplied fits hb)

-- adler32_recalc, for a byte that is changed at most 32710 bytes before the end of the data, itself
-- counted, turns the checksum of the old data into that of the new data.
pub adler32_recalc_lem :
    (before after : List ℕ) (old new : ℕ)
    → AreBytes before
    → AreBytes after
    → old < 256
    → new < 256
    → length after < 32710
    → adler32_recalc (adler32 (before ++ old ∷ after)) old new (length after + 1)
      ≡ adler32 (before ++ new ∷ after)
adler32_recalc_lem before after old new hb ha ho hn hl =
    let c = sums-changed before after old new 1 0 in
    rw
      (
        adler32_lem (before ++ old ∷ after) (AreBytes-append before (old ∷ after) hb (ho, ha)),
        adler32_lem (before ++ new ∷ after) (AreBytes-append before (new ∷ after) hb (hn, ha)),
      )
      (recalc_sums old new (length after + 1) (sums (before ++ old ∷ after) 1 0).0
        (sums (before ++ old ∷ after) 1 0).1 (sums (before ++ new ∷ after) 1 0).0
        (sums (before ++ new ∷ after) 1 0).1 ho hn (omega arith) c.0 c.1)
