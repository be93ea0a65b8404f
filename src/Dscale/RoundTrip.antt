-- ===== src/Dscale/RoundTrip.antt =====
-- What dscale_write stores, dscale_read finds.
use mathlib.Core.Path.{subst}
use reiser.Base.{
  ℕ, ◌+◌, ◌-◌, ◌/◌, ◌%◌, ◌^◌, ◌<◌, ◌≡◌, refl, sym, ap, ◌∙◌, none, some, List, ◌∷◌, ◌++◌,
  if◌then◌else◌, ltb, ◌==◌, Bool-cases, ◌⊎◌, inl, inr, arith,
}
use reiser.Dscale.Codec.{
  be_bytes, be_number, take, drop, or_first, copy_behind, or_tag, gettag, cleartag, dscale_range,
  dscale_read, dscale_bytes_to_read, dscale_write, dscale_bytes_to_write, dscale_fit,
}

-- What is found in memory after a write.
pub record Stored (value : ℕ) (memory after : List ℕ) (n : ℕ) : Type 0 where
  pub found : dscale_read after ≡ some (value, n)
  pub told : dscale_bytes_to_read after ≡ some n
  pub foretold : dscale_bytes_to_write value ≡ n
  pub behind : drop n after ≡ drop n memory

abbrev IsStored : ℕ → List ℕ → List ℕ × ℕ → Type 0
IsStored value memory (after, n) = Stored value memory after n

-- The same calls at a tag that is known.
write_at :
    (tag value : ℕ) (memory : List ℕ)
    → dscale_range value ≡ tag
    → dscale_write memory value ≡ (
      or_first tag
          (copy_behind (if tag == 3 then 1 else 0) (drop (8 - 2 ^ tag) (be_bytes 8 value)) memory),
      (if tag == 3 then 1 else 0) + 2 ^ tag,
    )
unfolding dscale_write
write_at tag value memory e =
    ap
      (λ (t : ℕ). (
        or_first t
            (copy_behind (if t == 3 then 1 else 0) (drop (8 - 2 ^ t) (be_bytes 8 value)) memory),
        (if t == 3 then 1 else 0) + 2 ^ t,
      ))
      e

read_at :
    (tag : ℕ) (after : List ℕ)
    → gettag after ≡ tag
    → dscale_read after ≡ (
        if tag == 3
        then some (be_number 0 (take 8 (drop 1 after)), 9)
        else if tag == 0
        then some (cleartag (be_number 0 (take 1 after)) 0, 1)
        else if tag == 1
        then some (cleartag (be_number 0 (take 2 after)) 1, 2)
        else if tag == 2
        then some (cleartag (be_number 0 (take 4 after)) 2, 4)
        else none)
unfolding dscale_read
read_at tag after e = rw e

bytes_at :
    (tag : ℕ) (after : List ℕ)
    → gettag after ≡ tag
    → dscale_bytes_to_read after
      ≡ (if ltb tag 3 then some (2 ^ tag) else if tag == 3 then some 9 else none)
unfolding dscale_bytes_to_read
bytes_at tag after e = rw e

told_at :
    (tag value : ℕ)
    → dscale_range value ≡ tag
    → dscale_bytes_to_write value ≡ (if 2 ^ tag == 8 then 2 ^ tag + 1 else 2 ^ tag)
unfolding dscale_bytes_to_write
told_at tag value e = rw e

write_one :
    (value m : ℕ) (memory : List ℕ)
    → dscale_range value ≡ 0
    → value < 64
    → IsStored value (m ∷ memory) (dscale_write (m ∷ memory) value)
unfolding gettag cleartag
write_one value m memory e h =
    let byte : or_tag 0 (value % 256) ≡ value = ground (arith, h) in
    let tag : or_tag 0 (value % 256) / 64 ≡ 0 = omega (arith, byte, h) in
    let after = or_tag 0 (value % 256) ∷ memory in
    subst (IsStored value (m ∷ memory)) (sym (write_at 0 value (m ∷ memory) e)) (record {
      found = read_at 0 after tag ∙ ap (λ v. some (v, 1)) (omega (arith, byte, h));
      told = bytes_at 0 after tag;
      foretold = told_at 0 value e;
      behind = refl;
    })

write_two :
    (value m : ℕ) (memory : List ℕ)
    → dscale_range value ≡ 1
    → value < 2 ^ 14
    → IsStored value (m ∷ memory) (dscale_write (m ∷ memory) value)
unfolding gettag cleartag
write_two value m memory e h =
    let high = value / 256 % 256 in
    let byte : or_tag 1 high ≡ 64 + value / 256 = ground (arith, h) in
    let tag : or_tag 1 high / 64 ≡ 1 = omega (arith, byte, h) in
    let after = or_tag 1 high ∷ value % 256 ∷ drop 1 memory in
    subst (IsStored value (m ∷ memory)) (sym (write_at 1 value (m ∷ memory) e)) (record {
      found = read_at 1 after tag ∙ ap (λ v. some (v, 2)) (omega (arith, byte, h));
      told = bytes_at 1 after tag;
      foretold = told_at 1 value e;
      behind = refl;
    })

write_four :
    (value m : ℕ) (memory : List ℕ)
    → dscale_range value ≡ 2
    → value < 2 ^ 30
    → IsStored value (m ∷ memory) (dscale_write (m ∷ memory) value)
unfolding gettag cleartag
write_four value m memory e h =
    let high = value / 256 / 256 / 256 % 256 in
    let byte : or_tag 2 high ≡ 128 + value / 256 / 256 / 256 = ground (arith, h) in
    let tag : or_tag 2 high / 64 ≡ 2 = omega (arith, byte, h) in
    let after =
      or_tag 2 high ∷ value / 256 / 256 % 256 ∷ value / 256 % 256 ∷ value % 256 ∷ drop 3 memory in
    subst (IsStored value (m ∷ memory)) (sym (write_at 2 value (m ∷ memory) e)) (record {
      found = read_at 2 after tag ∙ ap (λ v. some (v, 4)) (omega (arith, byte, h));
      told = bytes_at 2 after tag;
      foretold = told_at 2 value e;
      behind = refl;
    })

write_nine :
    (value m : ℕ) (memory : List ℕ)
    → dscale_range value ≡ 3
    → value < 2 ^ 64
    → m < 256
    → IsStored value (m ∷ memory) (dscale_write (m ∷ memory) value)
unfolding gettag
write_nine value m memory e h k =
    let tag : or_tag 3 m / 64 ≡ 3 = ground (arith, k) in
    let after = or_tag 3 m ∷ be_bytes 8 value ++ drop 8 memory in
    subst (IsStored value (m ∷ memory)) (sym (write_at 3 value (m ∷ memory) e)) (record {
      found = read_at 3 after tag ∙ ap (λ v. some (v, 9)) (omega (arith, h));
      told = bytes_at 3 after tag;
      foretold = told_at 3 value e;
      behind = refl;
    })

-- A number below 2^64 that dscale_write stores at an address with a byte is what dscale_read finds there,
-- with the number of bytes that the write consumed; dscale_bytes_to_read says the same number of it
-- beforehand from the memory and dscale_bytes_to_write from the number, and the memory behind these bytes
-- is as it was.
pub read-write :
    (value m : ℕ) (memory : List ℕ)
    → value < 2 ^ 64
    → m < 256
    → let r = dscale_write (m ∷ memory) value in Stored value (m ∷ memory) r.0 r.1
unfolding dscale_range
read-write value m memory h k = elim (Bool-cases (ltb 0x3fffffff value)) [
  | inl d ↦ write_nine value m memory (rw d) h k
  | inr d ↦ elim (Bool-cases (ltb 0x3fff value)) [
    | inl c ↦ write_four value m memory (rw (d, c)) (ground (arith, d))
    | inr c ↦ elim (Bool-cases (ltb 0x3f value)) [
      | inl b ↦ write_two value m memory (rw (d, c, b)) (ground (arith, c))
      | inr b ↦ write_one value m memory (rw (d, c, b)) (ground (arith, b))
    ]
  ]
]

abbrev Widths : ℕ → ℕ → Type 0
Widths tag bytes =
    ((tag ≡ 0) × (bytes ≡ 1))
    ⊎ ((tag ≡ 1) × (bytes ≡ 2))
    ⊎ ((tag ≡ 2) × (bytes ≡ 4))
    ⊎ ((tag ≡ 3) × (bytes ≡ 9))

widths : (value : ℕ) → Widths (dscale_range value) (dscale_bytes_to_write value)
unfolding dscale_range
widths value = elim (Bool-cases (ltb 0x3fffffff value)) [
  | inl d ↦ let e : dscale_range value ≡ 3 = (rw d) in inr (inr (inr (e, told_at 3 value e)))
  | inr d ↦ elim (Bool-cases (ltb 0x3fff value)) [
    | inl c ↦ let e : dscale_range value ≡ 2 = (rw (d, c)) in inr (inr (inl (e, told_at 2 value e)))
    | inr c ↦ elim (Bool-cases (ltb 0x3f value)) [
      | inl b ↦ let e : dscale_range value ≡ 1 = (rw (d, c, b)) in inr (inl (e, told_at 1 value e))
      | inr b ↦ let e : dscale_range value ≡ 0 = (rw (d, c, b)) in inl (e, told_at 0 value e)
    ]
  ]
]

-- dscale_fit says of two numbers whether they need the same number of bytes.
pub dscale_fit_lem :
    (value other : ℕ)
    → dscale_fit value other ≡ (dscale_bytes_to_write value == dscale_bytes_to_write other)
unfolding dscale_fit
dscale_fit_lem value other = ground (arith, widths value, widths other)
