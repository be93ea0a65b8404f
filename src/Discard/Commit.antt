-- ===== src/Discard/Commit.antt =====
-- What discard_atom tells the device and what it keeps of the sets of an atom.
use mathlib.Core.List.{Perm}
use native.Mathlib.Nat.{le-div_iff_mul-le, div-lt_iff_lt-mul}
use reiser.Base.{
  ℕ, suc, ◌+◌, ◌-◌, ◌*◌, ◌/◌, ◌%◌, ◌^◌, ◌≤◌, ◌<◌, ◌≡◌, ◌≢◌, refl, sym, ap, ◌∙◌, Bool, true, false,
  ◌&&◌, ◌||◌, not, List, [], ◌∷◌, ◌++◌, inl, inr, if◌then◌else◌, if_cases, ltb, leb, ◌==◌,
  Bool-cases, ℤ, count_if, arith,
}
use reiser.Discard.Extents.{Extent, entry_compare, sort_and_join, iterate}
use reiser.Discard.Atom.{
  Options, Status, success, repeat, failed, State, is_empty, discard_extent, discard_atom,
  discard_atom_post,
}
use reiser.Discard.Cover.{fits, all_fit, covers, covered, covered-append}
use reiser.Discard.Joined.{Apart, is_sorted, sort_and_join_lem}

-- A device that answers each request in its own way and keeps a list of them, the last one first.
abbrev pub logging : (ℕ → ℕ → ℕ) → List (ℕ × ℕ) → (start len : ℕ) → ℕ × List (ℕ × ℕ)
logging answer log start len = (answer start len, (start, len) ∷ log)

-- How often a sector is in a request.
abbrev pub hits : ℕ → List (ℕ × ℕ) → ℕ
hits x log = count_if (λ (r : ℕ × ℕ). leb r.0 x && ltb x (r.0 + r.1)) log

-- How many extents have a block.
abbrev holders : ℕ → List Extent → ℕ
holders b es = count_if (λ e. covers b e) es

below-covered : (k b : ℕ) (es : List Extent) → Apart k es → b < k → covered b es ≡ false
below-covered k b [] a h = refl
below-covered k b (e ∷ es) (l, a) h =
    ground (arith, below-covered (suc (e.start + e.len)) b es a (omega arith))

holders-Apart :
    (k b : ℕ) (es : List Extent) → Apart k es → holders b es ≡ (if covered b es then 1 else 0)
holders-Apart k b [] a = refl
holders-Apart k b (e ∷ es) (l, a) =
    let rest = holders-Apart (suc (e.start + e.len)) b es a in
    elim (Bool-cases (covers b e)) [
      | inl d ↦
          ground (arith, d, rest, below-covered (suc (e.start + e.len)) b es a (ground (arith, d)))
      | inr d ↦ ground (arith, d, rest)
    ]

scaled : (a b c : ℕ) → a ≤ b → a * c ≤ b * c
scaled a b c h = grind arith

first_sector : (spb x a : ℕ) → 0 < spb → leb (a * spb) x ≡ leb a (x / spb)
first_sector spb x a h = elim (Bool-cases (leb a (x / spb))) [
  | inl d ↦ ground (arith, d, (le-div_iff_mul-le {x = a} {y = x} h).0 (ground (arith, d)))
  | inr d ↦ elim (Bool-cases (leb (a * spb) x)) [
    | inl f ↦
        absurd (ground (arith, d, (le-div_iff_mul-le {x = a} {y = x} h).1 (ground (arith, f))))
    | inr f ↦ f ∙ sym d
  ]
]

last_sector : (spb x a : ℕ) → 0 < spb → ltb x (a * spb) ≡ ltb (x / spb) a
last_sector spb x a h = elim (Bool-cases (ltb (x / spb) a)) [
  | inl d ↦ ground (arith, d, (div-lt_iff_lt-mul {x = x} {y = a} h).0 (ground (arith, d)))
  | inr d ↦ elim (Bool-cases (ltb x (a * spb))) [
    | inl f ↦
        absurd (ground (arith, d, (div-lt_iff_lt-mul {x = x} {y = a} h).1 (ground (arith, f))))
    | inr f ↦ f ∙ sym d
  ]
]

-- The sectors of an extent are those of its blocks.
sectors_of :
    (spb nblocks x : ℕ) (e : Extent)
    → 0 < spb
    → e.start + e.len ≤ nblocks
    → fits e ≡ true
    → nblocks * spb < 2 ^ 64
    → let start = e.start * spb % 2 ^ 64 in
      (leb start x && ltb x (start + e.len * spb % 2 ^ 64)) ≡ covers (x / spb) e
sectors_of spb nblocks x e h l f m =
    let s1 : e.start * spb ≤ nblocks * spb = scaled e.start nblocks spb (omega arith) in
    let s2 : e.len * spb ≤ nblocks * spb = scaled e.len nblocks spb (omega arith) in
    let m1 : e.start * spb % 2 ^ 64 ≡ e.start * spb = omega arith in
    let m2 : e.len * spb % 2 ^ 64 ≡ e.len * spb = omega arith in
    let from = first_sector spb x e.start h in
    let to = last_sector spb x (e.start + e.len) h in
    let sum : (e.start + e.len) * spb ≡ e.start * spb + e.len * spb = omega arith in
    rw (m1, m2, from, sym sum, to)

-- The extents end below a block.
abbrev AllBelow : ℕ → List Extent → Type 0
AllBelow n [] = Unit
AllBelow n (e ∷ es) = (e.start + e.len ≤ n) × AllBelow n es

covered-AllBelow :
    (n : ℕ) (es : List Extent)
    → all_fit es ≡ true
    → ((b : ℕ) → covered b es ≡ true → b < n)
    → AllBelow n es
covered-AllBelow n [] f h = tt
covered-AllBelow n (e ∷ es) f h = (
  ground (arith, f, h (e.start + e.len - 1)),
  covered-AllBelow n es (ground (arith, f)) (λ b c. h b (ground (arith, c))),
)

module _ (options : Options) (answer : ℕ → ℕ → ℕ) (nblocks : ℕ) where
  iterate_hits :
      (es : List Extent) (log : List (ℕ × ℕ)) (x : ℕ)
      → let spb = options.blocksize / 512 in
        let r = iterate (discard_extent options (logging answer)) es log in
        0 < spb
        → nblocks * spb < 2 ^ 64
        → AllBelow nblocks es
        → all_fit es ≡ true
        → (hits x r.1 ≤ hits x log + holders (x / spb) es)
          × ((r.0 == 0) ≡ true → hits x r.1 ≡ hits x log + holders (x / spb) es)
  unfolding iterate discard_extent
  iterate_hits [] log x h m l f = (omega arith, λ e. omega arith)
  iterate_hits (e ∷ es) log x h m (l, ls) f =
      let spb = options.blocksize / 512 in
      let start = e.start * spb % 2 ^ 64 in
      let len = e.len * spb % 2 ^ 64 in
      let ret = answer start len in
      let log' = (start, len) ∷ log in
      let here = sectors_of spb nblocks x e h l (ground (arith, f)) m in
      let added : hits x log' ≡ hits x log + (if covers (x / spb) e then 1 else 0) =
        ap (λ b. (if b then 1 else 0) + hits x log) here ∙ omega arith in
      let rest = iterate_hits es log' x h m ls (ground (arith, f)) in
      let more = holders (x / spb) es in
      if_cases
        (λ (r : ℕ × List (ℕ × ℕ)).
          (hits x r.1 ≤ hits x log + holders (x / spb) (e ∷ es))
          × ((r.0 == 0) ≡ true → hits x r.1 ≡ hits x log + holders (x / spb) (e ∷ es)))
        (ret == 0) (λ d. (omega (arith, rest.0, added), λ c. omega (arith, rest.1 c, added)))
        (λ d. (omega (arith, added), λ c. absurd (ground (arith, c, d))))

-- How many of the requests the device fails.
abbrev pub failures : (ℕ → ℕ → ℕ) → List (ℕ × ℕ) → ℕ
failures answer log = count_if (λ (r : ℕ × ℕ). not (answer r.0 r.1 == 0)) log

-- The last request of the log is the only new one that failed, and its answer is `ret`.
abbrev pub Refused : (ℕ → ℕ → ℕ) → (ret : ℕ) → (before after : List (ℕ × ℕ)) → Type 0
Refused answer ret before [] = ⊥
Refused answer ret before (r ∷ after) =
    (ret ≢ 0) × (answer r.0 r.1 ≡ ret) × (failures answer after ≡ failures answer before)

Refused-failures :
    (answer : ℕ → ℕ → ℕ) (ret : ℕ) (before before' after : List (ℕ × ℕ))
    → failures answer before' ≡ failures answer before
    → Refused answer ret before' after
    → Refused answer ret before after
Refused-failures answer ret before before' [] e r = r
Refused-failures answer ret before before' (q ∷ after) e (n, a, f) = (n, a, f ∙ e)

module _ (options : Options) (answer : ℕ → ℕ → ℕ) where
  iterate-failures :
      (es : List Extent) (log : List (ℕ × ℕ))
      → let r = iterate (discard_extent options (logging answer)) es log in
        ((r.0 == 0) ≡ true → failures answer r.1 ≡ failures answer log)
        × ((r.0 == 0) ≡ false → Refused answer r.0 log r.1)
  unfolding iterate discard_extent
  iterate-failures [] log = (λ _. refl, λ d. absurd (ground (arith, d)))
  iterate-failures (e ∷ es) log =
      let spb = options.blocksize / 512 in
      let start = e.start * spb % 2 ^ 64 in
      let len = e.len * spb % 2 ^ 64 in
      let ret = answer start len in
      let log' = (start, len) ∷ log in
      let rest = iterate-failures es log' in
      let P = λ (r : ℕ × List (ℕ × ℕ)).
        ((r.0 == 0) ≡ true → failures answer r.1 ≡ failures answer log)
        × ((r.0 == 0) ≡ false → Refused answer r.0 log r.1) in
      if_cases P (ret == 0)
        (λ d.
          let same : failures answer log' ≡ failures answer log = ground (arith, d) in
          (λ c. rest.0 c ∙ same, λ c. Refused-failures answer _ log log' _ same (rest.1 c)))
        (λ d. (λ c. absurd (ground (arith, c, d)), λ c. (λ z. ground (arith, z, d), refl, refl)))

-- What the status says of the sectors that the device was told of and of its answers, the requests before
-- and after being given.
abbrev pub Told : (ℕ → ℕ → ℕ) → Status → (before after : List (ℕ × ℕ)) → (wanted : ℕ → ℕ) → Type 0
Told answer success before after wanted = after ≡ before
Told answer repeat before after wanted =
    ((x : ℕ) → hits x after ≡ hits x before + wanted x)
    × (failures answer after ≡ failures answer before)
Told answer (failed ret) before after wanted =
    ((x : ℕ) → hits x after ≤ hits x before + wanted x) × Refused answer ret before after

pub record Discarded (answer : ℕ → ℕ → ℕ) (meanwhile : List Extent → List Extent) (spb : ℕ)
    (s : State (List (ℕ × ℕ))) (r : Status × State (List (ℕ × ℕ))) : Type 0 where
  pub told :
      Told answer r.0 s.device r.1.device (λ x. if covered (x / spb) s.delete_set then 1 else 0)
  pub goes_on : r.0 ≢ success
  pub emptied : r.1.delete_set ≡ meanwhile []
  pub kept :
      (b : ℕ) → covered b r.1.processed_set ≡ (covered b s.processed_set || covered b s.delete_set)

-- With the option REISER4_DISCARD, for a delete set that is not empty, whose extents are not empty and
-- end below 2^64 and whose blocks are on a device of `nblocks` blocks with less than 2^64 sectors, and a
-- list_sort that gives a sorted permutation of it, discard_atom tells the device of each sector of each
-- freed block exactly once and of no other sector, no request fails, and it asks to be called again; or
-- it stops at the first request that the device fails and returns the device's error, and no sector
-- was told of more than once. Either way the delete set is what the other tasks make of the empty set
-- while the lock of the atom is free, and the blocks that were in it are now in the processed set.
pub discard_atom_lem :
    (list_sort : (Extent → Extent → ℤ) → List Extent → List Extent) (options : Options)
    (answer : ℕ → ℕ → ℕ) (meanwhile : List Extent → List Extent) (nblocks : ℕ)
    (s : State (List (ℕ × ℕ)))
    → options.discard ≡ true
    → 512 ≤ options.blocksize
    → nblocks * (options.blocksize / 512) < 2 ^ 64
    → is_empty s.delete_set ≡ false
    → all_fit s.delete_set ≡ true
    → ((b : ℕ) → covered b s.delete_set ≡ true → b < nblocks)
    → Perm (list_sort entry_compare s.delete_set) s.delete_set
    → is_sorted (list_sort entry_compare s.delete_set) ≡ true
    → Discarded answer meanwhile
        (options.blocksize / 512)
        s
        (discard_atom list_sort options (logging answer) meanwhile s)
unfolding discard_atom
discard_atom_lem list_sort options answer meanwhile nblocks s on block m full fit below perm
      sorted =
    let spb = options.blocksize / 512 in
    let out = sort_and_join list_sort s.delete_set in
    let j = sort_and_join_lem list_sort s.delete_set perm sorted fit in
    let r = iterate (discard_extent options (logging answer)) out s.device in
    let on_device = covered-AllBelow nblocks out j.fit (λ b c. below b (sym (j.same b) ∙ c)) in
    let h : 0 < spb = omega arith in
    let all = λ (x : ℕ). iterate_hits options answer nblocks out s.device x h m on_device j.fit in
    let told = iterate-failures options answer out s.device in
    let wanted = λ (x : ℕ).
      holders-Apart 0 (x / spb) out j.apart
      ∙ ap (λ (c : Bool). if c then 1 else 0) (j.same (x / spb)) in
    let kept = λ (b : ℕ).
      covered-append b s.processed_set out ∙ ap (λ c. covered b s.processed_set || c) (j.same b) in
    let P = Discarded answer meanwhile spb s in
    if_cases P options.discard
      (λ e.
        if_cases P (is_empty s.delete_set) (λ d. absurd (ground (arith, d, full)))
          (λ d.
            if_cases P (r.0 == 0)
              (λ z. record {
                told = (λ x. (all x).1 z ∙ ap (λ c. hits x s.device + c) (wanted x), told.0 z);
                goes_on = λ c. ground (arith, c);
                emptied = refl;
                kept = kept;
              })
              (λ z. record {
                told = (λ x. omega (arith, (all x).0, wanted x), told.1 z);
                goes_on = λ c. ground (arith, c);
                emptied = refl;
                kept = kept;
              })))
      (λ e. absurd (ground (arith, e, on)))

-- With the option REISER4_DISCARD, discard_atom_post gives the atom all the blocks of the processed set
-- back beside those of its delete set, and leaves the processed set empty.
pub discard_atom_post_lem {ℓ} :
    {S : Type ℓ} (options : Options) (s : State S) (b : ℕ)
    → options.discard ≡ true
    → let s' = discard_atom_post options s in
      (covered b s'.delete_set ≡ (covered b s.delete_set || covered b s.processed_set))
      × (s'.processed_set ≡ [])
unfolding discard_atom_post
discard_atom_post_lem {S = S} options s b e =
    let s' : State S = record s {
      processed_set = [];
      delete_set = s.delete_set ++ s.processed_set;
    } in
    if_cases
      (λ (r : State S).
        (covered b r.delete_set ≡ (covered b s.delete_set || covered b s.processed_set))
        × (r.processed_set ≡ []))
      options.discard (λ d. (covered-append b s.delete_set s.processed_set, refl))
      (λ d. absurd (ground (arith, d, e)))
