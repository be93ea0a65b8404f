-- ===== src/Bitmap/AllocLaws.antt =====
-- What the allocator over all bitmap blocks does to the blocks of the device.
use native.Mathlib.Decide.{dec_le}
use reiser.Base.{
  ℕ, ◌+◌, ◌-◌, ◌*◌, ◌/◌, ◌%◌, ◌≤◌, ◌<◌, ◌≡◌, refl, sym, ap, ◌∙◌, Bool, false, ◌&&◌, ◌||◌, if_cases,
  ◌==◌, arith,
}
use reiser.Bitmap.Bits.{Bits}
use reiser.Bitmap.Scan.{Run}
use reiser.Bitmap.Node.{Bnode, Len, nothing, found, error}
use reiser.Bitmap.Forward.{in_range}
use reiser.Bitmap.NodeSearch.{IsNode, node_bits, NodeResult}
use reiser.Bitmap.Alloc.{Nodes, put_node}
use reiser.Bitmap.Places.{place-other, place_of}

-- Which blocks of the device are in use.
abbrev pub in_use : ℕ → Nodes → Bits
in_use bits nodes b = node_bits (nodes (b / bits)) (b % bits)

abbrev pub AreNodes : Nodes → Type 0
AreNodes nodes = (i : ℕ) → IsNode (nodes i)

-- Nothing changed, and the start is not behind `high`; or `n` blocks from `start` on, all of them free and between `low` and `high`, were
-- taken, at least one and at most `max_len`.
abbrev pub DeviceResult : ℕ → Nodes → (low high max_len : ℕ) → Nodes × ℕ × Len → Type 0
DeviceResult bits nodes low high max_len (nodes', start, nothing) =
    AreNodes nodes' × (start ≤ high) × ((b : ℕ) → in_use bits nodes' b ≡ in_use bits nodes b)
DeviceResult bits nodes low high max_len (nodes', start, error e) =
    AreNodes nodes' × ((b : ℕ) → in_use bits nodes' b ≡ in_use bits nodes b)
DeviceResult bits nodes low high max_len (nodes', start, found n) =
    AreNodes nodes'
    × ((b : ℕ) → in_use bits nodes' b ≡ (in_range start (start + n) b || in_use bits nodes b))
    × Run false (in_use bits nodes) start (start + n)
    × (low ≤ start)
    × (0 < n)
    × (start + n ≤ high)
    × (n ≤ max_len)

pub put_node-AreNodes :
    (nodes : Nodes) (i : ℕ) (bnode : Bnode)
    → AreNodes nodes
    → IsNode bnode
    → AreNodes (put_node nodes i bnode)
put_node-AreNodes nodes i bnode v w k = if_cases IsNode (k == i) (λ _. w) (λ _. v k)

module _ (bits : ℕ) (some_bits : 0 < bits) (nodes : Nodes) (i : ℕ) (bnode : Bnode) where
  pub in_use-same :
      ((j : ℕ) → node_bits bnode j ≡ node_bits (nodes i) j)
      → (b : ℕ) → in_use bits (put_node nodes i bnode) b ≡ in_use bits nodes b
  in_use-same same b =
      let P = λ (n : Bnode). node_bits n (b % bits) ≡ in_use bits nodes b in
      if_cases P (b / bits == i)
        (λ e.
          same (b % bits)
          ∙ ap (λ k. node_bits (nodes k) (b % bits)) {x = i} {y = b / bits} (ground arith))
        (λ _. refl)

  in_range-place :
      (o n b : ℕ)
      → o + n ≤ bits
      → in_range (i * bits + o) (i * bits + o + n) b
        ≡ (b / bits == i && in_range o (o + n) (b % bits))
  in_range-place o n b h =
      let p = place_of b bits some_bits in
      let r : b % bits < bits = omega arith in
      elim (dec_le (b / bits + 1) i) [
        | yes q ↦ ground (arith, place-other (b / bits) i (b % bits) bits (omega arith) r)
        | no q ↦ elim (dec_le (i + 1) (b / bits)) [
          | yes q' ↦ ground (arith, place-other i (b / bits) (o + n - 1) bits (omega arith))
          | no q' ↦
              let e : b / bits ≡ i = omega arith in
              let p' : b ≡ i * bits + b % bits = p ∙ ap (λ k. k * bits + b % bits) e in ground arith
        ]
      ]

  -- A change of a range of bits of one bitmap is the same change of the blocks they stand for.
  pub in_use-changed :
      (f : Bool → Bool → Bool) (o n b : ℕ)
      → ((x : Bool) → f false x ≡ x)
      → o + n ≤ bits
      → ((j : ℕ) → node_bits bnode j ≡ f (in_range o (o + n) j) (node_bits (nodes i) j))
      → in_use bits (put_node nodes i bnode) b
        ≡ f (in_range (i * bits + o) (i * bits + o + n) b) (in_use bits nodes b)
  in_use-changed f o n b outside h changed =
      let r = b % bits in
      let q = b / bits in
      let place = in_range-place o n b h in
      let P = λ (k : Bnode).
        node_bits k r ≡ f (in_range (i * bits + o) (i * bits + o + n) b) (in_use bits nodes b) in
      if_cases P (q == i)
        (λ e.
          let inside : in_range o (o + n) r ≡ in_range (i * bits + o) (i * bits + o + n) b =
            ground (arith, place, e) in
          let same : node_bits (nodes i) r ≡ in_use bits nodes b =
            ap (λ k. node_bits (nodes k) r) {x = i} {y = q} (ground arith) in
          changed r
          ∙ ap (λ c. f c (node_bits (nodes i) r)) inside
          ∙ ap (f (in_range (i * bits + o) (i * bits + o + n) b)) same)
        (λ e.
          let apart : in_range (i * bits + o) (i * bits + o + n) b ≡ false =
            ground (arith, place, e) in
          sym (ap (λ c. f c (in_use bits nodes b)) apart ∙ outside (in_use bits nodes b)))

  free-place :
      (o n : ℕ)
      → o + n ≤ bits
      → Run false (node_bits (nodes i)) o (o + n)
      → Run false (in_use bits nodes) (i * bits + o) (i * bits + o + n)
  free-place o n h free b l g =
      let place = in_range-place o n b h in
      let q : b / bits ≡ i = ground (arith, place) in
      let r = free (b % bits) (ground (arith, place)) (ground (arith, place)) in
      ap (λ k. node_bits (nodes k) (b % bits)) {x = b / bits} {y = i} q ∙ r

  pub NodeResult-DeviceResult :
      (low high max_len o : ℕ) (len : Len)
      → AreNodes nodes
      → high ≤ bits
      → NodeResult (nodes i) low high max_len (bnode, o, len)
      → DeviceResult bits nodes
          (i * bits + low)
          (i * bits + high)
          max_len
          (put_node nodes i bnode, i * bits + o, len)
  NodeResult-DeviceResult low high max_len o nothing v h (w, t, same) =
      (put_node-AreNodes nodes i bnode v w, omega (arith, t), in_use-same same)
  NodeResult-DeviceResult low high max_len o (error e) v h (w, same) =
      (put_node-AreNodes nodes i bnode v w, in_use-same same)
  NodeResult-DeviceResult low high max_len o (found n) v h (w, taken, free, l, s, t, m) = (
    put_node-AreNodes nodes i bnode v w,
    λ b. in_use-changed (λ x y. x || y) o n b (λ x. refl) (omega (arith, t)) taken,
    free-place o n (omega (arith, t)) free,
    omega (arith, l),
    s,
    omega (arith, t),
    m,
  )

-- A search that found nothing, and another one after it.
pub DeviceResult-after :
    (bits : ℕ) (nodes nodes' : Nodes) (low high low' high' max_len : ℕ) (r : Nodes × ℕ × Len)
    → ((b : ℕ) → in_use bits nodes' b ≡ in_use bits nodes b)
    → low ≤ low'
    → high' ≤ high
    → DeviceResult bits nodes' low' high' max_len r
    → DeviceResult bits nodes low high max_len r
DeviceResult-after bits nodes nodes' low high low' high' max_len (n, s, nothing) same l h
      (v, t, f) =
    (v, omega (arith, t), λ b. f b ∙ same b)
DeviceResult-after bits nodes nodes' low high low' high' max_len (n, s, error e) same l h (v, f) =
    (v, λ b. f b ∙ same b)
DeviceResult-after bits nodes nodes' low high low' high' max_len (n, s, found k) same l h
      (v, f, run, a, b, c, d) =
    (
      v,
      λ j. f j ∙ ap (λ x. in_range s (s + k) j || x) (same j),
      λ j g g'. sym (same j) ∙ run j g g',
      omega (arith, a),
      b,
      omega (arith, c),
      d,
    )
