-- ===== src/Argon/Index.antt =====
-- Where the reference block of Argon2id is: always in the memory, and in the first pass before the
-- block that is filled, in the same lane.
use crap_os.Base.{
  ==_iff, ◌≢◌, ◌⊎◌, ℕ, suc, ◌+◌, ◌-◌, ◌*◌, ◌/◌, ◌%◌, ◌^◌, ◌≤◌, ◌<◌, ◌≡◌, refl, ap, ◌∙◌, true, false,
  ◌&&◌, ◌==◌, arith, inl, inr, Bool-cases,
}
use crap_os.Argon.{
  Segment, area_of, index_alpha, previous, reference_area, reference_start, relative_position,
}
use crap_os.Tasks.Outcome.{done, Ends, sub, sub-done}
use native.Mathlib.Nat.{mod-eq_of_lt, mod-lt, mul-le-mul_right}

-- A segment of a memory whose lanes have four segments of a block at least.
pub record IsSegment (seg : Segment) : Type 0 where
  pub in_lanes : seg.lane < seg.p
  pub in_lane : seg.slice < 4
  pub quarters : seg.lane_len ≡ 4 * seg.segment_len
  pub nonempty : 0 < seg.segment_len

-- A position in the segment that is filled.
pub record IsFilled (seg : Segment) (s : ℕ) : Type 0 where
  pub inside : s < seg.segment_len
  pub started : seg.pass ≡ 0 → 2 ≤ seg.slice * seg.segment_len + s

abbrev pub block_at : Segment → ℕ → ℕ
block_at seg s = seg.lane * seg.lane_len + seg.slice * seg.segment_len + s

mul_mono : (k m n : ℕ) → k ≤ m → k * n ≤ m * n
mul_mono k m n h = mul-le-mul_right n h

pub lane-fits :
    (seg : Segment) → IsSegment seg → seg.lane * seg.lane_len + seg.lane_len ≤ seg.p * seg.lane_len
lane-fits seg h =
    let le = mul_mono (suc seg.lane) seg.p seg.lane_len h.in_lanes in omega (arith, le)

slice-fits :
    (seg : Segment) (s : ℕ)
    → IsSegment seg
    → s < seg.segment_len
    → seg.slice * seg.segment_len + s < seg.lane_len
slice-fits seg s h inside =
    let le = mul_mono (suc seg.slice) 4 seg.segment_len h.in_lane in omega (arith, le, h.quarters)

pub block_at-fits :
    (seg : Segment) (s : ℕ)
    → IsSegment seg
    → s < seg.segment_len
    → block_at seg s < seg.p * seg.lane_len
block_at-fits seg s h inside = omega (arith, lane-fits seg h, slice-fits seg s h inside)

area_of-Ends :
    (seg : Segment) (s in_slice : ℕ)
    → IsSegment seg
    → IsFilled seg s
    → ((seg.pass == 0) && (seg.slice == 0) ≡ false → in_slice ≡ s)
    → Ends
        (λ area. seg.pass ≡ 0 → area + 1 ≡ seg.slice * seg.segment_len + s)
        (area_of seg (seg.slice * seg.segment_len + s) in_slice)
area_of-Ends seg s in_slice h f same =
    let rel = seg.slice * seg.segment_len + s in
    let begun = f.started in
    elim (Bool-cases (seg.pass == 0)) [
      | inl e ↦
          let first : seg.pass ≡ 0 = ground arith in
          let two = begun first in
          elim (Bool-cases (seg.slice == 0)) [
            | inl e' ↦ (
              rel - 1,
              rw (e, e', sub-done rel 1 (omega (arith, two))) refl,
              λ _. omega (arith, two),
            )
            | inr e' ↦
                let n = same (ground (arith, e, e')) in
                (
                  rel - 1,
                  rw (e, e', n, sub-done rel 1 (omega (arith, two))) refl,
                  λ _. omega (arith, two),
                )
          ]
      | inr e ↦
          let n = same (ground (arith, e)) in
          let others = sub-done seg.lane_len seg.segment_len (omega (arith, h.quarters)) in
          let area =
            sub-done (seg.lane_len - seg.segment_len + s) 1
              (omega (arith, h.quarters, h.nonempty)) in
          let lanes = sub-done seg.p 1 (omega (arith, h.in_lanes)) in
          (
            seg.lane_len - seg.segment_len + s - 1 + (seg.p - 1) * seg.lane_len,
            rw (e, n, others, area, lanes) refl,
            λ first. ground arith,
          )
    ]

pub reference_area-Ends :
    (seg : Segment) (s : ℕ)
    → IsSegment seg
    → IsFilled seg s
    → Ends
        (λ area. seg.pass ≡ 0 → area + 1 ≡ seg.slice * seg.segment_len + s)
        (reference_area seg (block_at seg s))
reference_area-Ends seg s h f =
    let rel = seg.slice * seg.segment_len + s in
    let rel? : sub (block_at seg s) (seg.lane * seg.lane_len) ≡ done rel =
      sub-done (block_at seg s) (seg.lane * seg.lane_len) (omega arith) ∙ ap done (omega arith) in
    let in? : sub rel (seg.slice * seg.segment_len) ≡ done s =
      sub-done rel (seg.slice * seg.segment_len) (omega arith) ∙ ap done (omega arith) in
    elim (Bool-cases ((seg.pass == 0) && (seg.slice == 0))) [
      | inl e ↦
          let (area, e', first) = area_of-Ends seg s rel h f (λ c. ground arith) in
          (area, rw rel? (rw e e'), first)
      | inr e ↦
          let (area, e', first) = area_of-Ends seg s s h f (λ c. refl) in
          (area, rw rel? (rw e (rw in? e')), first)
    ]

-- The reference block is one of the memory. In the first pass it is in the same lane, before the block
-- that is filled.
pub index_alpha-Ends :
    (pseudo_rand : ℕ) (seg : Segment) (s : ℕ)
    → IsSegment seg
    → IsFilled seg s
    → Ends
        (λ i.
          (i < seg.p * seg.lane_len)
          × (seg.pass ≡ 0 → (seg.lane * seg.lane_len ≤ i) × (i < block_at seg s)))
        (index_alpha pseudo_rand seg (block_at seg s))
unfolding index_alpha
index_alpha-Ends pseudo_rand seg s h f =
    let (area, e, first) = reference_area-Ends seg s h f in
    let lane = lane-fits seg h in
    let fits = block_at-fits seg s h f.inside in
    let blocks = seg.p * seg.lane_len in
    let some_blocks : (blocks == 0) ≡ false = ground (arith, lane, h.quarters, h.nonempty) in
    let start = reference_start seg in
    elim (Bool-cases (area == 0)) [
      | inl z ↦
          let none_yet : area ≡ 0 = ground arith in
          (
            seg.lane * seg.lane_len,
            rw e (rw z refl),
            (
              omega (arith, lane, h.quarters, h.nonempty),
              λ p.
                  (let n = first p in
                    let two = f.started p in absurd (omega (arith, n, two, none_yet))),
            ),
          )
      | inr more ↦
          let z =
            (pseudo_rand % 2 ^ 32 + pseudo_rand % 2 ^ 32 * (pseudo_rand % 2 ^ 32) / 2 ^ 32) / 2 in
          let some_area : 0 < area = ground arith in
          let target = start + relative_position pseudo_rand area in
          (
            target % blocks,
            rw e (rw (more, some_blocks) refl),
            (
              mod-lt target (omega (arith, lane, h.quarters, h.nonempty)),
              λ p.
                  (let zero_pass : (seg.pass == 0) ≡ true = ground arith in
                    let at : start ≡ seg.lane * seg.lane_len = rw zero_pass refl in
                    let n = first p in
                    let near : target < block_at seg s = omega (arith, at, n, some_area) in
                    let stays =
                      mod-eq_of_lt {n = target} {m = blocks} (omega (arith, near, fits)) in
                    (omega (arith, stays, at), omega (arith, stays, near))),
            ),
          )
    ]

pub previous-Ends :
    (seg : Segment) (s : ℕ)
    → IsSegment seg
    → s < seg.segment_len
    → Ends (λ i. i < seg.p * seg.lane_len) (previous seg (block_at seg s))
previous-Ends seg s h inside =
    let lane = lane-fits seg h in
    let fits = block_at-fits seg s h inside in
    elim (Bool-cases (block_at seg s == seg.lane * seg.lane_len)) [
      | inl e ↦
          let back =
            sub-done (seg.lane * seg.lane_len + seg.lane_len) 1
              (omega (arith, h.quarters, h.nonempty)) in
          (
            seg.lane * seg.lane_len + seg.lane_len - 1,
            rw (e, back) refl,
            omega (arith, lane, h.quarters, h.nonempty),
          )
      | inr e ↦
          let back = sub-done (block_at seg s) 1 (ground arith) in
          (block_at seg s - 1, rw (e, back) refl, omega (arith, fits))
    ]

-- For a block that is filled in a segment of a lane, whatever the pseudo-random word, `index_alpha`
-- returns the index of a block of the memory. In the first pass it is in the same lane, before the
-- block that is filled.
pub index_alpha-inside :
    (pseudo_rand : ℕ) (seg : Segment) (s : ℕ)
    → IsSegment seg
    → IsFilled seg s
    → Ends
        (λ i.
          (i < seg.p * seg.lane_len)
          × ((seg.pass ≢ 0) ⊎ ((seg.lane * seg.lane_len ≤ i) × (i < block_at seg s))))
        (index_alpha pseudo_rand seg (block_at seg s))
index_alpha-inside pseudo_rand seg s h f =
    let (i, e, (inside, first)) = index_alpha-Ends pseudo_rand seg s h f in
    (
      i,
      e,
      (
        inside,
        (elim (Bool-cases (seg.pass == 0)) [
          | inl z ↦ inr (first ((==_iff seg.pass 0).0 z))
          | inr z ↦ inl (ground arith)
        ]),
      ),
    )
