-- ===== src/Logs/Buffer/Reserve.antt =====
-- `reserveFront` makes room in front of the window.
use Prim.Native.Nat.{max}
use openshift_console.Prelude.{
  ℕ, ◌+◌, ◌-◌, ◌/◌, ◌≤◌, ◌≡◌, List, length, arith, refl, ◌∙◌, replicate, leb, Bool-cases, inl, inr,
  length-replicate, leb→le,
}
use openshift_console.Prelude.Arrays.{subarray, write_at, subarray-write_at, length-write_at}
use openshift_console.Logs.Buffer.{LogBuffer}
use openshift_console.Logs.Buffer.Front.{reserve_front}
use openshift_console.Logs.Buffer.View.{live, IsStored}
use openshift_console.Logs.Buffer.Room.{IsMoved, IsMoved-intro}
use openshift_console.Logs.Buffer.Push.{length-window}

-- Room in front: the window moves up by as much as the lines need.
module _ (b : LogBuffer) (v : IsStored b) (count : ℕ) where
  abbrev gap : ℕ
  gap = max count (b.max_lines / 4)

  abbrev live_count : ℕ
  live_count = b.used - b.base

  abbrev capacity : ℕ
  capacity = max (length b.page_of) (gap + live_count + 1)

  module _ (a : List ℕ) (e : length a ≡ length b.page_of) where
    abbrev shifted : List ℕ
    shifted = write_at (replicate capacity 0) (subarray a b.base b.used) gap

    length-shifted : length shifted ≡ capacity
    length-shifted =
        length-write_at (replicate capacity 0) (subarray a b.base b.used) gap
          (omega (arith, length-window b v a e, length-replicate {A = ℕ} capacity 0))
        ∙ length-replicate {A = ℕ} capacity 0

    subarray-shifted : subarray shifted gap (gap + live_count) ≡ subarray a b.base b.used
    subarray-shifted =
        subarray-write_at (replicate capacity 0) (subarray a b.base b.used) gap (gap + live_count)
          (omega (arith, length-window b v a e, length-replicate {A = ℕ} capacity 0))
          (omega (arith, length-window b v a e))

  abbrev reserved : LogBuffer
  reserved = record b {
    page_of = shifted b.page_of refl;
    start_at = shifted b.start_at v.starts;
    end_at = shifted b.end_at v.ends;
    base = gap;
    used = gap + live_count;
  }

  live-reserved : live reserved ≡ live b
  unfolding live
  live-reserved = rw (
    subarray-shifted b.page_of refl,
    subarray-shifted b.start_at v.starts,
    subarray-shifted b.end_at v.ends,
  )

  pub reserve_front_lem : IsMoved b (reserve_front b count) × (count ≤ (reserve_front b count).base)
  unfolding reserve_front
  reserve_front_lem = elim (Bool-cases (leb count b.base)) [
    | inl room ↦ rw room (
      IsMoved-intro b b v (length b.page_of) (refl, v.starts, v.ends) (omega arith)
          (v.ordered, v.in_cells) refl refl (refl, refl, refl, refl) (refl, refl, refl, refl),
      leb→le _ _ room,
    )
    | inr none_left ↦ rw none_left (
      IsMoved-intro b reserved v capacity
          (
            length-shifted b.page_of refl,
            length-shifted b.start_at v.starts,
            length-shifted b.end_at v.ends,
          )
          (omega arith) (omega arith, omega arith) live-reserved (omega arith)
          (refl, refl, refl, refl) (refl, refl, refl, refl),
      omega arith,
    )
  ]
