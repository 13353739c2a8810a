-- ===== src/Transfer/Layout/Fragments.antt =====
-- The fragments of the runs are, in order, the elements of the runs, each inside its span.
use mathlib.Core.List.{append-nil}
use native.Mathlib.Decide.{dec_le}
use awex.Prelude.{
  ℕ, zero, suc, ◌+◌, ◌-◌, ◌≤◌, ◌<◌, ◌≡◌, refl, ap, sym, ◌∙◌, some, List, [], ◌∷◌, ◌++◌, All,
  All-append, get_elem?, take, drop, arith, min, inl, inr, leb, ltb, leb→le, Bool-cases, true,
  false, ◌&&◌, ◌==◌,
}
use awex.Prelude.Outcome.{ok}
use awex.Prelude.Indices.{concat_map, concat_map-append, indices, indices-append}
use awex.Transfer.Layout.{Fragment, span_bounds, skip_spans, cut_run, fragment_loop, sum}
use awex.Transfer.Layout.Cells.{run_indices}
use awex.Transfer.Layout.Ascending.{Ascend, Ascend-le}

abbrev pub AllPos : List ℕ → Type 0
AllPos = All (λ n. 0 < n)

module _ (spans : List ℕ) where
  -- Where a span starts in the tensor, and the flat indices of a fragment.
  abbrev pub span_start : ℕ → ℕ
  span_start index = sum (take index spans)

  abbrev pub fragment_indices : Fragment → List ℕ
  fragment_indices f = indices (span_start f.span_index + f.offset) f.numel

  -- A fragment that is not empty and lies in its span.
  abbrev pub Fits : Fragment → Type 0
  Fits f =
      (n : ℕ) × (get_elem? spans f.span_index ≡ some n) × (0 < f.numel) × (f.offset + f.numel ≤ n)

-- The span at `index` starts at `start`, and the spans from it on are `rest`.
abbrev pub Reached : List ℕ → ℕ → ℕ → List ℕ → Type 0
Reached spans index start rest = (span_start spans index ≡ start) × (drop index spans ≡ rest)

-- One span on.
abbrev Advanced : List ℕ → ℕ → ℕ → List ℕ → Type 0
Advanced spans index n rest =
    (get_elem? spans index ≡ some n)
    × (drop (suc index) spans ≡ rest)
    × (span_start spans (suc index) ≡ span_start spans index + n)

next_span :
    (spans : List ℕ) (index n : ℕ) (rest : List ℕ)
    → drop index spans ≡ n ∷ rest
    → Advanced spans index n rest
next_span [] zero n rest h = cc
next_span [] (suc index) n rest h = cc
next_span (m ∷ spans) zero n rest h = let e : m ≡ n = cc in (ap some e, cc, omega arith)
next_span (m ∷ spans) (suc index) n rest h =
    let (e, e', s) = next_span spans index n rest h in (e, e', omega arith)

module _ (spans : List ℕ) where
  -- Where the first `while` stops: in the span that holds `run_start`.
  record Skipped (index start : ℕ) (rest : List ℕ) (run_start : ℕ) : Type 0 where
    i : ℕ
    s : ℕ
    n : ℕ
    later : List ℕ
    returned :
        skip_spans index (span_bounds start rest) run_start ≡ ok (i, span_bounds s (n ∷ later))
    at : Reached spans i s (n ∷ later)
    low : s ≤ run_start
    high : run_start < s + n
    same_end : s + sum (n ∷ later) ≡ start + sum rest
    positive : AllPos (n ∷ later)

  skip_spans-Skipped :
      (index start : ℕ) (rest : List ℕ) (run_start : ℕ)
      → Reached spans index start rest
      → start ≤ run_start
      → run_start < start + sum rest
      → AllPos rest
      → Skipped index start rest run_start
  skip_spans-Skipped index start [] run_start at low high positive = absurd (omega arith)
  skip_spans-Skipped index start (n ∷ rest) run_start (at, left) low high (p, positive) =
      elim (Bool-cases (leb (start + n) run_start)) [
        | inr inside ↦ record {
          i = index;
          s = start;
          n = n;
          later = rest;
          returned = rw inside refl;
          at = (at, left);
          low = low;
          high = ground arith;
          same_end = refl;
          positive = (p, positive);
        }
        | inl past ↦
            let (e, left', step) = next_span spans index n rest left in
            let r =
              skip_spans-Skipped (suc index) (start + n) rest run_start
                (step ∙ ap (λ k. k + n) at, left') (leb→le (start + n) run_start past) (omega arith)
                positive in
            record {
              i = r.i;
              s = r.s;
              n = r.n;
              later = r.later;
              returned = rw past r.returned;
              at = r.at;
              low = r.low;
              high = r.high;
              same_end = omega (arith, r.same_end);
              positive = r.positive;
            }
      ]

  -- What the second `while` makes of `current` to `run_end`.
  record Pieces (index start : ℕ) (rest : List ℕ) (current run_end : ℕ) : Type 0 where
    fragments : List Fragment
    i : ℕ
    s : ℕ
    later : List ℕ
    returned :
        cut_run index (span_bounds start rest) current run_end
        ≡ ok (fragments, (i, span_bounds s later))
    covered : concat_map (fragment_indices spans) fragments ≡ indices current (run_end - current)
    fit : All (Fits spans) fragments
    at : Reached spans i s later
    low : s ≤ run_end
    same_end : s + sum later ≡ start + sum rest
    positive : AllPos later

  module _ (index start n : ℕ) (rest : List ℕ) (current : ℕ)
      (at : Reached spans index start (n ∷ rest)) (low : start ≤ current) where
    place : span_start spans index + (current - start) ≡ current
    place = omega (arith, at.0)

    cut_run-last :
        (run_end : ℕ)
        → current < run_end
        → run_end ≤ start + n
        → AllPos (n ∷ rest)
        → Pieces index start (n ∷ rest) current run_end
    cut_run-last run_end more last positive =
        let m : min run_end (start + n) ≡ run_end = omega arith in
        let b : ltb current run_end ≡ true = ground arith in
        let stop : ((run_end == start + n) && ltb run_end run_end) ≡ false = ground arith in
        let (e, left', step) = next_span spans index n rest at.1 in
        record {
          fragments =
              record { span_index = index; offset = current - start; numel = run_end - current }
              ∷ [];
          i = index;
          s = start;
          later = n ∷ rest;
          returned = rw (b, m, stop) refl;
          covered = append-nil _ ∙ ap (λ k. indices k (run_end - current)) place;
          fit = ((n, e, omega arith, omega arith), tt);
          at = at;
          low = omega arith;
          same_end = refl;
          positive = positive;
        }

    -- A round that fills the rest of its span, and those after it.
    cut_run-next :
        (run_end : ℕ)
        → current < start + n
        → start + n < run_end
        → Pieces (suc index) (start + n) rest (start + n) run_end
        → Pieces index start (n ∷ rest) current run_end
    cut_run-next run_end high beyond r =
        let m : min run_end (start + n) ≡ start + n = omega arith in
        let b : ltb current run_end ≡ true = ground arith in
        let go : ((start + n == start + n) && ltb (start + n) run_end) ≡ true = ground arith in
        let (e, left', step) = next_span spans index n rest at.1 in
        let whole : start + n - current + (run_end - (start + n)) ≡ run_end - current =
          omega arith in
        let meet : current + (start + n - current) ≡ start + n = omega arith in
        record {
          fragments =
              record { span_index = index; offset = current - start; numel = start + n - current }
              ∷ r.fragments;
          i = r.i;
          s = r.s;
          later = r.later;
          returned = rw (b, m, go, r.returned) refl;
          covered =
              rw
                (
                  r.covered,
                  place,
                  sym whole,
                  indices-append (start + n - current) (run_end - (start + n)) current,
                  meet,
                )
                refl;
          fit = ((n, e, omega arith, omega arith), r.fit);
          at = r.at;
          low = r.low;
          same_end = omega (arith, r.same_end);
          positive = r.positive;
        }

  cut_run-Pieces :
      (index start n : ℕ) (rest : List ℕ) (current run_end : ℕ)
      → Reached spans index start (n ∷ rest)
      → start ≤ current
      → current < start + n
      → current < run_end
      → run_end ≤ start + sum (n ∷ rest)
      → AllPos (n ∷ rest)
      → Pieces index start (n ∷ rest) current run_end
  cut_run-Pieces index start n [] current run_end at low high more inside positive =
      cut_run-last index start n [] current at low run_end more (omega arith) positive
  cut_run-Pieces index start n (n' ∷ rest) current run_end at low high more inside positive =
      elim (dec_le run_end (start + n)) [
        | yes last ↦
            cut_run-last index start n (n' ∷ rest) current at low run_end more last positive
        | no beyond ↦
            let (e, left', step) = next_span spans index n (n' ∷ rest) at.1 in
            cut_run-next index start n (n' ∷ rest) current at low run_end high (omega arith) (
              cut_run-Pieces (suc index) (start + n) n' rest (start + n) run_end
                (step ∙ ap (λ k. k + n) at.0, left') (omega arith) (omega (arith, positive.1.0))
                (omega arith) (omega arith) positive.1)
      ]

  -- For runs that follow one another inside the spans, the fragments are found, each lies in its
  -- span, and together they are the runs.
  pub fragment_loop-covers :
      (index start : ℕ) (rest : List ℕ) (low high : ℕ) (runs : List (ℕ × ℕ))
      → Reached spans index start rest
      → start ≤ low
      → high ≤ start + sum rest
      → AllPos rest
      → Ascend low high runs
      → (fragments : List Fragment) × (fragment_loop (index, span_bounds start rest) runs
          ≡ ok fragments)
        × (concat_map (fragment_indices spans) fragments ≡ concat_map run_indices runs)
        × All (Fits spans) fragments
  fragment_loop-covers index start rest low high [] at b inside positive up = ([], refl, refl, tt)
  fragment_loop-covers index start rest low high (run ∷ runs) at b inside positive
        (up, some_cell, ups) =
      let top = Ascend-le (run.0 + run.1) high runs ups in
      let k = skip_spans-Skipped index start rest run.0 at (omega arith) (omega arith) positive in
      let c =
        cut_run-Pieces k.i k.s k.n k.later run.0 (run.0 + run.1) k.at k.low k.high (omega arith)
          (omega (arith, k.same_end)) k.positive in
      let (fs, returned, covered, fit) =
        fragment_loop-covers c.i c.s c.later (run.0 + run.1) high runs c.at c.low
          (omega (arith, k.same_end, c.same_end)) c.positive ups in
      let size : run.0 + run.1 - run.0 ≡ run.1 = omega arith in
      let first : concat_map (fragment_indices spans) c.fragments ≡ run_indices run =
        c.covered ∙ ap (indices run.0) size in
      (
        c.fragments ++ fs,
        rw (k.returned, c.returned, returned) refl,
        rw (concat_map-append (fragment_indices spans) c.fragments fs, first, covered) refl,
        All-append (Fits spans) c.fragments fs c.fit fit,
      )
