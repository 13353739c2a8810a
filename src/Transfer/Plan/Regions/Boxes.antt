-- ===== src/Transfer/Plan/Regions/Boxes.antt =====
-- The boxes of cells behind shards and regions: an overlap is the common part of two boxes.
use awex.Prelude.{
  ℕ, ◌≡◌, refl, Bool, true, false, ◌&&◌, none, some, List, [], ◌∷◌, min, max, length, leb, ltb,
  arith, Bool-cases, inl, inr,
}
use awex.Prelude.Outcome.{ok, bind-eq-ok, ok-injective}
use awex.Transfer.Plan.Regions.Overlap.{Bounds, put_bounds, overlap_dims}

-- Whether a cell of the parameter lies between two corners.
abbrev pub in_box : List ℕ → List ℕ → List ℕ → Bool
in_box [] [] [] = true
in_box (s ∷ start) (e ∷ end) (c ∷ cell) = leb s c && ltb c e && in_box start end cell
in_box _ _ _ = false

abbrev pub in_bounds : Bounds → List ℕ → Bool
in_bounds none cell = false
in_bounds (some (starts, ends)) cell = in_box starts ends cell

in_bounds-put_bounds :
    (s e c : ℕ) (b : Bounds) (cell : List ℕ)
    → in_bounds (put_bounds s e b) (c ∷ cell) ≡ (leb s c && ltb c e && in_bounds b cell)
in_bounds-put_bounds s e c none cell = ground arith
in_bounds-put_bounds s e c (some b) cell = refl

in_bounds-put_bounds_nil : (s e : ℕ) (b : Bounds) → in_bounds (put_bounds s e b) [] ≡ false
in_bounds-put_bounds_nil s e none = refl
in_bounds-put_bounds_nil s e (some b) = refl

-- A cell lies in the overlap of two shards of as many dimensions just if it lies in both.
pub in_bounds-overlap_dims :
    (is ts ie te cell : List ℕ) (b : Bounds)
    → length ts ≡ length is
    → length ie ≡ length is
    → length te ≡ length is
    → overlap_dims is ts ie te ≡ ok b
    → in_bounds b cell ≡ (in_box is ie cell && in_box ts te cell)
unfolding overlap_dims
in_bounds-overlap_dims [] [] [] [] [] b p q r h = rw (ok-injective h)
in_bounds-overlap_dims [] [] [] [] (c ∷ cell) b p q r h = rw (ok-injective h)
in_bounds-overlap_dims [] (t ∷ ts) ie te cell b p q r h = absurd (omega arith)
in_bounds-overlap_dims [] [] (i ∷ ie) te cell b p q r h = absurd (omega arith)
in_bounds-overlap_dims [] [] [] (i ∷ te) cell b p q r h = absurd (omega arith)
in_bounds-overlap_dims (i ∷ is) [] ie te cell b p q r h = absurd (omega arith)
in_bounds-overlap_dims (i ∷ is) (t ∷ ts) [] te cell b p q r h = absurd (omega arith)
in_bounds-overlap_dims (i ∷ is) (t ∷ ts) (i' ∷ ie) [] cell b p q r h = absurd (omega arith)
in_bounds-overlap_dims (i ∷ is) (t ∷ ts) (i' ∷ ie) (t' ∷ te) [] b p q r h =
    elim (Bool-cases (leb (min i' t') (max i t))) [
      | inl apart ↦ rw (ok-injective (rw apart at h))
      | inr meet ↦
          let (b', e, last) = bind-eq-ok (overlap_dims is ts ie te) _ (rw meet at h) in
          rw (ok-injective last) (in_bounds-put_bounds_nil (max i t) (min i' t') b')
    ]
in_bounds-overlap_dims (i ∷ is) (t ∷ ts) (i' ∷ ie) (t' ∷ te) (c ∷ cell) b p q r h =
    elim (Bool-cases (leb (min i' t') (max i t))) [
      | inl apart ↦ rw (ok-injective (rw apart at h)) (ground arith)
      | inr meet ↦
          let (b', e, last) = bind-eq-ok (overlap_dims is ts ie te) _ (rw meet at h) in
          let ih =
            in_bounds-overlap_dims is ts ie te cell b' (omega arith) (omega arith) (omega arith)
              e in
          rw (ok-injective last, in_bounds-put_bounds (max i t) (min i' t') c b' cell, ih)
            (ground arith)
    ]
