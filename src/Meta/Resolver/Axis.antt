-- ===== src/Meta/Resolver/Axis.antt =====
-- Boxes that differ from one another only along one dimension, as the shards of a replica do.
use awex.Prelude.{
  ℕ, zero, suc, ◌+◌, ◌≤◌, ◌<◌, ◌≡◌, refl, Bool, false, ◌&&◌, List, [], ◌∷◌, length, set, replicate,
  leb, ltb, if◌then◌else◌, arith,
}
use awex.Transfer.Plan.Regions.{plus}
use awex.Transfer.Plan.Regions.Boxes.{in_box}

-- The cell lies from `o` up to `e` in dimension `d`, and inside `base` in the others.
abbrev pub in_axis : ℕ → List ℕ → List ℕ → ℕ → ℕ → Bool
in_axis zero (b ∷ base) (c ∷ cell) o e =
    leb o c && ltb c e && in_box (replicate (length base) 0) base cell
in_axis (suc d) (b ∷ base) (c ∷ cell) o e = let rest = in_axis d base cell o e in ltb c b && rest
in_axis _ _ _ o e = false

pub plus-replicate : (xs : List ℕ) → plus (replicate (length xs) 0) xs ≡ xs
plus-replicate [] = refl
plus-replicate (x ∷ xs) =
    let head : 0 + x ≡ x = omega arith in let tail = plus-replicate xs in cc (head, tail)

pub in_box-set :
    (d : ℕ) (base cell : List ℕ) (o s : ℕ)
    → d < length base
    → in_box
        (set (replicate (length base) 0) d o)
        (plus (set (replicate (length base) 0) d o) (set base d s))
        cell
      ≡ in_axis d base cell o (o + s)
in_box-set d [] cell o s h = absurd (omega arith)
in_box-set zero (b ∷ base) [] o s h = refl
in_box-set zero (b ∷ base) (c ∷ cell) o s h = rw (plus-replicate base)
in_box-set (suc d) (b ∷ base) [] o s h = refl
in_box-set (suc d) (b ∷ base) (c ∷ cell) o s h =
    ground (arith, in_box-set d base cell o s (omega arith))

-- Two stretches that meet hold the cells of the whole, each once.
pub in_axis-split :
    (d : ℕ) (base cell : List ℕ) (o m e : ℕ)
    → o ≤ m
    → m ≤ e
    → (if in_axis d base cell o m then 1 else 0) + (if in_axis d base cell m e then 1 else 0)
      ≡ (if in_axis d base cell o e then 1 else 0)
in_axis-split zero [] cell o m e p q = refl
in_axis-split (suc d) [] cell o m e p q = refl
in_axis-split zero (b ∷ base) [] o m e p q = refl
in_axis-split (suc d) (b ∷ base) [] o m e p q = refl
in_axis-split zero (b ∷ base) (c ∷ cell) o m e p q =
    inside (in_box (replicate (length base) 0) base cell)
  where
    inside :
        (i : Bool)
        → (if leb o c && ltb c m && i then 1 else 0) + (if leb m c && ltb c e && i then 1 else 0)
          ≡ (if leb o c && ltb c e && i then 1 else 0)
    inside i = ground arith
in_axis-split (suc d) (b ∷ base) (c ∷ cell) o m e p q =
    ground (arith, in_axis-split d base cell o m e p q)

pub in_axis-empty : (d : ℕ) (base cell : List ℕ) (o : ℕ) → in_axis d base cell o o ≡ false
in_axis-empty zero [] cell o = refl
in_axis-empty (suc d) [] cell o = refl
in_axis-empty zero (b ∷ base) [] o = refl
in_axis-empty (suc d) (b ∷ base) [] o = refl
in_axis-empty zero (b ∷ base) (c ∷ cell) o = ground arith
in_axis-empty (suc d) (b ∷ base) (c ∷ cell) o = ground (arith, in_axis-empty d base cell o)
