-- ===== src/Transfer/Layout/Ascending.antt =====
-- The flat runs of a slice follow one another inside the tensor.
use awex.Prelude.{
  ℕ, zero, suc, ◌+◌, ◌-◌, ◌*◌, ◌≤◌, ◌<◌, ◌≡◌, refl, ap, sym, ◌∙◌, some, List, [], ◌∷◌, ◌++◌, map,
  get_elem?, take, arith,
}
use awex.Prelude.Indices.{concat_map, map-concat_map, indices}
use awex.Transfer.Layout.{
  shape_numel, Normalized, row_strides, product, entry_range, prefix_start, prefix_run,
}
use awex.Transfer.Layout.Strides.{row_strides-cons, Fitting, Fitting-pos, FullAfter}
use awex.Transfer.Layout.Cells.{prefix_runs}

-- The runs lie between `low` and `high`, in order, and none is empty.
abbrev pub Ascend : ℕ → ℕ → List (ℕ × ℕ) → Type 0
Ascend low high [] = low ≤ high
Ascend low high (run ∷ runs) = (low ≤ run.0) × (0 < run.1) × Ascend (run.0 + run.1) high runs

pub Ascend-le : (low high : ℕ) (runs : List (ℕ × ℕ)) → Ascend low high runs → low ≤ high
Ascend-le low high [] h = h
Ascend-le low high (run ∷ runs) (a, b, h) =
    let ih = Ascend-le (run.0 + run.1) high runs h in omega arith

Ascend-lower :
    (low low' high : ℕ) (runs : List (ℕ × ℕ))
    → low' ≤ low
    → Ascend low high runs
    → Ascend low' high runs
Ascend-lower low low' high [] p h = omega arith
Ascend-lower low low' high (run ∷ runs) p (a, b, h) = (omega arith, b, h)

Ascend-upper :
    (low high high' : ℕ) (runs : List (ℕ × ℕ))
    → high ≤ high'
    → Ascend low high runs
    → Ascend low high' runs
Ascend-upper low high high' [] p h = omega arith
Ascend-upper low high high' (run ∷ runs) p (a, b, h) =
    (a, b, Ascend-upper (run.0 + run.1) high high' runs p h)

Ascend-append :
    (low mid high : ℕ) (xs ys : List (ℕ × ℕ))
    → Ascend low mid xs
    → Ascend mid high ys
    → Ascend low high (xs ++ ys)
Ascend-append low mid high [] ys h k = Ascend-lower mid low high ys h k
Ascend-append low mid high (x ∷ xs) ys (a, b, h) k =
    (a, b, Ascend-append (x.0 + x.1) mid high xs ys h k)

-- The same runs, `by` further on.
abbrev pub shift_run : ℕ → ℕ × ℕ → ℕ × ℕ
shift_run by run = (by + run.0, run.1)

Ascend-shift :
    (by low high : ℕ) (runs : List (ℕ × ℕ))
    → Ascend low high runs
    → Ascend (by + low) (by + high) (map (shift_run by) runs)
Ascend-shift by low high [] h = omega arith
Ascend-shift by low high (run ∷ runs) (a, b, h) =
    let e : by + (run.0 + run.1) ≡ by + run.0 + run.1 = omega arith in
    (omega arith, b, rw (sym e) (Ascend-shift by (run.0 + run.1) high runs h))

Ascend-blocks :
    (size : ℕ) (f : ℕ → List (ℕ × ℕ)) (n start : ℕ)
    → ((i : ℕ) → Ascend (i * size) (i * size + size) (f i))
    → Ascend (start * size) ((start + n) * size) (concat_map f (indices start n))
Ascend-blocks size f zero start block = grind arith
Ascend-blocks size f (suc n) start block =
    let e : (start + 1) * size ≡ start * size + size = grind arith in
    let e' : (start + 1 + n) * size ≡ (start + suc n) * size = ap (λ k. k * size) (omega arith) in
    let ih = Ascend-blocks size f n (start + 1) block in
    Ascend-append (start * size) (start * size + size) _ (f start) _ (block start)
      (rw (sym e, sym e') ih)

module _ (entry : Normalized) (stride : ℕ) where
  shifted_runs :
      (size i : ℕ) (strides : List ℕ) (prefixes : List (List ℕ))
      → map (prefix_run (size ∷ strides) entry stride) (map (λ q. i ∷ q) prefixes)
        ≡ map (shift_run (i * size)) (map (prefix_run strides entry stride) prefixes)
  shifted_runs size i strides [] = refl
  shifted_runs size i strides (q ∷ prefixes) =
      let e : i * size + prefix_start q strides + entry.start * stride
          ≡ i * size + (prefix_start q strides + entry.start * stride) =
        omega arith in
      rw (e, shifted_runs size i strides prefixes) refl

mul_mono : (m n size : ℕ) → m ≤ n → m * size ≤ n * size
mul_mono m n size p = grind arith

mul_pos : (m n : ℕ) → 0 < m → 0 < n → 0 < m * n
mul_pos m n p q = grind arith

sum_mul : (m n size : ℕ) → 0 + m * size + n * size ≡ (m + n) * size
sum_mul m n size = grind arith

block_in_shape :
    (size dim start stop : ℕ)
    → start < stop
    → stop ≤ dim
    → (start + (stop - start)) * size ≤ dim * size
block_in_shape size dim start stop p q = mul_mono (start + (stop - start)) dim size (omega arith)

run_in_block :
    (size dim start stop : ℕ)
    → 0 < size
    → start < stop
    → stop ≤ dim
    → (0 ≤ 0 + start * size)
      × (0 < (stop - start) * size)
      × (0 + start * size + (stop - start) * size ≤ dim * size)
run_in_block size dim start stop p q r =
    let k : 0 < (stop - start) * size = mul_pos (stop - start) size (omega arith) p in
    let e : 0 + start * size + (stop - start) * size ≡ (start + (stop - start)) * size =
      sum_mul start (stop - start) size in
    (omega arith, k, rw e (block_in_shape size dim start stop q r))

pub prefix_runs-Ascend :
    (p : ℕ) (dims : List ℕ) (entries : List Normalized) (entry : Normalized) (stride : ℕ)
    → Fitting dims entries
    → FullAfter p entries
    → get_elem? entries p ≡ some entry
    → get_elem? (row_strides dims) p ≡ some stride
    → Ascend 0 (shape_numel dims) (prefix_runs (row_strides dims) entries p entry stride)
unfolding shape_numel
prefix_runs-Ascend zero (dim ∷ dims) (first ∷ entries) entry stride (a, b, c, fit) full found
      found' =
    let e : first ≡ entry = cc in
    let head : get_elem? (shape_numel dims ∷ row_strides dims) 0 ≡ some stride =
      ap (λ l. get_elem? l 0) (sym (row_strides-cons dim dims)) ∙ found' in
    let e' : shape_numel dims ≡ stride = cc in
    rw (sym e, sym e')
      (run_in_block (shape_numel dims) dim first.start first.stop (Fitting-pos dims entries fit) a
        b)
prefix_runs-Ascend (suc p) (dim ∷ dims) (first ∷ entries) entry stride (a, b, c, fit) full found
      found' =
    let tail : get_elem? (row_strides dims) p ≡ some stride =
      ap (λ l. get_elem? l (suc p)) (sym (row_strides-cons dim dims)) ∙ found' in
    let ih = prefix_runs-Ascend p dims entries entry stride fit full found tail in
    let size = shape_numel dims in
    let blocks =
      Ascend-blocks size
        (λ i.
          map (prefix_run (size ∷ row_strides dims) entry stride)
            (map (λ q. i ∷ q) (product (map entry_range (take p entries)))))
        (first.stop - first.start) first.start
        (λ i.
          let e : i * size + 0 ≡ i * size = omega arith in
          rw (shifted_runs entry stride size i (row_strides dims) _)
            (Ascend-lower _ _ _ _ (omega arith) (Ascend-shift (i * size) 0 size _ ih))) in
    rw
      (
        row_strides-cons dim dims,
        map-concat_map (prefix_run (size ∷ row_strides dims) entry stride)
            (λ i. map (λ q. i ∷ q) (product (map entry_range (take p entries))))
            (entry_range first),
      )
      (Ascend-upper _ _ _ _ (block_in_shape size dim first.start first.stop a b)
        (Ascend-lower _ _ _ _ (omega arith) blocks))
prefix_runs-Ascend p dims [] entry stride fit full found found' = absurd full
prefix_runs-Ascend p [] (first ∷ entries) entry stride fit full found found' = absurd fit
