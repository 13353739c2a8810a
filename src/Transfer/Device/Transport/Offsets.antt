-- ===== src/Transfer/Device/Transport/Offsets.antt =====
-- Where the regions lie, one after the other, and the tasks in their regions.
use awex.Prelude.{
  ℕ, zero, suc, ◌+◌, ◌≤◌, ◌<◌, ◌≡◌, refl, ap, sym, ◌∙◌, some, List, [], ◌∷◌, get_elem?, arith,
}
use awex.Prelude.Outcome.{ok, bind-eq-ok, or_raise, or_raise-eq-ok, ok-injective}
use awex.Transfer.Layout.{sum}
use awex.Transfer.Device.Defs.{Task}
use awex.Transfer.Device.Transport.{region_offsets, absolute_offsets, region_index_error}

-- A region: where it begins, and how long it is.
pub record Region (total_bytes : ℕ) (sizes : List ℕ) (region start : ℕ) : Type 0 where
  pub size : ℕ
  pub sized : get_elem? sizes region ≡ some size
  pub low : total_bytes ≤ start
  pub high : start + size ≤ total_bytes + sum sizes

pub region_offsets-Region :
    (sizes : List ℕ) (total_bytes region start : ℕ)
    → get_elem? (region_offsets total_bytes sizes) region ≡ some start
    → Region total_bytes sizes region start
region_offsets-Region [] total_bytes region start h = cc
region_offsets-Region (size ∷ sizes) total_bytes zero start h =
    let e : total_bytes ≡ start = cc in
    record { size = size; sized = refl; low = omega (arith, e); high = omega (arith, e) }
region_offsets-Region (size ∷ sizes) total_bytes (suc region) start h =
    let r = region_offsets-Region sizes (total_bytes + size) region start h in
    record {
      size = r.size;
      sized = r.sized;
      low = omega (arith, r.low);
      high = omega (arith, r.high);
    }

-- A region ends before every later one begins.
pub region_offsets-apart :
    (sizes : List ℕ) (total_bytes region later start start' : ℕ)
    → region < later
    → get_elem? (region_offsets total_bytes sizes) region ≡ some start
    → get_elem? (region_offsets total_bytes sizes) later ≡ some start'
    → (size : ℕ) → get_elem? sizes region ≡ some size
    → start + size ≤ start'
region_offsets-apart [] total_bytes region later start start' less h h' size sized = cc
region_offsets-apart (n ∷ sizes) total_bytes region zero start start' less h h' size sized =
    absurd (omega arith)
region_offsets-apart (n ∷ sizes) total_bytes zero (suc later) start start' less h h' size sized =
    let r = region_offsets-Region sizes (total_bytes + n) later start' h' in
    let e : total_bytes ≡ start = cc in let e' : n ≡ size = cc in omega (arith, e, e', r.low)
region_offsets-apart (n ∷ sizes) total_bytes (suc region) (suc later) start start' less h h' size
      sized =
    region_offsets-apart sizes (total_bytes + n) region later start start' (omega arith) h h' size
      sized

-- Each task is launched at its offset, counted from the start of its region.
pub absolute_offsets-nth :
    (regions : List ℕ) (tasks : List Task) (offsets : List ℕ)
    → absolute_offsets regions tasks ≡ ok offsets
    → (i : ℕ) (task : Task) (offset : ℕ) → get_elem? tasks i ≡ some task
    → get_elem? offsets i ≡ some offset
    → (start : ℕ) × (get_elem? regions task.region_index ≡ some start)
      × (offset ≡ start + task.offset)
absolute_offsets-nth regions [] offsets h i task offset at at' = cc
absolute_offsets-nth regions (t ∷ tasks) offsets h zero task offset at at' =
    let (start, e, rest) =
      bind-eq-ok (or_raise (get_elem? regions t.region_index) region_index_error) _ h in
    let (others, e', last) = bind-eq-ok (absolute_offsets regions tasks) _ rest in
    let same : t ≡ task = cc in
    let listed = ap (λ os. get_elem? os 0) (ok-injective last) in
    let same' : offset ≡ start + t.offset = cc (listed, at') in
    rw (sym same) (start, or_raise-eq-ok _ _ e, same')
absolute_offsets-nth regions (t ∷ tasks) offsets h (suc i) task offset at at' =
    let (start, e, rest) =
      bind-eq-ok (or_raise (get_elem? regions t.region_index) region_index_error) _ h in
    let (others, e', last) = bind-eq-ok (absolute_offsets regions tasks) _ rest in
    let listed = ap (λ os. get_elem? os (suc i)) (ok-injective last) in
    absolute_offsets-nth regions tasks others e' i task offset at (sym listed ∙ at')
