-- ===== src/Transfer/Device/Transport/Bounds.antt =====
-- The state behind a handle has as many bytes as the regions, and every launch stays inside.
use awex.Prelude.{
  ℕ, zero, suc, ◌+◌, ◌≤◌, ◌≡◌, refl, ap, sym, ◌∙◌, ◌⊎◌, inl, inr, Bool, true, false, ◌||◌, ◌&&◌,
  not, ◌==◌, length, Option, none, some, List, [], ◌∷◌, get_elem?, ltb, arith,
}
use awex.Prelude.Outcome.{Outcome, ok, raise_if-eq-ok, Outcome-cases, require-eq-ok, ok-injective}
use awex.Transfer.Layout.{sum}
use awex.Transfer.Device.Defs.{Task, DeviceBatch}
use awex.Transfer.Device.Fitting.{Fits}
use awex.Transfer.Device.Transport.{
  TransportError, plan_grew, Extension, Group, NcclDeviceTransport, Launch, any_grew, DeviceState,
  state_at, inconsistent_unique_id, exceeds_logical_layout, region_offsets, absolute_offsets,
  create_handle, ensure_initialized, region_metadata, with_sizes, run,
}
use awex.Transfer.Device.Transport.Offsets.{region_offsets-Region, absolute_offsets-nth}

-- The greatest of all ranks is at least what this rank has asked for.
abbrev pub ReducesToMax : Group → Type 0
ReducesToMax group =
    (xs : List ℕ) (i n m : ℕ)
    → get_elem? xs i ≡ some n
    → get_elem? (group.all_reduce_max xs) i ≡ some m
    → n ≤ m

layout-exceeds :
    (logical_data_bytes offset length : ℕ)
    → offset + length ≤ logical_data_bytes
    → exceeds_logical_layout logical_data_bytes offset length ≡ false
layout-exceeds logical_data_bytes offset length h = ground arith

both_false : (a b : Bool) → (a || b) ≡ false → (a ≡ false) × (b ≡ false)
both_false false b h = (refl, h)
both_false true b h = cc

any_grew-le :
    (requests sizes : List ℕ) (i n m : ℕ)
    → any_grew requests sizes ≡ false
    → get_elem? requests i ≡ some n
    → get_elem? sizes i ≡ some m
    → n ≤ m
any_grew-le [] sizes i n m h e e' = cc
any_grew-le (r ∷ requests) [] i n m h e e' = cc
any_grew-le (r ∷ requests) (s ∷ sizes) zero n m h e e' =
    let kept = (both_false (ltb s r) (any_grew requests sizes) h).0 in
    let same : r ≡ n = cc in let same' : s ≡ m = cc in rw (sym same, sym same') (ground arith)
any_grew-le (r ∷ requests) (s ∷ sizes) (suc i) n m h e e' =
    any_grew-le requests sizes i n m (both_false (ltb s r) (any_grew requests sizes) h).1 e e'

state_at-logical_data_bytes :
    (data_bytes : ℕ) (address : Option ℕ) (handle : DeviceState)
    → state_at data_bytes address ≡ ok handle
    → handle.logical_data_bytes ≡ data_bytes
state_at-logical_data_bytes data_bytes none handle h = cc
state_at-logical_data_bytes data_bytes (some address) handle h =
    ap (λ (s : DeviceState). s.logical_data_bytes) (ok-injective h)

-- A transport without a handle, or one whose handle has as many logical bytes as its regions.
abbrev pub WellFormed : NcclDeviceTransport → Type 0
WellFormed transport =
    (transport.initialized ≡ false)
    ⊎ ((transport.initialized ≡ true)
        × ((handle : DeviceState) × (sizes : List ℕ) × (transport.handle ≡ some handle)
            × (transport.region_sizes ≡ some sizes)
            × (handle.logical_data_bytes ≡ sum sizes)))

-- Where a launched task lies: in its region, after the start of that, and
-- where the extension takes it.
pub record Inside (handle : DeviceState) (sizes : List ℕ) (task : Task) (offset : ℕ) : Type 0 where
  pub start : ℕ
  pub size : ℕ
  pub sized : get_elem? sizes task.region_index ≡ some size
  pub started : get_elem? (region_offsets 0 sizes) task.region_index ≡ some start
  pub placed : offset ≡ start + task.offset
  pub in_region : offset + task.length ≤ start + size
  pub in_layout : offset + task.length ≤ handle.logical_data_bytes
  pub taken : exceeds_logical_layout handle.logical_data_bytes offset task.length ≡ false

module _ (extension : Extension) (group : Group) where
  create_handle-logical_data_bytes :
      (transport : NcclDeviceTransport) (total_bytes : ℕ) (handle : DeviceState)
      → create_handle extension group transport.settings total_bytes ≡ ok handle
      → handle.logical_data_bytes ≡ total_bytes
  create_handle-logical_data_bytes transport total_bytes handle h =
      let settings = transport.settings in
      let (loaded, rest) = require-eq-ok extension.loads _ _ h in
      let (consistent, last) =
        raise_if-eq-ok
          (settings.rank == 0 && not (length extension.get_unique_id == extension.unique_id_size))
          inconsistent_unique_id _ rest in
      state_at-logical_data_bytes total_bytes _ handle last

  -- The handle that a launch takes has just as many logical bytes as the regions.
  ensure_initialized-logical_data_bytes :
      (transport : NcclDeviceTransport) (sizes : List ℕ) (handle : DeviceState)
      → WellFormed transport
      → transport.region_sizes ≡ some sizes
      → ensure_initialized extension group transport (sum sizes) ≡ ok handle
      → handle.logical_data_bytes ≡ sum sizes
  ensure_initialized-logical_data_bytes transport sizes handle (inl fresh) sized h =
      create_handle-logical_data_bytes transport (sum sizes) handle (rw fresh at h)
  ensure_initialized-logical_data_bytes transport sizes handle
        (inr (ready, (handle', sizes', e, e', w))) sized h =
      cc

  module _ (batch : DeviceBatch) (sender : Bool) (sequence : ℕ) where
    abbrev runs : NcclDeviceTransport → NcclDeviceTransport × Outcome TransportError Launch
    runs = run extension group batch sender sequence

    -- What a run that launches has worked out.
    record Launches (transport : NcclDeviceTransport) (started : Launch) : Type 0 where
      sizes : List ℕ
      metadata :
          region_metadata extension group transport.region_sizes batch.region_bytes ≡ ok sizes
      placed : absolute_offsets (region_offsets 0 sizes) batch.tasks ≡ ok started.absolute_offsets
      initialized :
          ensure_initialized extension group
            (with_sizes extension group transport sizes)
            (sum sizes)
          ≡ ok started.handle
      tasks : started.tasks ≡ batch.tasks
      kept : (runs transport).0.region_sizes ≡ some sizes

    run-Launches :
        (transport : NcclDeviceTransport) (started : Launch)
        → (runs transport).1 ≡ ok started
        → Launches transport started
    run-Launches transport started h =
        let metadata = region_metadata extension group transport.region_sizes batch.region_bytes in
        elim (Outcome-cases metadata) [
          | inr (e, raised) ↦ let no = rw raised at h in cc
          | inl (sizes, e) ↦
              let h' = rw e at h in
              let sized = with_sizes extension group transport sizes in
              elim (Outcome-cases (absolute_offsets (region_offsets 0 sizes) batch.tasks)) [
                | inr (e', raised) ↦ let no = rw raised at h' in cc
                | inl (offsets, e') ↦
                    let h'' = rw e' at h' in
                    elim (Outcome-cases (ensure_initialized extension group sized (sum sizes))) [
                      | inr (e'', raised) ↦ let no = rw raised at h'' in cc
                      | inl (handle, e'') ↦
                          let last = ok-injective (rw e'' at h'') in
                          record {
                            sizes = sizes;
                            metadata = e;
                            placed = e' ∙ ap (λ (l : Launch). ok l.absolute_offsets) (sym last);
                            initialized = e'' ∙ ap (λ (l : Launch). ok l.handle) (sym last);
                            tasks = ap (λ (l : Launch). l.tasks) last;
                            kept = rw (e, e', e'') refl;
                          }
                    ]
              ]
        ]

    with_sizes-WellFormed :
        (transport : NcclDeviceTransport) (sizes : List ℕ)
        → WellFormed transport
        → region_metadata extension group transport.region_sizes batch.region_bytes ≡ ok sizes
        → WellFormed (with_sizes extension group transport sizes)
    with_sizes-WellFormed transport sizes (inl fresh) h = inl fresh
    with_sizes-WellFormed transport sizes (inr (ready, (handle, sizes', e, e', w))) h =
        let kept = rw e' at h in
        let (fits, last) = raise_if-eq-ok (any_grew batch.region_bytes sizes') plan_grew _ kept in
        inr (ready, (handle, sizes, e, refl, w ∙ ap sum (sym (ok-injective last))))

    metadata-le :
        (known : Option (List ℕ)) (sizes : List ℕ)
        → ReducesToMax group
        → region_metadata extension group known batch.region_bytes ≡ ok sizes
        → (i n m : ℕ) → get_elem? batch.region_bytes i ≡ some n
        → get_elem? sizes i ≡ some m
        → n ≤ m
    metadata-le none sizes reduces h i n m e e' =
        reduces batch.region_bytes i n m e (ap (λ s. get_elem? s i) (sym (ok-injective h)) ∙ e')
    metadata-le (some sizes') sizes reduces h i n m e e' =
        let (fits, last) = raise_if-eq-ok (any_grew batch.region_bytes sizes') plan_grew _ h in
        any_grew-le batch.region_bytes sizes' i n m fits e
          (ap (λ s. get_elem? s i) (sym (ok-injective last)) ∙ e')

    -- If a well-formed transport launches a batch whose tasks fit in the regions that it asks for,
    -- each task is launched at its offset in its region and ends inside that and the bytes
    -- of the handle, where the extension takes it.
    pub run-Inside :
        (transport : NcclDeviceTransport) (started : Launch)
        → ReducesToMax group
        → WellFormed transport
        → Fits batch
        → (runs transport).1 ≡ ok started
        → (sizes : List ℕ) × ((runs transport).0.region_sizes ≡ some sizes)
          × ((i : ℕ) (task : Task) (offset : ℕ)
              → get_elem? started.tasks i ≡ some task
              → get_elem? started.absolute_offsets i ≡ some offset
              → Inside started.handle sizes task offset)
    run-Inside transport started reduces well fits h =
        let l = run-Launches transport started h in
        let sized = with_sizes extension group transport l.sizes in
        let w =
          ensure_initialized-logical_data_bytes sized l.sizes started.handle
            (with_sizes-WellFormed transport l.sizes well l.metadata) refl l.initialized in
        (
          l.sizes,
          l.kept,
          λ i task offset at at'.
              let here = ap (λ ts. get_elem? ts i) (sym l.tasks) ∙ at in
              let (start, e, placed) =
                absolute_offsets-nth (region_offsets 0 l.sizes) batch.tasks started.absolute_offsets
                  l.placed i task offset here at' in
              let r = region_offsets-Region l.sizes 0 task.region_index start e in
              let (n, asked, room) = fits i task here in
              let granted =
                metadata-le transport.region_sizes l.sizes reduces l.metadata task.region_index n
                  r.size asked r.sized in
              let whole : offset + task.length ≤ started.handle.logical_data_bytes =
                omega (arith, placed, room, granted, w, r.high) in
              record {
                start = start;
                size = r.size;
                sized = r.sized;
                started = e;
                placed = placed;
                in_region = omega (arith, placed, room, granted);
                in_layout = whole;
                taken = layout-exceeds started.handle.logical_data_bytes offset task.length whole;
              },
        )

    pub run-WellFormed :
        (transport : NcclDeviceTransport)
        → WellFormed transport
        → WellFormed (run extension group batch sender sequence transport).0
    run-WellFormed transport well =
        elim (Outcome-cases
          (region_metadata extension group transport.region_sizes batch.region_bytes)) [
            | inr (e, raised) ↦ rw raised well
            | inl (sizes, e) ↦
                let sized = with_sizes extension group transport sizes in
                let kept = with_sizes-WellFormed transport sizes well e in
                elim (Outcome-cases (absolute_offsets (region_offsets 0 sizes) batch.tasks)) [
                  | inr (e', raised) ↦ rw (e, raised) kept
                  | inl (offsets, e') ↦
                      elim (Outcome-cases (ensure_initialized extension group sized (sum sizes))) [
                        | inr (e'', raised) ↦ rw (e, e', raised) kept
                        | inl (handle, e'') ↦
                            rw (e, e', e'')
                              (inr (
                                refl,
                                (
                                  handle,
                                  sizes,
                                  refl,
                                  refl,
                                  ensure_initialized-logical_data_bytes sized sizes handle kept refl
                                      e'',
                                ),
                              ))
                      ]
                ]
          ]
