-- ===== src/Transfer/Device/Batches.antt =====
-- What `_build_send_batch` has for each peer.
use mathlib.Core.Path.{subst}
use mathlib.Core.List.{append-nil}
use awex.Prelude.{
  ℕ, zero, suc, ◌≤◌, ◌<◌, ◌≡◌, refl, ap, sym, ◌∙◌, inl, inr, String, Bool, true, false, Option,
  some, List, [], ◌∷◌, ◌++◌, map, filter, filter-append, filter-const, All, length, get_elem?, set,
  max, replicate, leb, ◌==◌, if◌then◌else◌, arith, Bool-cases, ==→eq, eq→==,
}
use awex.Prelude.Int.{ℤ}
use awex.Prelude.Sort.{sort}
use awex.Prelude.Update.{get_elem-set, get_elem-set_other, length-set}
use awex.Prelude.Outcome.{ok, bind-eq-ok, or_raise, or_raise-eq-ok, raise_if-eq-ok, ok-injective}
use awex.Transfer.Plan.Defs.{CommunicationOperation}
use awex.Transfer.Plan.Local.{OpDict, ops_at, peer_keys}
use awex.Transfer.Comm.Rotation.{has_rank}
use awex.Transfer.Comm.Turns.{has_rank-sort, get_elem-some}
use awex.Transfer.Comm.Buckets.{Distinct, sort-Distinct}
use awex.Transfer.Device.Defs.{
  index_error, Task, DeviceBatch, any_outside, check_chunk_bytes, operation_groups,
}
use awex.Transfer.Device.Send.{
  Torch, Parameter, PeerCursor, Appended, send_op_loop, send_group_loop, empty_batch,
}
use awex.Transfer.Device.Multicast.{find_multicast_groups, build_send_batch}
use awex.Transfer.Device.Stream.{place}
use awex.Transfer.Device.Consecutive.{Follows, send_op_loop-Follows, send_op_loop-peer}

abbrev pub origin : PeerCursor
origin = record { peer_offset = 0; ordinal = 0 }

-- The tasks for one peer.
abbrev pub tasks_to : ℕ → List Task → List Task
tasks_to r = filter (λ t. t.peer == r)

pub some_injective : {A : Type 0} {o : Option A} {a b : A} → o ≡ some a → o ≡ some b → a ≡ b
some_injective h h' = cc

abbrev Group : Type 0
Group = ℕ × List CommunicationOperation

abbrev group_keys : List Group → List ℕ
group_keys [] = []
group_keys ((peer, _) ∷ groups) = peer ∷ group_keys groups

tasks_to-const :
    (peer r : ℕ) (b : Bool) (tasks : List Task)
    → All (λ t. t.peer ≡ peer) tasks
    → (peer == r) ≡ b
    → tasks_to r tasks ≡ (if b then tasks else [])
tasks_to-const peer r b tasks all e = filter-const (λ t. t.peer == r) b tasks (same tasks all)
  where
    same : (ts : List Task) → All (λ t. t.peer ≡ peer) ts → All (λ t. (t.peer == r) ≡ b) ts
    same [] all = tt
    same (t ∷ ts) (p, all) = (ap (λ k. k == r) p ∙ e, same ts all)

module _ (torch : Torch) (allow_staging : Bool) (parameters : List (String × Parameter))
    (chunk_bytes rank : ℕ) where
  -- The region of the rank has room for this many bytes.
  abbrev pub HasRoom : DeviceBatch → ℕ → Type 0
  HasRoom batch n = (region : ℕ) × (get_elem? batch.region_bytes rank ≡ some region) × (n ≤ region)

  -- The tasks of one peer: a stream from the origin, with its count and its room.
  record Streamed (before after : DeviceBatch) (r : ℕ) : Type 0 where
    tasks : List Task
    end : PeerCursor
    added : tasks_to r after.tasks ≡ tasks_to r before.tasks ++ tasks
    follows : Follows origin (map place tasks) end
    counted : get_elem? after.expected_counts r ≡ some end.ordinal
    room : HasRoom after end.peer_offset

  record Grouped (groups : List Group) (before after : DeviceBatch) : Type 0 where
    untouched :
        (r : ℕ)
        → has_rank r (group_keys groups) ≡ false
        → (tasks_to r after.tasks ≡ tasks_to r before.tasks)
          × (get_elem? after.expected_counts r ≡ get_elem? before.expected_counts r)
    keeps_room : (n : ℕ) → HasRoom before n → HasRoom after n
    streamed : (r : ℕ) → has_rank r (group_keys groups) ≡ true → Streamed before after r

  abbrev pub filed : ℕ → Appended → ℕ → DeviceBatch → DeviceBatch
  filed peer here region batch = record {
    tasks = batch.tasks ++ here.0;
    region_bytes = set batch.region_bytes rank (max region here.1.peer_offset);
    expected_counts = set batch.expected_counts peer here.1.ordinal;
    copybacks = [];
    multicast_groups = [];
  }

  pub filed-room :
      (peer : ℕ) (here : Appended) (region : ℕ) (batch : DeviceBatch)
      → get_elem? batch.region_bytes rank ≡ some region
      → HasRoom (filed peer here region batch) (max region here.1.peer_offset)
  filed-room peer here region batch e = (
    max region here.1.peer_offset,
    get_elem-set batch.region_bytes rank (max region here.1.peer_offset)
        (get_elem-some batch.region_bytes rank e),
    omega arith,
  )

  pub HasRoom-le : (batch : DeviceBatch) (m n : ℕ) → m ≤ n → HasRoom batch n → HasRoom batch m
  HasRoom-le batch m n h (region, e, k) = (region, e, omega arith)

  filed-other :
      (peer r : ℕ) (here : Appended) (region : ℕ) (batch : DeviceBatch)
      → All (λ t. t.peer ≡ peer) here.0
      → (peer == r) ≡ false
      → (tasks_to r (filed peer here region batch).tasks ≡ tasks_to r batch.tasks)
        × (get_elem? (filed peer here region batch).expected_counts r
            ≡ get_elem? batch.expected_counts r)
  filed-other peer r here region batch peers other = (
    filter-append (λ t. t.peer == r) batch.tasks here.0
        ∙ ap (λ l. tasks_to r batch.tasks ++ l) (tasks_to-const peer r false here.0 peers other)
        ∙ append-nil (tasks_to r batch.tasks),
    get_elem-set_other batch.expected_counts peer r here.1.ordinal
        (λ e. absurd (ground (arith, eq→== peer r (sym e)))),
  )

  filed-Streamed :
      (peer : ℕ) (groups : List Group) (here : Appended) (region : ℕ) (before after : DeviceBatch)
      → has_rank peer (group_keys groups) ≡ false
      → peer < length before.expected_counts
      → get_elem? before.region_bytes rank ≡ some region
      → All (λ t. t.peer ≡ peer) here.0
      → Follows origin (map place here.0) here.1
      → Grouped groups (filed peer here region before) after
      → Streamed before after peer
  filed-Streamed peer groups here region before after fresh inside e peers follows g =
      let (t, c) = g.untouched peer fresh in
      record {
        tasks = here.0;
        end = here.1;
        added =
            t
            ∙ filter-append (λ x. x.peer == peer) before.tasks here.0
            ∙ ap (λ l. tasks_to peer before.tasks ++ l)
                (tasks_to-const peer peer true here.0 peers (eq→== peer peer refl));
        follows = follows;
        counted = c ∙ get_elem-set before.expected_counts peer here.1.ordinal inside;
        room = g.keeps_room here.1.peer_offset (
            HasRoom-le (filed peer here region before) here.1.peer_offset
              (max region here.1.peer_offset) (omega arith) (filed-room peer here region before e));
      }

  Grouped-cons :
      (peer : ℕ) (ops : List CommunicationOperation) (groups : List Group) (here : Appended)
      (region : ℕ) (before after : DeviceBatch)
      → has_rank peer (group_keys groups) ≡ false
      → peer < length before.expected_counts
      → get_elem? before.region_bytes rank ≡ some region
      → All (λ t. t.peer ≡ peer) here.0
      → Follows origin (map place here.0) here.1
      → Grouped groups (filed peer here region before) after
      → Grouped ((peer, ops) ∷ groups) before after
  Grouped-cons peer ops groups here region before after fresh inside e peers follows g = record {
    untouched = λ r h. elim (Bool-cases (peer == r)) [
      | inl same ↦ absurd (ground (arith, rw same at h))
      | inr other ↦
          let (t, c) = g.untouched r (rw other at h) in
          let (t', c') = filed-other peer r here region before peers other in (t ∙ t', c ∙ c')
    ];
    keeps_room = λ n room.
        let same : region ≡ room.0 = some_injective e room.1 in
        g.keeps_room n (
          HasRoom-le (filed peer here region before) n (max region here.1.peer_offset)
            (omega (arith, room.2)) (filed-room peer here region before e));
    streamed = λ r h. elim (Bool-cases (peer == r)) [
      | inl same ↦
          subst (Streamed before after) (==→eq peer r same)
            (filed-Streamed peer groups here region before after fresh inside e peers follows g)
      | inr other ↦
          let s = g.streamed r (rw other at h) in
          let (t', c') = filed-other peer r here region before peers other in
          record {
            tasks = s.tasks;
            end = s.end;
            added = s.added ∙ ap (λ l. l ++ s.tasks) t';
            follows = s.follows;
            counted = s.counted;
            room = s.room;
          }
    ];
  }

  send_group_loop-Grouped :
      (groups : List Group) (before after : DeviceBatch)
      → Distinct (group_keys groups)
      → All (λ r. r < length before.expected_counts) (group_keys groups)
      → send_group_loop torch allow_staging parameters chunk_bytes rank groups before ≡ ok after
      → Grouped groups before after
  send_group_loop-Grouped [] before after distinct inside h = rw (ok-injective h) (record {
    untouched = λ r no. (refl, refl);
    keeps_room = λ n room. room;
    streamed = λ r there. cc;
  })
  send_group_loop-Grouped ((peer, ops) ∷ groups) before after (fresh, distinct) (first, inside) h =
      let (here, e, rest) =
        bind-eq-ok (send_op_loop torch allow_staging parameters chunk_bytes rank peer ops origin) _
          h in
      let (region, e', last) =
        bind-eq-ok (or_raise (get_elem? before.region_bytes rank) index_error) _ rest in
      let same = length-set before.expected_counts peer here.1.ordinal in
      Grouped-cons peer ops groups here region before after fresh first (or_raise-eq-ok _ _ e')
        (send_op_loop-peer torch allow_staging parameters chunk_bytes rank peer ops origin here e)
        (send_op_loop-Follows torch allow_staging parameters chunk_bytes rank peer ops origin here
          e)
        (send_group_loop-Grouped groups (filed peer here region before) after distinct
          (rw same inside) last)

group_keys-map :
    (f : ℕ → List CommunicationOperation) (peers : List ℕ)
    → group_keys (map (λ p. (p, f p)) peers) ≡ peers
group_keys-map f [] = refl
group_keys-map f (p ∷ peers) = ap (λ l. p ∷ l) (group_keys-map f peers)

any_outside-All :
    (world_size : ℕ) (peers : List ℕ)
    → any_outside world_size peers ≡ false
    → All (λ r. r < world_size) peers
any_outside-All world_size [] h = tt
any_outside-All world_size (p ∷ peers) h = elim (Bool-cases (leb world_size p)) [
  | inl outside ↦ absurd (ground (arith, rw outside at h))
  | inr inside ↦ (ground arith, any_outside-All world_size peers (rw inside at h))
]

length-replicate : {A : Type 0} (n : ℕ) (a : A) → length (replicate n a) ≡ n
length-replicate zero a = refl
length-replicate (suc n) a = ap suc (length-replicate n a)

tasks_to-empty : (world_size r : ℕ) → tasks_to r (empty_batch world_size).tasks ≡ []
tasks_to-empty world_size r = refl

module _ (torch : Torch) (allow_staging : Bool) (parameters : List (String × Parameter)) where
  groups_of_plan :
      (operations : OpDict) (rank world_size : ℕ) (groups : List Group)
      → Distinct (peer_keys operations)
      → operation_groups operations rank world_size ≡ ok groups
      → (group_keys groups ≡ sort leb (peer_keys operations))
        × Distinct (group_keys groups)
        × All (λ r. r < world_size) (group_keys groups)
  unfolding operation_groups
  groups_of_plan operations rank world_size groups distinct h =
      let keys = sort leb (peer_keys operations) in
      let (inside, rest) = raise_if-eq-ok (any_outside world_size keys) _ _ h in
      let (not_self, last) = raise_if-eq-ok (has_rank rank keys) _ _ rest in
      let e : group_keys groups ≡ keys =
        ap group_keys (ok-injective last) ∙ group_keys-map (λ p. ops_at p operations) keys in
      (
        e,
        rw e (sort-Distinct (peer_keys operations) distinct),
        rw e (any_outside-All world_size keys inside),
      )

  -- If the batch of a sender is built, for a plan that has each peer once: the tasks for a peer of
  -- the plan are not empty, lie end to end from 0 on, and have the ordinals from 0 on; the
  -- expected count of the peer is their number, and the sender's region is long enough for them.
  pub build_send_batch-Follows :
      (operations : OpDict) (rank world_size : ℕ) (chunk_bytes : ℤ)
      (instance_world_size engine_count : ℕ) (batch : DeviceBatch)
      → Distinct (peer_keys operations)
      → build_send_batch torch allow_staging parameters operations rank world_size chunk_bytes
          instance_world_size engine_count
        ≡ ok batch
      → (r : ℕ) → has_rank r (peer_keys operations) ≡ true
      → (end : PeerCursor) × (region : ℕ) × Follows origin (map place (tasks_to r batch.tasks)) end
        × (get_elem? batch.expected_counts r ≡ some end.ordinal)
        × (get_elem? batch.region_bytes rank ≡ some region)
        × (end.peer_offset ≤ region)
  unfolding build_send_batch
  build_send_batch-Follows operations rank world_size chunk_bytes instance_world_size engine_count
        batch distinct h r there =
      let (resolved, e, rest) = bind-eq-ok (check_chunk_bytes chunk_bytes) _ h in
      let (groups, e', rest') = bind-eq-ok (operation_groups operations rank world_size) _ rest in
      let (built, e'', rest'') =
        bind-eq-ok
          (send_group_loop torch allow_staging parameters resolved rank groups
            (empty_batch world_size))
          _ rest' in
      let (multicast, e3, last) =
        bind-eq-ok (find_multicast_groups built instance_world_size engine_count) _ rest'' in
      let (keys, distinct', inside) =
        groups_of_plan operations rank world_size groups distinct e' in
      let size = length-replicate {A = ℕ} world_size 0 in
      let g =
        send_group_loop-Grouped torch allow_staging parameters resolved rank groups
          (empty_batch world_size) built distinct' (rw size inside) e'' in
      let s =
        g.streamed r (ap (has_rank r) keys ∙ has_rank-sort r (peer_keys operations) ∙ there) in
      rw (ok-injective last) (
        s.end,
        s.room.0,
        subst (λ ts. Follows origin (map place ts) s.end) (sym s.added) s.follows,
        s.counted,
        s.room.1,
        s.room.2,
      )
