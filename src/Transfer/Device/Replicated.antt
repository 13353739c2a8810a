-- ===== src/Transfer/Device/Replicated.antt =====
-- A group that `_find_multicast_groups` returns.
use mathlib.Core.Path.{subst}
use awex.Prelude.{
  ℕ, zero, suc, ◌*◌, ◌%◌, ◌≡◌, refl, ap, sym, ◌∙◌, inl, inr, Bool, true, false, not, ◌&&◌, ◌||◌,
  some, List, [], ◌∷◌, All, length, get_elem?, set, replicate, ltb, ◌==◌, arith, Bool-cases, ==→eq,
  eq→==,
}
use awex.Prelude.Outcome.{ok, raise_if-eq-ok, ok-injective}
use awex.Prelude.Update.{get_elem-set_other}
use awex.Transfer.Device.Defs.{Task, DeviceBatch, any_outside}
use awex.Transfer.Device.Send.{same_numels}
use awex.Transfer.Device.Multicast.{
  active_peers, all_logical, peer_signatures, same_signatures, is_empty_stream, all_same_stream,
  target_peers, is_replicated, put_group, find_multicast_groups,
}

and-true : (a b : Bool) → (a && b) ≡ true → (a ≡ true) × (b ≡ true)
and-true true b h = (refl, h)
and-true false b h = cc

same_numels-eq : (ms ns : List ℕ) → same_numels ms ns ≡ true → ms ≡ ns
same_numels-eq [] [] h = refl
same_numels-eq [] (n ∷ ns) h = cc
same_numels-eq (m ∷ ms) [] h = cc
same_numels-eq (m ∷ ms) (n ∷ ns) h =
    let (e, rest) = and-true (m == n) (same_numels ms ns) h in
    ap (λ k. k ∷ ms) (==→eq m n e) ∙ ap (λ l. n ∷ l) (same_numels-eq ms ns rest)

same_signatures-eq : (ss ts : List (List ℕ)) → same_signatures ss ts ≡ true → ss ≡ ts
same_signatures-eq [] [] h = refl
same_signatures-eq [] (t ∷ ts) h = cc
same_signatures-eq (s ∷ ss) [] h = cc
same_signatures-eq (s ∷ ss) (t ∷ ts) h =
    let (e, rest) = and-true (same_numels s t) (same_signatures ss ts) h in
    ap (λ k. k ∷ ss) (same_numels-eq s t e) ∙ ap (λ l. t ∷ l) (same_signatures-eq ss ts rest)

all_same_stream-All :
    (tasks : List Task) (canonical : List (List ℕ)) (peers : List ℕ)
    → all_same_stream tasks canonical peers ≡ true
    → All (λ p. peer_signatures tasks p ≡ canonical) peers
all_same_stream-All tasks canonical [] h = tt
all_same_stream-All tasks canonical (p ∷ peers) h =
    let (e, rest) = and-true (same_signatures (peer_signatures tasks p) canonical) _ h in
    (
      same_signatures-eq (peer_signatures tasks p) canonical e,
      all_same_stream-All tasks canonical peers rest,
    )

-- The peers that may share one write: all that are sent to, at the same place in every engine,
-- with the same tasks.
pub record Shared (batch : DeviceBatch) (instance_world_size engine_count canonical : ℕ)
    (group : List ℕ) : Type 0 where
  pub all_active : group ≡ active_peers 0 batch.expected_counts
  pub all_engines :
      group ≡ target_peers instance_world_size (canonical % instance_world_size) engine_count
  pub same_tasks :
      All (λ p. peer_signatures batch.tasks p ≡ peer_signatures batch.tasks canonical) group

is_replicated-Shared :
    (batch : DeviceBatch) (instance_world_size engine_count first : ℕ) (others : List ℕ)
    → active_peers 0 batch.expected_counts ≡ first ∷ others
    → is_replicated batch.tasks instance_world_size engine_count (first ∷ others) ≡ true
    → Shared batch instance_world_size engine_count first (first ∷ others)
is_replicated-Shared batch size engines first others active h =
    let targets = target_peers size (first % size) engines in
    let canonical = peer_signatures batch.tasks first in
    let (inside, h1) = and-true (not (any_outside (engines * size) (first ∷ others))) _ h in
    let (logical, h2) = and-true (all_logical size (first % size) others) _ h1 in
    let (equal, h3) = and-true (same_numels (first ∷ others) targets) _ h2 in
    let (nonempty, streams) = and-true (not (is_empty_stream canonical)) _ h3 in
    record {
      all_active = sym active;
      all_engines = same_numels-eq (first ∷ others) targets equal;
      same_tasks = (refl, all_same_stream-All batch.tasks canonical others streams);
    }

get_elem-replicate :
    {A : Type 0} (n i : ℕ) (a : A) {b : A} → get_elem? (replicate n a) i ≡ some b → b ≡ a
get_elem-replicate zero i a h = cc
get_elem-replicate (suc n) zero a h = cc
get_elem-replicate (suc n) (suc i) a h = get_elem-replicate n i a h

get_elem-set_found :
    {A : Type 0} (xs : List A) (i : ℕ) (v : A) {b : A} → get_elem? (set xs i v) i ≡ some b → b ≡ v
get_elem-set_found [] i v h = cc
get_elem-set_found (x ∷ xs) zero v h = cc
get_elem-set_found (x ∷ xs) (suc i) v h = get_elem-set_found xs i v h

no_group : (n i q : ℕ) (qs : List ℕ) {B : Type 0} → get_elem? (replicate n []) i ≡ some (q ∷ qs) → B
no_group n i q qs h = let e : q ∷ qs ≡ [] = get_elem-replicate n i [] h in cc

put_group-Shared :
    (batch : DeviceBatch) (size engines c q : ℕ) (qs : List ℕ) (peers : List ℕ)
    → active_peers 0 batch.expected_counts ≡ peers
    → is_replicated batch.tasks size engines peers ≡ true
    → get_elem? (put_group (replicate (length batch.expected_counts) []) peers) c ≡ some (q ∷ qs)
    → (q ≡ c) × Shared batch size engines c (q ∷ qs)
put_group-Shared batch size engines c q qs [] active h found = cc
put_group-Shared batch size engines c q qs (first ∷ others) active h found =
    elim (Bool-cases (first == c)) [
      | inl same ↦
          let e = ==→eq first c same in
          let groups = replicate (length batch.expected_counts) [] in
          let equal : q ∷ qs ≡ first ∷ others = get_elem-set_found groups first (first ∷ others) (
            subst (λ k. get_elem? (set groups first (first ∷ others)) k ≡ some (q ∷ qs)) (sym e)
              found) in
          let s = is_replicated-Shared batch size engines first others active h in
          (
            cc,
            subst (λ k. Shared batch size engines k (q ∷ qs)) e
                (subst (Shared batch size engines first) (sym equal) s),
          )
      | inr other ↦
          let groups = replicate (length batch.expected_counts) [] in
          let kept =
            get_elem-set_other groups first c (first ∷ others)
              (λ e. absurd (ground (arith, eq→== first c (sym e)))) in
          no_group (length batch.expected_counts) c q qs (sym kept ∙ found)
    ]

-- A group stands at its first peer. It is the list of all peers that the sender has tasks for, one
-- in each engine at the same place, and their tasks have the same signatures in the same order.
pub find_multicast_groups-Shared :
    (batch : DeviceBatch) (instance_world_size engine_count : ℕ) (groups : List (List ℕ))
    (canonical q : ℕ) (qs : List ℕ)
    → find_multicast_groups batch instance_world_size engine_count ≡ ok groups
    → get_elem? groups canonical ≡ some (q ∷ qs)
    → (q ≡ canonical) × Shared batch instance_world_size engine_count canonical (q ∷ qs)
unfolding find_multicast_groups
find_multicast_groups-Shared batch size engines groups c q qs h found =
    let n = length batch.expected_counts in
    let none_built = λ (e : groups ≡ replicate n []).
      no_group n c q qs {B = (q ≡ c) × Shared batch size engines c (q ∷ qs)}
        (ap (λ g. get_elem? g c) (sym e) ∙ found) in
    elim (Bool-cases (ltb engines 2 || (size == 0))) [
      | inl off ↦ none_built (ok-injective (rw off at h))
      | inr on ↦
          let (fits, last) = raise_if-eq-ok (ltb n (engines * size)) _ _ (rw on at h) in
          let peers = active_peers 0 batch.expected_counts in
          elim (Bool-cases (is_replicated batch.tasks size engines peers)) [
            | inl replicated ↦
                let e : groups ≡ put_group (replicate n []) peers =
                  ok-injective (rw replicated at last) in
                put_group-Shared batch size engines c q qs peers refl replicated
                  (ap (λ g. get_elem? g c) (sym e) ∙ found)
            | inr different ↦ none_built (ok-injective (rw different at last))
          ]
    ]
