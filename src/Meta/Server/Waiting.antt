-- ===== src/Meta/Server/Waiting.antt =====
-- awex/meta/meta_server.py: the waits end, and with what.
use awex.Prelude.{
  ℕ, zero, suc, ◌+◌, ◌-◌, ◌*◌, ◌≤◌, ◌<◌, ◌≡◌, refl, ◌⊎◌, inl, inr, String, Bool, true, false,
  Option, none, leb, ltb, ◌==◌, if◌then◌else◌, arith, Bool-cases, leb→le,
}
use awex.Prelude.Outcome.{Outcome, ok, err, Outcome-cases}
use awex.Meta.Server.State.{Codec, MetaServer}
use awex.Meta.Server.Client.{ClientError, get_object, client_add_object_to_set}
use awex.Meta.Server.Reached.{
  Reached, reached_now, reached_look, reached_trans, reached_sleep, slow_check-unmoved,
}
use awex.Meta.Server.Wait.{
  WaitError, client_error, World, Watch, Waited, deleted, found, timed_out, out_of_fuel, failed,
  first_backoff, next_backoff, slowed, server_now, look, sleep, slow_check, has_key_now, wait_key,
  size_of, size_after, wait_loop, after_wait, wait_set_until_size, barrier_wait, barrier,
}

slowed-ge : (elapsed backoff : ℕ) → 200 ≤ backoff → 200 ≤ slowed elapsed backoff
slowed-ge elapsed backoff h = ground arith

slowed-le : (elapsed backoff : ℕ) → backoff ≤ 3000 → slowed elapsed backoff ≤ 3000
slowed-le elapsed backoff h = ground arith

next_backoff-ge : (backoff cap : ℕ) → 200 ≤ backoff → 200 ≤ cap → 200 ≤ next_backoff backoff cap
next_backoff-ge backoff cap h k = omega arith

next_backoff-le : (backoff : ℕ) → next_backoff backoff 1000 ≤ 3000
next_backoff-le backoff = omega arith

module _ {Bytes Obj Json : Type 0} (lib : Codec Bytes Obj Json) (len : Obj → Option ℕ)
    (world : World Bytes) (key : String) where
  -- A wait for a key that has ended, with the clock no earlier than before.
  record KeySettled (before : Watch Bytes Obj) (result : Watch Bytes Obj × Waited) : Type 0 where
    outcome : (result.1 ≡ found) ⊎ (result.1 ≡ timed_out)
    later : before.time ≤ result.0.time
    reached : Reached lib len world key before result.0

  slow_check-le :
      (last_check : ℕ) (watch : Watch Bytes Obj)
      → watch.time ≤ (slow_check lib len world key last_check watch).time
  slow_check-le last_check watch = elim (Bool-cases (ltb 3000 (watch.time - last_check))) [
    | inl long ↦ rw long (omega arith)
    | inr short ↦ rw short (omega arith)
  ]

  wait_key-KeySettled :
      (fuel start last_check : ℕ) (watch : Watch Bytes Obj) (timeout backoff : ℕ)
      → 200 ≤ backoff
      → timeout < fuel * 200
      → KeySettled watch (wait_key lib len world key fuel start last_check watch timeout backoff)
  unfolding wait_key
  wait_key-KeySettled zero start last_check watch timeout backoff slow enough = absurd (omega arith)
  wait_key-KeySettled (suc fuel) start last_check watch timeout backoff slow enough =
      let now = look lib len world key watch in
      let checked = slow_check lib len world key last_check now in
      let interval = slowed (checked.time - start) backoff in
      let slept = sleep lib len world key interval checked in
      let low = slowed-ge (checked.time - start) backoff slow in
      let later : watch.time ≤ slept.time = omega (arith, slow_check-le last_check now) in
      let after_sleep : (after : Watch Bytes Obj)
          → Reached lib len world key slept after
          → Reached lib len world key watch after =
        λ after h.
          reached_look lib len world key watch after
            (reached_sleep lib len world key last_check interval now after h) in
      elim (Bool-cases (has_key_now lib len world key now.server)) [
        | inl there ↦ rw there (record {
          outcome = inl refl;
          later = omega arith;
          reached = reached_look lib len world key watch now (reached_now lib len world key now);
        })
        | inr missing ↦ elim (Bool-cases (leb timeout interval)) [
          | inl over ↦
              rw (missing, over)
                (record {
                  outcome = inr refl;
                  later = later;
                  reached = after_sleep slept (reached_now lib len world key slept);
                })
          | inr left ↦
              let more : interval < timeout = ground arith in
              let r =
                wait_key-KeySettled fuel start slept.time slept (timeout - interval)
                  (next_backoff interval 1000) (next_backoff-ge interval 1000 low (omega arith))
                  (omega arith) in
              rw (missing, left)
                (record {
                  outcome = r.outcome;
                  later = omega (arith, later, r.later);
                  reached =
                      after_sleep
                        (wait_key lib len world key fuel start slept.time slept (timeout - interval)
                          (next_backoff interval 1000)).0
                        r.reached;
                })
        ]
      ]

  -- The server as the look with this number finds it, from 0 on, for the number of looks before.
  abbrev pub nth_look : ℕ → ℕ → MetaServer Bytes Obj → MetaServer Bytes Obj
  nth_look zero looks server = server_now lib len world key looks server
  nth_look (suc n) looks server = nth_look n (looks + 1) (server_now lib len world key looks server)

  -- If the key is there at look `n`, from 0 on, the interval is at most three seconds, more than
  -- `3 * n` seconds are left and the fuel is more than `n`, the wait finds the key.
  pub wait_key-nth_look :
      (n fuel start last_check : ℕ) (watch : Watch Bytes Obj) (timeout backoff : ℕ)
      → backoff ≤ 3000
      → n * 3000 < timeout
      → n < fuel
      → has_key_now lib len world key (nth_look n watch.looks watch.server) ≡ true
      → (wait_key lib len world key fuel start last_check watch timeout backoff).1 ≡ found
  unfolding wait_key
  wait_key-nth_look n zero start last_check watch timeout backoff fast left fewer there =
      absurd (omega arith)
  wait_key-nth_look zero (suc fuel) start last_check watch timeout backoff fast left fewer there =
      rw there refl
  wait_key-nth_look (suc n) (suc fuel) start last_check watch timeout backoff fast left fewer
        there =
      let now = look lib len world key watch in
      let checked = slow_check lib len world key last_check now in
      let interval = slowed (checked.time - start) backoff in
      let slept = sleep lib len world key interval checked in
      let high = slowed-le (checked.time - start) backoff fast in
      elim (Bool-cases (has_key_now lib len world key now.server)) [
        | inl early ↦ rw early refl
        | inr missing ↦
            let more : leb timeout interval ≡ false = ground arith in
            let unmoved : (checked.server ≡ now.server) × (checked.looks ≡ now.looks) =
              slow_check-unmoved lib len world key last_check now in
            rw (missing, more)
              (wait_key-nth_look n fuel start slept.time slept (timeout - interval)
                (next_backoff interval 1000) (next_backoff-le interval) (omega arith) (omega arith)
                (rw (unmoved.0, unmoved.1) there))
      ]

  -- The set that the server holds has at least this size.
  abbrev pub HasSize : ℕ → MetaServer Bytes Obj → Type 0
  HasSize size server =
      (n : ℕ) × (size_of lib len world key (get_object lib server key none) ≡ ok n) × (size ≤ n)

  -- How a wait for a set that began at a watch ends: where it has found the size, it is a set that
  -- the server held at a look.
  abbrev pub SetSettled : Watch Bytes Obj → ℕ → Watch Bytes Obj × Waited → Type 0
  SetSettled before size result =
      ((result.1 ≡ found)
        × HasSize size result.0.server
        × Reached lib len world key before result.0)
      ⊎ ((result.1 ≡ timed_out) ⊎ ((e : WaitError) × (result.1 ≡ failed e)))

  SetSettled-before :
      (earlier before : Watch Bytes Obj) (size : ℕ) (result : Watch Bytes Obj × Waited)
      → Reached lib len world key earlier before
      → SetSettled before size result
      → SetSettled earlier size result
  SetSettled-before earlier before size result reached (inl (e, held, h)) =
      inl (e, held, reached_trans lib len world key earlier before result.0 reached h)
  SetSettled-before earlier before size result reached (inr h) = inr h

  size_after-HasSize :
      (size n : ℕ) (waited : Watch Bytes Obj × Waited)
      → 0 < size
      → (size_after lib len world key waited).1 ≡ ok n
      → size ≤ n
      → HasSize size (size_after lib len world key waited).0.server
  size_after-HasSize size n (watch, found) positive h le = (n, h, le)
  size_after-HasSize size n (watch, timed_out) positive h le =
      let e : n ≡ 0 = ground arith in absurd (omega arith)
  size_after-HasSize size n (watch, out_of_fuel) positive h le =
      let e : n ≡ 0 = ground arith in absurd (omega arith)
  size_after-HasSize size n (watch, failed e') positive h le =
      let e : n ≡ 0 = ground arith in absurd (omega arith)

  size_after-le :
      (waited : Watch Bytes Obj × Waited)
      → waited.0.time ≤ (size_after lib len world key waited).0.time
  size_after-le (watch, found) = omega arith
  size_after-le (watch, timed_out) = omega arith
  size_after-le (watch, out_of_fuel) = omega arith
  size_after-le (watch, failed e) = omega arith

  size_after-Reached :
      (before : Watch Bytes Obj) (waited : Watch Bytes Obj × Waited)
      → Reached lib len world key before waited.0
      → Reached lib len world key before (size_after lib len world key waited).0
  size_after-Reached before (watch, found) h =
      let now = look lib len world key watch in
      reached_trans lib len world key before watch now h
        (reached_look lib len world key watch now (reached_now lib len world key now))
  size_after-Reached before (watch, timed_out) h = h
  size_after-Reached before (watch, out_of_fuel) h = h
  size_after-Reached before (watch, failed e) h = h

  module _ (start size timeout : ℕ) (positive : 0 < size) where
    wait_loop-SetSettled :
        (fuel : ℕ) (watch : Watch Bytes Obj) (backoff cap : ℕ)
        → 200 ≤ backoff
        → 200 ≤ cap
        → 0 < fuel
        → start + timeout ≤ watch.time + 200 * fuel
        → SetSettled watch size
            (wait_loop lib len world key fuel start watch size timeout backoff cap)
    unfolding wait_loop
    wait_loop-SetSettled zero watch backoff cap low low' some_fuel enough = absurd (omega arith)
    wait_loop-SetSettled (suc fuel) watch backoff cap low low' some_fuel enough =
        let waited =
          wait_key lib len world key (backoff + 1) watch.time watch.time watch backoff
            first_backoff in
        let k =
          wait_key-KeySettled (backoff + 1) watch.time watch.time watch backoff first_backoff
            (omega arith) (omega arith) in
        let current = size_after lib len world key waited in
        let now = current.0 in
        let seen = size_after-Reached watch waited k.reached in
        let elapsed = now.time - start in
        let interval = slowed elapsed backoff in
        let cap' = slowed elapsed cap in
        let slept = sleep lib len world key interval now in
        let long = slowed-ge elapsed backoff low in
        let later : watch.time + 200 ≤ slept.time =
          omega (arith, k.later, size_after-le waited, long) in
        let rest =
          wait_loop lib len world key fuel start slept size timeout (next_backoff interval cap')
            cap' in
        let settle : (0 < fuel)
            → start + timeout ≤ slept.time + 200 * fuel
            → SetSettled slept size rest =
          λ more enough'.
            wait_loop-SetSettled fuel slept (next_backoff interval cap') cap'
              (next_backoff-ge interval cap' long (slowed-ge elapsed cap low'))
              (slowed-ge elapsed cap low') more enough' in
        elim (Outcome-cases current.1) [
          | inr (e, h) ↦ rw h (inr (inr (e, refl)))
          | inl (n, h) ↦ elim (Bool-cases (leb size n)) [
            | inl full ↦
                rw (h, full)
                  (inl
                    (refl, size_after-HasSize size n waited positive h (leb→le size n full), seen))
            | inr short ↦ elim (Bool-cases (leb (start + timeout) slept.time)) [
              | inl over ↦ rw (h, short, over) (inr (inl refl))
              | inr left ↦
                  let more : slept.time < start + timeout = ground arith in
                  rw (h, short, left)
                    (SetSettled-before watch slept size rest seen
                      (settle (omega arith) (omega arith)))
            ]
          ]
        ]

  -- How a wait ends that began at a watch and may delete the set: where it has found the size, the
  -- server held that set at a look since, and nothing follows that look but, where the set is
  -- deleted, one more look and the deletion.
  abbrev pub Ended : Watch Bytes Obj → ℕ → Bool → Watch Bytes Obj × Waited → Type 0
  Ended before size deletes result =
      ((result.1 ≡ found)
        × ((full : Watch Bytes Obj) × Reached lib len world key before full
            × HasSize size full.server
            × (result.0 ≡ (if deletes then deleted lib len world key full else full))))
      ⊎ ((result.1 ≡ timed_out) ⊎ ((e : WaitError) × (result.1 ≡ failed e)))

  after_wait-Ended :
      (before : Watch Bytes Obj) (size : ℕ) (deletes : Bool) (result : Watch Bytes Obj × Waited)
      → SetSettled before size result
      → Ended before size deletes (after_wait lib len world key deletes result)
  after_wait-Ended before size false (watch, waited) (inl (e, held, h)) =
      inl (e, (watch, h, held, refl))
  after_wait-Ended before size true (watch, found) (inl (e, held, h)) =
      inl (refl, (watch, h, held, refl))
  after_wait-Ended before size true (watch, timed_out) (inl (e, held, h)) = cc
  after_wait-Ended before size true (watch, out_of_fuel) (inl (e, held, h)) = cc
  after_wait-Ended before size true (watch, failed e') (inl (e, held, h)) = cc
  after_wait-Ended before size false (watch, waited) (inr h) = inr h
  after_wait-Ended before size true (watch, found) (inr h) = inr h
  after_wait-Ended before size true (watch, timed_out) (inr h) = inr h
  after_wait-Ended before size true (watch, out_of_fuel) (inr h) = inr h
  after_wait-Ended before size true (watch, failed e') (inr h) = inr h

  -- A wait for a set of at least one object ends within its fuel: at a look since it began the
  -- server held a set of that size, and the key may be deleted after one more look; or it has timed
  -- out; or a request has failed or the object under the key has no length.
  pub wait_set_until_size-Ended :
      (watch : Watch Bytes Obj) (size timeout : ℕ) (deletes : Bool)
      → 0 < size
      → Ended watch size deletes (wait_set_until_size lib len world key watch size timeout deletes)
  unfolding wait_set_until_size
  wait_set_until_size-Ended watch size timeout deletes positive =
      after_wait-Ended watch size deletes
        (wait_loop lib len world key (timeout + 1) watch.time watch size timeout first_backoff 1000)
        (wait_loop-SetSettled watch.time size timeout positive (timeout + 1) watch first_backoff
          1000 (omega arith) (omega arith) (omega arith) (omega arith))

  -- The watch of a rank that has added itself to the set.
  abbrev pub arrived : (ℕ → Obj) → Watch Bytes Obj → ℕ → Watch Bytes Obj
  arrived rank_object watch rank = record watch {
    server = (client_add_object_to_set lib watch.server key (rank_object rank)).0;
  }

  -- A barrier of at least one rank ends within its fuel: at a look since this rank arrived the server
  -- held a set of as many objects as there are ranks, which rank 0 deletes after one more look; or
  -- it has timed out; or a request has failed or the object under the key has no length.
  pub barrier-Ended :
      (rank_object : ℕ → Obj) (watch : Watch Bytes Obj) (rank world_size timeout : ℕ)
      → 0 < world_size
      → Ended
          (arrived rank_object watch rank)
          world_size
          (rank == 0)
          (barrier lib len world key rank_object watch rank world_size timeout)
  unfolding barrier
  barrier-Ended rank_object watch rank world_size timeout positive =
      barrier_wait-Ended (client_add_object_to_set lib watch.server key (rank_object rank))
    where
      plain_wait :
          (before : Watch Bytes Obj) (result : Watch Bytes Obj × Waited)
          → Ended before world_size false result
          → SetSettled before world_size result
      plain_wait before result (inl (e, (full, h, held, same))) = inl (e, rw same held, rw same h)
      plain_wait before result (inr h) = inr h

      barrier_wait-Ended :
          (added : MetaServer Bytes Obj × Outcome ClientError (Unit {0}))
          → Ended
              (record watch { server = added.0 })
              world_size
              (rank == 0)
              (barrier_wait lib len world key rank world_size timeout added watch.looks watch.time)
      barrier_wait-Ended (server, err e) = inr (inr (client_error e, refl))
      barrier_wait-Ended (server, ok u) =
          let before : Watch Bytes Obj = record watch { server = server } in
          let result = wait_set_until_size lib len world key before world_size timeout false in
          after_wait-Ended before world_size (rank == 0) result (
            plain_wait before result
              (wait_set_until_size-Ended before world_size timeout false positive))
