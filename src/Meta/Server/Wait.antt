-- ===== src/Meta/Server/Wait.antt =====
-- awex/meta/meta_server.py: the calls of `MetaServerClient` that wait. Times are milliseconds. What
-- the other clients have asked for before each look at the server, the time that the look takes and
-- how much longer the sleeps after it last than asked for are arguments.
use awex.Prelude.{
  ℕ, zero, suc, ◌+◌, ◌-◌, ◌*◌, ◌/◌, String, Bool, true, false, Option, none, some, List, min, leb,
  ltb, ◌==◌, if◌then◌else◌,
}
use awex.Prelude.Outcome.{Outcome, ok, err, or_raise}
use awex.Meta.Server.Dict.{has}
use awex.Meta.Server.State.{Codec, MetaServer, Request}
use awex.Meta.Server.Handlers.{serve}
use awex.Meta.Server.Client.{ClientError, get_object, client_add_object_to_set, delete_if_exists}

pub record World (Bytes : Type 0) : Type 0 where
  pub requests : ℕ → List (Request Bytes)
  pub latency : ℕ → ℕ
  pub oversleep : ℕ → ℕ

-- The server, how many looks a client has had, and the clock.
pub record Watch (Bytes Obj : Type 0) : Type 0 where
  pub server : MetaServer Bytes Obj
  pub looks : ℕ
  pub time : ℕ

-- What a wait raises besides its `TimeoutError`: what a request raises, and the `TypeError` of `len`
-- where another client has put an object without a length under the key.
pub data WaitError : Type 0 where
  client_error : ClientError → WaitError
  no_length : WaitError

-- How a wait ends.
pub data Waited : Type 0 where
  found : Waited
  timed_out : Waited
  out_of_fuel : Waited
  failed : WaitError → Waited

abbrev pub first_backoff : ℕ
first_backoff = 200

-- `min(backoff_interval * backoff_multiplier, max_backoff)`
abbrev pub next_backoff : ℕ → ℕ → ℕ
next_backoff backoff max_backoff = min (backoff * 3 / 2) max_backoff

-- After a minute the interval is three seconds.
abbrev pub slowed : ℕ → ℕ → ℕ
slowed elapsed backoff = if ltb 60000 elapsed then 3000 else backoff

module _ {Bytes Obj Json : Type 0} (lib : Codec Bytes Obj Json) (len : Obj → Option ℕ)
    (world : World Bytes) (key : String) where
  abbrev pub server_now : ℕ → MetaServer Bytes Obj → MetaServer Bytes Obj
  server_now looks server = (serve lib server (world.requests looks)).0

  -- One request of the client: the server as it finds it.
  abbrev pub look : Watch Bytes Obj → Watch Bytes Obj
  look watch = record {
    server = server_now watch.looks watch.server;
    looks = watch.looks + 1;
    time = watch.time + world.latency watch.looks;
  }

  -- `time.sleep`
  abbrev pub sleep : ℕ → Watch Bytes Obj → Watch Bytes Obj
  sleep interval watch = record {
    server = watch.server;
    looks = watch.looks;
    time = watch.time + interval + world.oversleep watch.looks;
  }

  abbrev pub has_key_now : MetaServer Bytes Obj → Bool
  has_key_now server = has key server.storage

  -- The sleep of three seconds where the last check is that long ago.
  abbrev pub slow_check : ℕ → Watch Bytes Obj → Watch Bytes Obj
  slow_check last_check watch =
      if ltb 3000 (watch.time - last_check) then sleep 3000 watch else watch

  unfoldable pub wait_key : ℕ → ℕ → ℕ → Watch Bytes Obj → ℕ → ℕ → Watch Bytes Obj × Waited
  wait_key zero start last_check watch timeout backoff = (watch, out_of_fuel)
  wait_key (suc fuel) start last_check watch timeout backoff =
      let now = look watch in
      let checked = slow_check last_check now in
      let interval = slowed (checked.time - start) backoff in
      let slept = sleep interval checked in
      let rest =
        wait_key fuel start slept.time slept (timeout - interval) (next_backoff interval 1000) in
      if has_key_now now.server
      then (now, found)
      else if leb timeout interval
      then (slept, timed_out)
      else rest

  -- `len(...)` of what `get_object(key, timeout=..., default_value=set())` returns.
  abbrev pub size_of : Outcome ClientError (Option Obj) → Outcome WaitError ℕ
  size_of (ok none) = ok 0
  size_of (ok (some objs)) = or_raise (len objs) no_length
  size_of (err e) = err (client_error e)

  -- What `get_object` does after its wait: where that timed out, the default is taken.
  abbrev pub size_after : Watch Bytes Obj × Waited → Watch Bytes Obj × Outcome WaitError ℕ
  size_after (watch, found) = (look watch, size_of (get_object lib (look watch).server key none))
  size_after (watch, _) = (watch, ok 0)

  -- The rest of a round of `while True`, for the size of the set, with the clock after the sleep.
  abbrev pub close_round :
      ℕ
      → ℕ
      → Watch Bytes Obj
      → Watch Bytes Obj
      → (Watch Bytes Obj × Waited)
      → Outcome WaitError ℕ
      → Watch Bytes Obj × Waited
  close_round size deadline now slept rest (err e) = (now, failed e)
  close_round size deadline now slept rest (ok n) =
      if leb size n
      then (now, found)
      else if leb deadline slept.time
      then (slept, timed_out)
      else rest

  unfoldable pub wait_loop : ℕ → ℕ → Watch Bytes Obj → ℕ → ℕ → ℕ → ℕ → Watch Bytes Obj × Waited
  wait_loop zero start watch size timeout backoff max_backoff = (watch, out_of_fuel)
  wait_loop (suc fuel) start watch size timeout backoff max_backoff =
      let current =
        size_after (wait_key (backoff + 1) watch.time watch.time watch backoff first_backoff) in
      let now = current.0 in
      let interval = slowed (now.time - start) backoff in
      let cap = slowed (now.time - start) max_backoff in
      let slept = sleep interval now in
      close_round size (start + timeout) now slept
        (wait_loop fuel start slept size timeout (next_backoff interval cap) cap) current.1

  -- The key is deleted, after what other clients have asked for since the last look.
  abbrev pub deleted : Watch Bytes Obj → Watch Bytes Obj
  deleted watch =
      let now = look watch in record now { server = delete_if_exists lib now.server key }

  -- `delete_after_wait`
  abbrev pub after_wait : Bool → Watch Bytes Obj × Waited → Watch Bytes Obj × Waited
  after_wait true (watch, found) = (deleted watch, found)
  after_wait _ waited = waited

  unfoldable pub wait_set_until_size : Watch Bytes Obj → ℕ → ℕ → Bool → Watch Bytes Obj × Waited
  wait_set_until_size watch size timeout delete_after_wait =
      after_wait delete_after_wait
        (wait_loop (timeout + 1) watch.time watch size timeout first_backoff 1000)

  -- `barrier`, after what its `add_object_to_set` returned.
  abbrev pub barrier_wait :
      ℕ
      → ℕ
      → ℕ
      → MetaServer Bytes Obj × Outcome ClientError (Unit {0})
      → ℕ
      → ℕ
      → Watch Bytes Obj × Waited
  barrier_wait rank world_size timeout (server, err e) looks time =
      (record { server = server; looks = looks; time = time }, failed (client_error e))
  barrier_wait rank world_size timeout (server, ok _) looks time = after_wait (rank == 0) (
      wait_set_until_size (record { server = server; looks = looks; time = time }) world_size
        timeout false)

  unfoldable pub barrier : (ℕ → Obj) → Watch Bytes Obj → ℕ → ℕ → ℕ → Watch Bytes Obj × Waited
  barrier rank_object watch rank world_size timeout =
      barrier_wait rank world_size timeout
        (client_add_object_to_set lib watch.server key (rank_object rank)) watch.looks watch.time
