-- ===== src/Meta/Server/WaitTests.antt =====
-- Waits on the server of the tests: a second client arrives before the fourth look.
use awex.Prelude.{ℕ, suc, Option, none, some, ◌≡◌, refl, ◌==◌, true, [], ◌∷◌, if◌then◌else◌, arith}
use awex.Meta.Server.State.{add_object_to_set, put_binary}
use awex.Meta.Server.Handlers.{init_server, handle, serve}
use awex.Meta.Server.Client.{client_add_object_to_set, get_object}
use awex.Meta.Server.Wait.{
  World, Watch, found, timed_out, failed, no_length, wait_key, wait_loop, wait_set_until_size,
  barrier,
}
use awex.Meta.Server.Waiting.{
  Ended, arrived, wait_key-nth_look, wait_set_until_size-Ended, barrier-Ended,
}
use awex.Meta.Server.Tests.{Numbers, codec, rank}

abbrev count : Numbers → ℕ
count [] = 0
count (n ∷ ns) = suc (count ns)

-- The empty list of numbers stands for an object without a length.
abbrev len_of : Numbers → Option ℕ
len_of [] = none
len_of (n ∷ ns) = some (count (n ∷ ns))

abbrev arrivals : World Numbers
arrivals = record {
  requests =
      λ k. if k == 3 then add_object_to_set "b" (rank 1) ∷ put_binary "k" (7 ∷ []) ∷ [] else [];
  latency = λ k. 5;
  oversleep = λ k. 1;
}

abbrev spoilt : World Numbers
spoilt = record {
  requests = λ k. if k == 3 then put_binary "b" [] ∷ [] else [];
  latency = λ k. 5;
  oversleep = λ k. 1;
}

abbrev before : Watch Numbers Numbers
before = record { server = init_server; looks = 0; time = 1000 }

-- Rank 0 waits for rank 1.
two_ranks : (barrier codec len_of arrivals "b" rank before 0 2 5000).1 ≡ found
unfolding barrier wait_set_until_size wait_loop wait_key client_add_object_to_set get_object serve
    handle
two_ranks = refl

-- A third rank never comes.
three_ranks : (barrier codec len_of arrivals "b" rank before 0 3 5000).1 ≡ timed_out
unfolding barrier wait_set_until_size wait_loop wait_key client_add_object_to_set get_object serve
    handle
three_ranks = refl

wait_key-nth_look_example :
    (wait_key codec len_of arrivals "k" 40 1000 1000 before 10000 200).1 ≡ found
unfolding serve handle
wait_key-nth_look_example =
    wait_key-nth_look codec len_of arrivals "k" 3 40 1000 1000 before 10000 200 (omega arith)
      (omega arith) (omega arith) refl

wait_set_until_size-Ended_example :
    Ended codec len_of arrivals "b" before 1 true
      (wait_set_until_size codec len_of arrivals "b" before 1 5000 true)
wait_set_until_size-Ended_example =
    wait_set_until_size-Ended codec len_of arrivals "b" before 1 5000 true (omega arith)

barrier-Ended_example :
    Ended codec len_of arrivals "b"
      (arrived codec len_of arrivals "b" rank before 0)
      2
      true
      (barrier codec len_of arrivals "b" rank before 0 2 5000)
barrier-Ended_example = barrier-Ended codec len_of arrivals "b" rank before 0 2 5000 (omega arith)

-- Another client has put an object without a length under the key of the set.
no_set : (wait_set_until_size codec len_of spoilt "b" before 1 5000 true).1 ≡ failed no_length
unfolding wait_set_until_size wait_loop wait_key get_object serve handle
no_set = refl
