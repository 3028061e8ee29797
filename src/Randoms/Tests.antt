-- ===== src/Randoms/Tests.antt =====
-- Concrete runs of the cache, and the theorems at inputs that meet their premises.
use mtproxy.Prelude.{◌||◌, ◌++◌, ◌⊎◌, ◌≡◌, refl, inl, inr, Bool, true, false, [], ◌∷◌, arith}
use mtproxy.Prelude.Bytes.{Bytes, same_bytes}
use mtproxy.Prelude.Run.{Run, ok, Returns}
use mtproxy.Randoms.{
  no_client_randoms, ClientRandom, Cache, get_client_random_bucket, bucket_loop, has_random,
  have_client_random, add_client_random, delete_loop, delete_old_client_randoms, next_by_hash,
  cut_chain,
}
use mtproxy.Randoms.{is_allowed_timestamp}
use mtproxy.Randoms.History.{at_once, added, is_allowed_timestamp-replay}
use mtproxy.Randoms.Replay.{Sorted, no_client_randoms-IsCache}
use mtproxy.Randoms.Chains.{chain_of}
use mtproxy.Randoms.Replay.{
  IsCache, add_client_random_lem, delete_old_client_randoms-IsCache,
  delete_old_client_randoms_young,
}

-- Two randoms of one bucket, and one of another.
abbrev first_random : Bytes
first_random = 1 ∷ 2 ∷ 3 ∷ []

abbrev second_random : Bytes
second_random = 1 ∷ 2 ∷ 4 ∷ []

abbrev third_random : Bytes
third_random = 9 ∷ 2 ∷ 4 ∷ []

abbrev first_entry : ClientRandom
first_entry = record { address = 0; random = first_random; time = 100 }

abbrev second_entry : ClientRandom
second_entry = record { address = 1; random = second_random; time = 200000 }

abbrev third_entry : ClientRandom
third_entry = record { address = 2; random = third_random; time = 200001 }

abbrev three : Cache
three = record {
  client_randoms = λ h. chain_of h (first_entry ∷ second_entry ∷ third_entry ∷ []);
  by_time = first_entry ∷ second_entry ∷ third_entry ∷ [];
  allocated = 3;
}

three-IsCache : IsCache three
three-IsCache = record {
  chains = λ h. refl;
  ordered = (
    (omega arith, (omega arith, tt)),
    omega arith,
    ((omega arith, tt), omega arith, (tt, omega arith, tt)),
  );
}

abbrev found : Bytes → Run Cache → Bool
found r (ok s) = have_client_random r s
found r _ = false

-- At 250000 the first random is two days old, and the second one is not.
old_is_forgotten : found first_random (delete_old_client_randoms 250000 three) ≡ false
unfolding delete_old_client_randoms delete_loop have_client_random has_random
    get_client_random_bucket bucket_loop next_by_hash cut_chain chain_of same_bytes
old_is_forgotten = refl

add_client_random_lem_example :
    (IsCache (add_client_random 250000 (7 ∷ []) no_client_randoms))
    × (have_client_random (7 ∷ []) (add_client_random 250000 (7 ∷ []) no_client_randoms)
        ≡ (same_bytes (7 ∷ []) (7 ∷ []) || have_client_random (7 ∷ []) no_client_randoms))
    × ((e : ClientRandom) × (e.random ≡ 7 ∷ [])
        × (e.time ≡ 250000)
        × ((add_client_random 250000 (7 ∷ []) no_client_randoms).by_time
            ≡ no_client_randoms.by_time ++ e ∷ []))
add_client_random_lem_example =
    add_client_random_lem 250000 (7 ∷ []) (7 ∷ []) no_client_randoms no_client_randoms-IsCache

delete_old_client_randoms-IsCache_example : Returns IsCache (delete_old_client_randoms 250000 three)
delete_old_client_randoms-IsCache_example =
    delete_old_client_randoms-IsCache 250000 three three-IsCache

delete_old_client_randoms_young_example :
    Returns
      (λ u. have_client_random second_random u ≡ true)
      (delete_old_client_randoms 250000 three)
delete_old_client_randoms_young_example =
    delete_old_client_randoms_young 250000 three second_entry three-IsCache (inr (inl refl))
      (omega arith)

three-Sorted : Sorted three.by_time 250000
three-Sorted = (
  (omega arith, (omega arith, tt)),
  omega arith,
  ((omega arith, tt), omega arith, (tt, omega arith, tt)),
)

-- The hello with the random 7 came at 250000; another one came at 250010.
abbrev grown : Cache
grown = add_client_random 250000 (7 ∷ []) three

abbrev grown_twice : Cache
grown_twice = add_client_random 250010 (8 ∷ []) grown

is_allowed_timestamp-replay_example :
    (have_client_random (7 ∷ []) grown_twice ≡ true)
    ⊎ (is_allowed_timestamp 250010 249990 grown_twice ≡ false)
unfolding is_allowed_timestamp
is_allowed_timestamp-replay_example =
    is_allowed_timestamp-replay 250000 (7 ∷ []) 249990 three three 250010 grown_twice three-IsCache
      three-Sorted (omega arith) refl (added 250000 250010 grown (8 ∷ []) at_once (omega arith))
      (omega arith)
