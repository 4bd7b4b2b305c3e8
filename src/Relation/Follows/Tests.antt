-- ===== src/Relation/Follows/Tests.antt =====
-- Follow and Unfollow on one pair of users.
use zhiguang_go.Base.{◌≡◌, refl, true, false, none, some, List, [], ◌∷◌}
use zhiguang_go.Relation.Follows.{World, Faults, token_bucket_lua}
use zhiguang_go.Relation.Follows.Stream.{
  Call, following_call, unfollowing_call, run, IsInStep, run-IsInStep, sum_events, weight,
}

abbrev fresh : World
fresh = record { following = λ a b. none; follower = λ a b. none; outbox = []; buckets = λ u. none }

fresh-IsInStep : IsInStep fresh
unfolding sum_events weight
fresh-IsInStep = record { mirrored = λ a b. refl; balanced = λ a b. refl }

abbrev fine : Faults
fine = record { eval = false; first = false; second = false; commit = false }

abbrev broken : Faults
broken = record { eval = false; first = false; second = true; commit = false }

-- The second call changes nothing, and the fourth is rolled back.
abbrev calls : List Call
calls =
    following_call fine 100 1 5 6
    ∷ following_call fine 101 2 5 6
    ∷ unfollowing_call fine 5 6
    ∷ following_call broken 102 3 5 6
    ∷ []

run-IsInStep_example : IsInStep (run none calls fresh)
run-IsInStep_example = run-IsInStep none calls fresh fresh-IsInStep

-- An empty bucket gains a token in a second.
refill_test :
    token_bucket_lua 10 1 101 (some (record { last = 100; tokens = 0; until = some 160 }))
    ≡ (true, some (record { last = 101; tokens = 0; until = some 161 }))
unfolding token_bucket_lua
refill_test = refl
