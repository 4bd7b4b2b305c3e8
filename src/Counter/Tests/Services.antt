-- ===== src/Counter/Tests/Services.antt =====
-- Toggles of first_post user, follows, and a failing rebuild.
use zhiguang_go.Base.{◌≡◌, refl, true, false, none, some, [], ◌∷◌, arith, Bytes, codes, inl, inr}
use zhiguang_go.Counter.Toggle.{Redis, Service, is_set}
use zhiguang_go.Counter.Toggle.Effects.{is_scored, is_member}
use zhiguang_go.Counter.Toggle.Stream.{weight, Call, run, IsBalanced, run-IsBalanced}
use zhiguang_go.Counter.Publish.{Publisher, Publishing}
use zhiguang_go.Counter.Publish.Balance.{accounted, sum_deltas, sum_failures}
use zhiguang_go.Base.Int.{◌+ℤ◌}
use zhiguang_go.Counter.UserCounter
use zhiguang_go.Counter.Backoff.{Repair, BackoffConfig, in_backoff, escalate_backoff, attempt_count}
use zhiguang_go.Counter.Backoff.Windows.{escalate_backoff_wraps}

abbrev like_metric : Bytes
like_metric = codes "like"

abbrev post_type : Bytes
post_type = codes "kp"

abbrev first_post : Bytes
first_post = codes "1"

abbrev redis : Redis
redis = record { bits = λ k o. false; zset = λ k m. none }

abbrev publisher : Publisher
publisher = record {
  has_producer = true;
  published = [];
  dirty = [];
  has_recorder = true;
  failure_topic = codes "counter-events";
  failures = [];
}

abbrev service : Service
service = record { redis = redis; next_message_id = 1; publisher = publisher }

abbrev sent : Publishing
sent = record { error = none; mark_fails = false; record_fails = false }

abbrev unsent : Publishing
unsent = record { error = some (codes "broker down"); mark_fails = false; record_fails = false }

abbrev on : Call
on = record { fails = false; publishing = sent; now = 100; user = 7; on = true }

abbrev off : Call
off = record { fails = false; publishing = unsent; now = 101; user = 7; on = false }

service-IsBalanced : IsBalanced like_metric post_type first_post 7 service
unfolding is_set accounted sum_deltas sum_failures weight is_member is_scored ◌+ℤ◌
service-IsBalanced = record {
  ready = record { producing = refl; recording = refl; dirty_marked = tt };
  balance = refl;
  in_step = refl;
}

run-IsBalanced_example :
    IsBalanced like_metric post_type first_post 7
      (run like_metric post_type first_post service (on ∷ off ∷ on ∷ []))
run-IsBalanced_example =
    run-IsBalanced like_metric post_type first_post 7 service (on ∷ off ∷ on ∷ []) (ground arith)
      (ground arith) (inl refl, (inr (refl, refl), (inl refl, tt))) service-IsBalanced

abbrev users : UserCounter.Redis
users = record { marks = λ k. none; hash = λ k f. none }

abbrev repair : Repair
repair = record { until = none; exponent = none; limiter = none }

abbrev worn : Repair
worn = record { until = none; exponent = some (62, 10_000_000); limiter = none }

abbrev backoff : BackoffConfig
backoff = record { base_ms = 500; max_ms = 30000 }

escalate_backoff_wraps_example :
    in_backoff false 1000 (escalate_backoff backoff false false 1000 worn) ≡ false
unfolding attempt_count
escalate_backoff_wraps_example = escalate_backoff_wraps backoff 125 1000 worn refl refl
