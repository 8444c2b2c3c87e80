-- ===== src/Backoff/Tests.antt =====
-- Examples of the retry delay (outbox.go, backoff).
use binfinity_addon_sdk.Prelude.{NonNegative, arith, codes, ◌+◌, ◌/◌, ◌<◌, ◌≤◌}
use binfinity_addon_sdk.Backoff.{backoff, seed_from}
use binfinity_addon_sdk.Backoff.Bounds.{backoff_jittered, capped, seed_from-NonNegative}

-- Two seconds, doubled three times, under a cap of two minutes.
backoff_jittered_example :
    (capped 3 2000000000 120000000000 ≤ backoff 3 2000000000 120000000000 7)
    × (backoff 3 2000000000 120000000000 7
        ≤ capped 3 2000000000 120000000000 + capped 3 2000000000 120000000000 / 4)
    × (4 ≤ capped 3 2000000000 120000000000
        → backoff 3 2000000000 120000000000 7
          < capped 3 2000000000 120000000000 + capped 3 2000000000 120000000000 / 4)
backoff_jittered_example = backoff_jittered 3 2000000000 120000000000 7 (omega arith) (omega arith)

seed_from-NonNegative_example : NonNegative (seed_from (codes "addon-1"))
seed_from-NonNegative_example = seed_from-NonNegative (codes "addon-1")
