-- ===== src/Runner/Tests.antt =====
-- Examples of the token and the data plane (sdk.go).
use binfinity_addon_sdk.Prelude.{arith, codes, refl, suc, zero, ℕ, ◌<◌, ◌≡◌}
use binfinity_addon_sdk.Runner.Token.{attempt_all, cache_token, fetch_token, finish_attempt, token}
use binfinity_addon_sdk.Runner.Granted.{Asks, IsRefusal, no_reply, token_retries, token_reused}
use binfinity_addon_sdk.Runner.Fixtures.{all_down, enrolled, grant, second_granted, second_reply}

enrolled-Asks : Asks 0 enrolled
enrolled-Asks = record { stale = refl; system = refl; key = refl }

before_one : (i : ℕ) → i < 1 → IsRefusal (second_reply i)
before_one zero h = no_reply
before_one (suc i) h = absurd (omega arith)

token_retries_example :
    ((token second_granted 0 enrolled).1 ≡ codes "tok")
    × ((token second_granted 0 enrolled).0.tok ≡ codes "tok")
token_retries_example =
    token_retries second_granted 0 enrolled grant 1 enrolled-Asks (omega arith) before_one
      (λ i le. refl) (record { body = refl; held = refl })

token_reused_example :
    token all_down 2000 (token second_granted 0 enrolled).0
    ≡ ((token second_granted 0 enrolled).0, (token second_granted 0 enrolled).1)
unfolding token fetch_token attempt_all finish_attempt cache_token
token_reused_example = token_reused second_granted all_down 0 2000 enrolled refl refl
