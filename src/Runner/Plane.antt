-- ===== src/Runner/Plane.antt =====
-- Which data plane the agent uses (sdk.go: newRunner, Run, applyDP, fetchToken, token).
use binfinity_addon_sdk.Prelude.{
  Bool, Option, Str, [], arith, false, if_keeps, is_empty, ltb, non_empty_or, none, not, slt, some,
  suc, true, zero, ℕ, ◌&&◌, ◌+◌, ◌||◌, ◌≡◌,
}
use binfinity_addon_sdk.Outcome.{ok}
use binfinity_addon_sdk.Wire.{Credentials}
use binfinity_addon_sdk.Disk.{Disk}
use binfinity_addon_sdk.Runner.{Config, DataPlane, Runner, cli, default_store}
use binfinity_addon_sdk.Runner.Setup.{new_runner, start_run}
use binfinity_addon_sdk.Runner.Token.{
  Attempts, GrantReply, attempt_all, cache_token, fetch_token, finish_attempt, replied, token,
  unreachable,
}

-- The data plane is the caller's, or the default one over the resolved store and token, and what
-- the environment sets is what is resolved.
pub record IsResolved (r : Runner) : Type 0 where
  pub from_fields :
      r.custom_dp ≡ false
      → r.dp
        ≡ cli (record {
          binary = [];
          store = non_empty_or r.dp_store default_store;
          passphrase = r.cfg.passphrase;
          sms_token = r.dp_token;
        })
  pub env_store : is_empty r.cfg.store ≡ false → r.dp_store ≡ r.cfg.store
  pub env_token : is_empty r.cfg.sms_token ≡ false → r.dp_token ≡ r.cfg.sms_token

pub new_runner-IsResolved :
    (is_nil : Bool) (outbox_dir : Str → Str) (d : Disk) (cfg : Config) {r : Runner}
    → new_runner is_nil outbox_dir d cfg ≡ ok r
    → IsResolved r
unfolding new_runner
new_runner-IsResolved is_nil outbox_dir d cfg h = ground arith

pub start_run-IsResolved :
    (creds : Credentials) (r : Runner) → IsResolved r → IsResolved (start_run creds r)
unfolding start_run
start_run-IsResolved creds r h = ground arith

pub fetch_token-IsResolved :
    (reply : GrantReply) (r : Runner) → IsResolved r → IsResolved (fetch_token reply r).0
unfolding fetch_token
fetch_token-IsResolved unreachable r h = h
fetch_token-IsResolved (replied status none) r h = h
fetch_token-IsResolved (replied status (some g)) r h = ground arith

pub cache_token-IsResolved :
    (now : ℕ) (tok : Str) (ttl : ℕ) (r : Runner)
    → IsResolved r
    → IsResolved (cache_token now tok ttl r)
unfolding cache_token
cache_token-IsResolved now tok ttl r h = record {
  from_fields = h.from_fields;
  env_store = h.env_store;
  env_token = h.env_token;
}

-- What one grant and one write of the cache keep, a call of token keeps.
module _ (P : Runner → Type 0)
    (grants : (reply : GrantReply) (r : Runner) → P r → P (fetch_token reply r).0)
    (caches : (now : ℕ) (tok : Str) (ttl : ℕ) (r : Runner)
      → P r
      → P (cache_token now tok ttl r)) where
  abbrev Kept : Runner × Str → Type 0
  Kept s = P s.0

  finish_attempt_keeps :
      (now : ℕ) (r : Runner) (rest : Runner × Str) (got : Option (Str × ℕ))
      → P r
      → Kept rest
      → Kept (finish_attempt now r rest got)
  unfolding finish_attempt
  finish_attempt_keeps now r rest none h k = k
  finish_attempt_keeps now r rest (some (tok, ttl)) h k = caches now tok ttl r h

  attempt_all_keeps :
      (env : Attempts) (left attempt : ℕ) (r : Runner) → P r → Kept (attempt_all env left attempt r)
  unfolding attempt_all
  attempt_all_keeps env zero attempt r h = h
  attempt_all_keeps env (suc left) attempt r h =
      let (r', got) = fetch_token (env.reply attempt) r in
      let next : P r' = grants (env.reply attempt) r h in
      if_keeps Kept (ltb 0 attempt && env.ctx_done attempt) h (
        finish_attempt_keeps (env.time attempt) r' (attempt_all env left (attempt + 1) r') got next
          (attempt_all_keeps env left (attempt + 1) r' next))

  pub token_keeps : (env : Attempts) (now : ℕ) (r : Runner) → P r → Kept (token env now r)
  unfolding token
  token_keeps env now r h =
      if_keeps Kept (not (is_empty r.tok) && slt now r.tok_exp) h (
        if_keeps Kept (is_empty r.system_id || is_empty r.secret) h (attempt_all_keeps env 4 0 r h))

-- For an agent that newRunner builds, after Run's start with any credentials and any call of token
-- with any replies: a store or data-plane token that the configuration sets is the one resolved,
-- and, unless the caller injected a data plane, the data plane is the default one over the
-- resolved store and token.
pub token-IsResolved :
    (is_nil : Bool) (outbox_dir : Str → Str) (d : Disk) (cfg : Config) (r : Runner)
    → new_runner is_nil outbox_dir d cfg ≡ ok r
    → (creds : Credentials) (env : Attempts) (now : ℕ)
    → IsResolved (token env now (start_run creds r)).0
token-IsResolved is_nil outbox_dir d cfg r h creds env now =
    token_keeps IsResolved fetch_token-IsResolved cache_token-IsResolved env now (start_run creds r)
      (start_run-IsResolved creds r (new_runner-IsResolved is_nil outbox_dir d cfg h))

-- The data plane is this one, injected by the caller.
abbrev IsCustom : DataPlane → Runner → Type 0
IsCustom dp r = (r.custom_dp ≡ true) × (r.dp ≡ dp)

fetch_token-IsCustom :
    (dp : DataPlane) (reply : GrantReply) (r : Runner)
    → IsCustom dp r
    → IsCustom dp (fetch_token reply r).0
unfolding fetch_token
fetch_token-IsCustom dp unreachable r h = h
fetch_token-IsCustom dp (replied status none) r h = h
fetch_token-IsCustom dp (replied status (some g)) r h = ground arith

start_run-IsCustom :
    (dp : DataPlane) (creds : Credentials) (r : Runner)
    → IsCustom dp r
    → IsCustom dp (start_run creds r)
unfolding start_run
start_run-IsCustom dp creds r h = ground arith

new_runner-IsCustom :
    (is_nil : Bool) (outbox_dir : Str → Str) (d : Disk) (cfg : Config) (dp : DataPlane) {r : Runner}
    → cfg.data_plane ≡ some dp
    → new_runner is_nil outbox_dir d cfg ≡ ok r
    → IsCustom dp r
unfolding new_runner
new_runner-IsCustom is_nil outbox_dir d cfg dp e h = ground arith

-- For an agent that newRunner builds from a configuration with a data plane, that data plane is
-- the agent's own after Run's start with any credentials and any call of token with any replies.
pub custom_dp_kept :
    (is_nil : Bool) (outbox_dir : Str → Str) (d : Disk) (cfg : Config) (dp : DataPlane) (r : Runner)
    → cfg.data_plane ≡ some dp
    → new_runner is_nil outbox_dir d cfg ≡ ok r
    → (creds : Credentials) (env : Attempts) (now : ℕ)
    → (token env now (start_run creds r)).0.dp ≡ dp
custom_dp_kept is_nil outbox_dir d cfg dp r e h creds env now =
    (token_keeps (IsCustom dp) (fetch_token-IsCustom dp) (λ t tok ttl s k. unfold cache_token in k)
      env now (start_run creds r)
      (start_run-IsCustom dp creds r (new_runner-IsCustom is_nil outbox_dir d cfg dp e h))).1
