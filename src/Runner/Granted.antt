-- ===== src/Runner/Granted.antt =====
-- What token returns (sdk.go, token and fetchToken).
use binfinity_addon_sdk.Prelude.{
  Option, Str, [], ap, arith, false, if_keeps, if◌then◌else◌, is_empty, ltb, none, not, refl, sle,
  slt, some, suc, true, zero, ℕ, ◌&&◌, ◌+◌, ◌-◌, ◌<◌, ◌||◌, ◌∙◌, ◌≡◌, ◌≢◌, ◌≤◌,
}
use binfinity_addon_sdk.Runner.{Runner}
use binfinity_addon_sdk.Runner.Token.{
  Attempts, Grant, GrantReply, attempt_all, cache_token, fetch_token, finish_attempt, replied,
  token, unreachable,
}

-- A reply grants a token if its status is 200 and its body holds one that is not empty.
pub record IsGrant (reply : GrantReply) (g : Grant) : Type 0 where
  pub body : reply ≡ replied 200 (some g)
  pub held : is_empty g.access_token ≡ false

pub data IsRefusal : GrantReply → Type 0 where
  no_reply : IsRefusal unreachable
  bad_status : {status : ℕ} {body : Option Grant} → status ≢ 200 → IsRefusal (replied status body)
  no_body : {status : ℕ} → IsRefusal (replied status none)
  no_token :
      {status : ℕ} {g : Grant}
      → is_empty g.access_token ≡ true
      → IsRefusal (replied status (some g))

refused : {reply : GrantReply} (r : Runner) → IsRefusal reply → fetch_token reply r ≡ (r, none)
unfolding fetch_token
refused r no_reply = refl
refused r (bad_status {body = none} e) = refl
refused r (bad_status {body = some g} e) = ground arith
refused r no_body = refl
refused r (no_token e) = ground arith

granted_token :
    (reply : GrantReply) (g : Grant) (r : Runner)
    → IsGrant reply g
    → (fetch_token reply r).1
      ≡ some (g.access_token, if sle g.expires_in 0 then 300 else g.expires_in)
unfolding fetch_token
granted_token reply g r h = ground (arith, h.body, h.held)

-- Rounds that meet refusals come to the first one that meets a grant, and return its token.
attempt_all_grants :
    (env : Attempts) (g : Grant) (k left attempt : ℕ) (r : Runner)
    → ((i : ℕ) → i < k → IsRefusal (env.reply (attempt + i)))
    → ((i : ℕ) → i ≤ k → env.ctx_done (attempt + i) ≡ false)
    → IsGrant (env.reply (attempt + k)) g
    → ((attempt_all env (suc (k + left)) attempt r).1 ≡ g.access_token)
      × ((attempt_all env (suc (k + left)) attempt r).0.tok ≡ g.access_token)
unfolding attempt_all finish_attempt cache_token
attempt_all_grants env g zero left attempt r no_grant live h =
    let at : attempt + 0 ≡ attempt = omega arith in
    ground
      (arith, rw at at (live 0 (omega arith)), granted_token (env.reply attempt) g r (rw at at h))
attempt_all_grants env g (suc k) left attempt r no_grant live h =
    let at : attempt + 0 ≡ attempt = omega arith in
    let later : (i : ℕ) → attempt + 1 + i ≡ attempt + suc i = λ i. omega arith in
    let more : suc k + left ≡ suc (k + left) = omega arith in
    let skip = refused r (rw at at (no_grant 0 (omega arith))) in
    let rest =
      attempt_all_grants env g k left (attempt + 1) r
        (λ i le. rw (later i) (no_grant (suc i) (omega arith)))
        (λ i le. rw (later i) (live (suc i) (omega arith))) (rw (later k) h) in
    rw (more, skip) (ground (arith, rw at at (live 0 (omega arith)), rest))

attempt_all_refused :
    (env : Attempts) (left attempt : ℕ) (r : Runner)
    → ((i : ℕ) → i < left → IsRefusal (env.reply (attempt + i)))
    → attempt_all env left attempt r ≡ (r, [])
unfolding attempt_all finish_attempt
attempt_all_refused env zero attempt r no_grant = refl
attempt_all_refused env (suc left) attempt r no_grant =
    let at : attempt + 0 ≡ attempt = omega arith in
    let later : (i : ℕ) → attempt + 1 + i ≡ attempt + suc i = λ i. omega arith in
    let rest =
      attempt_all_refused env left (attempt + 1) r
        (λ i le. rw (later i) (no_grant (suc i) (omega arith))) in
    rw (refused r (rw at at (no_grant 0 (omega arith)))) (ground (arith, rest))

-- The runner has no token that is still valid, and has what it takes to ask for one.
pub record Asks (now : ℕ) (r : Runner) : Type 0 where
  pub stale : (not (is_empty r.tok) && slt now r.tok_exp) ≡ false
  pub system : is_empty r.system_id ≡ false
  pub key : is_empty r.secret ≡ false

-- If no valid token is cached, the agent has a system id and a secret, an attempt before the fifth
-- is granted, those before it are refused and ctx is not done by then, token returns the granted
-- token and caches it.
pub token_retries :
    (env : Attempts) (now : ℕ) (r : Runner) (g : Grant) (k : ℕ)
    → Asks now r
    → k < 4
    → ((i : ℕ) → i < k → IsRefusal (env.reply i))
    → ((i : ℕ) → i ≤ k → env.ctx_done i ≡ false)
    → IsGrant (env.reply k) g
    → ((token env now r).1 ≡ g.access_token) × ((token env now r).0.tok ≡ g.access_token)
unfolding token
token_retries env now r g k asks few no_grant live h =
    let at : (i : ℕ) → 0 + i ≡ i = λ i. omega arith in
    let four : suc (k + (3 - k)) ≡ 4 = omega arith in
    let found =
      attempt_all_grants env g k (3 - k) 0 r (λ i le. rw (at i) (no_grant i le))
        (λ i le. rw (at i) (live i le)) (rw (at k) h) in
    rw (asks.stale, asks.system, asks.key) (rw four at found)

-- If no valid token is cached, the agent has a system id and a secret, and four attempts are
-- refused, token returns no token and leaves the agent as it was.
pub token_refused :
    (env : Attempts) (now : ℕ) (r : Runner)
    → Asks now r
    → ((i : ℕ) → i < 4 → IsRefusal (env.reply i))
    → token env now r ≡ (r, [])
unfolding token
token_refused env now r asks no_grant =
    let at : (i : ℕ) → 0 + i ≡ i = λ i. omega arith in
    rw (asks.stale, asks.system, asks.key)
      (attempt_all_refused env 4 0 r (λ i le. rw (at i) (no_grant i le)))

-- A returned token is the cached one.
abbrev IsCached : Runner × Str → Type 0
IsCached s = is_empty s.1 ≡ false → s.0.tok ≡ s.1

finish_attempt-IsCached :
    (now : ℕ) (r : Runner) (rest : Runner × Str) (got : Option (Str × ℕ))
    → IsCached rest
    → IsCached (finish_attempt now r rest got)
unfolding finish_attempt cache_token
finish_attempt-IsCached now r rest none k = k
finish_attempt-IsCached now r rest (some (tok, ttl)) k = λ e. refl

attempt_all-IsCached :
    (env : Attempts) (left attempt : ℕ) (r : Runner) → IsCached (attempt_all env left attempt r)
unfolding attempt_all
attempt_all-IsCached env zero attempt r = λ e. cc
attempt_all-IsCached env (suc left) attempt r =
    let (r', got) = fetch_token (env.reply attempt) r in
    if_keeps IsCached (ltb 0 attempt && env.ctx_done attempt) (λ e. cc)
      (finish_attempt-IsCached (env.time attempt) r' (attempt_all env left (attempt + 1) r') got
        (attempt_all-IsCached env left (attempt + 1) r'))

token-IsCached : (env : Attempts) (now : ℕ) (r : Runner) → IsCached (token env now r)
unfolding token
token-IsCached env now r =
    if_keeps IsCached (not (is_empty r.tok) && slt now r.tok_exp) (λ e. refl)
      (if_keeps IsCached (is_empty r.system_id || is_empty r.secret) (λ e. cc)
        (attempt_all-IsCached env 4 0 r))

token_fresh :
    (env : Attempts) (now : ℕ) (r : Runner)
    → is_empty r.tok ≡ false
    → slt now r.tok_exp ≡ true
    → token env now r ≡ (r, r.tok)
unfolding token
token_fresh env now r held fresh = rw (held, fresh)

-- Once token has returned a token that is not empty, a call at a time before the cached expiry
-- returns the same token, whatever the token endpoint would reply, and changes nothing.
pub token_reused :
    (env later : Attempts) (now now' : ℕ) (r : Runner)
    → is_empty (token env now r).1 ≡ false
    → slt now' (token env now r).0.tok_exp ≡ true
    → token later now' (token env now r).0 ≡ ((token env now r).0, (token env now r).1)
token_reused env later now now' r held fresh =
    let same = token-IsCached env now r held in
    token_fresh later now' (token env now r).0 (ap is_empty same ∙ held) fresh
    ∙ ap {B = Runner × Str} (λ t. ((token env now r).0, t)) same
