-- ===== src/Runner/Token.antt =====
-- sdk.go: token and fetchToken. The replies of the token endpoint, the clock and the end of ctx are
-- given for each attempt.
use binfinity_addon_sdk.Prelude.{
  Bool, Option, Str, [], if◌then◌else◌, is_empty, ltb, none, not, sle, slt, some, sub_word, suc,
  wrap, zero, ℕ, ◌&&◌, ◌*◌, ◌+◌, ◌==◌, ◌||◌,
}
use binfinity_addon_sdk.Runner.{Runner, apply_dp}
use binfinity_addon_sdk.Runner.Setup.{second}

-- The body of a grant. expires_in is an int.
pub record Grant : Type 0 where
  pub access_token : Str
  pub expires_in : ℕ
  pub store_spec : Str
  pub sms_token : Str

-- A network error, or a status with the body, `none` if it does not decode.
pub data GrantReply : Type 0 where
  unreachable : GrantReply
  replied : ℕ → Option Grant → GrantReply

-- env always wins: only what the configuration leaves empty is adopted
adopt : Grant → Runner → Runner
unfolding apply_dp
adopt g r =
    let store = if is_empty r.cfg.store then g.store_spec else [] in
    let token = if is_empty r.cfg.sms_token then g.sms_token else [] in
    if is_empty store && is_empty token then r else apply_dp store token r

grant_token : Grant → Runner → Runner × Option (Str × ℕ)
unfolding adopt
grant_token g r =
    if is_empty g.access_token
    then (r, none)
    else (adopt g r, some (g.access_token, if sle g.expires_in 0 then 300 else g.expires_in))

-- the decoded body of a reply with status 200
granted : ℕ → Option Grant → Runner → Runner × Option (Str × ℕ)
unfolding grant_token
granted status none r = (r, none)
granted status (some g) r = if status == 200 then grant_token g r else (r, none)

unfoldable pub fetch_token : GrantReply → Runner → Runner × Option (Str × ℕ)
unfolding granted
fetch_token unreachable r = (r, none)
fetch_token (replied status body) r = granted status body r

-- What attempt `n` meets: ctx done during the wait before it, the reply, and the time after it.
pub record Attempts : Type 0 where
  pub ctx_done : ℕ → Bool
  pub reply : ℕ → GrantReply
  pub time : ℕ → ℕ

-- r.tok, r.tokExp = tok, time.Now().Add(time.Duration(ttl-30)*time.Second)
unfoldable pub cache_token : ℕ → Str → ℕ → Runner → Runner
cache_token now tok ttl r = record r {
  tok = tok;
  tok_exp = wrap (now + wrap (sub_word ttl 30 * second));
}

-- what one round does with the grant's result; `rest` is what the later rounds do
unfoldable pub finish_attempt : ℕ → Runner → Runner × Str → Option (Str × ℕ) → Runner × Str
unfolding cache_token
finish_attempt now r rest none = rest
finish_attempt now r rest (some (tok, ttl)) = (cache_token now tok ttl r, tok)

-- `for attempt := 0; attempt < 4; attempt++`, by the rounds left
unfoldable pub attempt_all : Attempts → ℕ → ℕ → Runner → Runner × Str
unfolding finish_attempt
attempt_all env zero attempt r = (r, [])
attempt_all env (suc left) attempt r =
    let (r', got) = fetch_token (env.reply attempt) r in
    if ltb 0 attempt && env.ctx_done attempt
    then (r, [])
    else finish_attempt (env.time attempt) r' (attempt_all env left (attempt + 1) r') got

unfoldable pub token : Attempts → ℕ → Runner → Runner × Str
token env now r =
    if not (is_empty r.tok) && slt now r.tok_exp
    then (r, r.tok)
    else if is_empty r.system_id || is_empty r.secret
    then (r, [])
    else attempt_all env 4 0 r
