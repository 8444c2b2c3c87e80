-- ===== src/Runner/Polling.antt =====
-- pollLoop, whatever the platform answers (sdk.go).
use binfinity_addon_sdk.Prelude.{
  All, Bool, List, Option, Str, [], ap, arith, false, if_keeps, none, refl, some, subst, sym, ℕ,
  ◌==◌, ◌∙◌, ◌∷◌, ◌≡◌, ◌≢◌,
}
use binfinity_addon_sdk.Outcome.{Outcome, err, ok}
use binfinity_addon_sdk.Wire.{Command, Heartbeat}
use binfinity_addon_sdk.Runner.{Runner, heartbeat_of, heartbeat_reply, no_job}
use binfinity_addon_sdk.Runner.Setup.{Response}
use binfinity_addon_sdk.Runner.Token.{
  Attempts, GrantReply, cache_token, fetch_token, replied, token, unreachable,
}
use binfinity_addon_sdk.Runner.Plane.{token_keeps}
use binfinity_addon_sdk.Runner.Backup.{Connector}
use binfinity_addon_sdk.Runner.Execute.{Env, execute}
use binfinity_addon_sdk.Runner.Rested.{IsRested, execute-IsRested}
use binfinity_addon_sdk.Runner.Requests.{
  Net, Polled, Tick, accept_poll, after_tick, get_request, heartbeat_url, panicked, poll, poll_loop,
  poll_url, received, received_or, returned, run_polled, send_get, send_heartbeat, send_post,
  skipped,
}
use binfinity_addon_sdk.Runner.Cancel.{heartbeat_reply_idle}
use binfinity_addon_sdk.Runner.Hang.{command_hangs}

-- No job is registered, and the agent is rested.
abbrev pub IsIdle : Runner → Type 0
IsIdle r = (r.job ≡ no_job) × IsRested r

fetch_token-IsIdle : (reply : GrantReply) (r : Runner) → IsIdle r → IsIdle (fetch_token reply r).0
unfolding fetch_token
fetch_token-IsIdle unreachable r h = h
fetch_token-IsIdle (replied status none) r h = h
fetch_token-IsIdle (replied status (some g)) r h = ground arith

token-IsIdle : (env : Attempts) (now : ℕ) (r : Runner) → IsIdle r → IsIdle (token env now r).0
token-IsIdle env now r h =
    token_keeps IsIdle fetch_token-IsIdle (λ t tok ttl s k. unfold cache_token in k) env now r h

-- NewRequest takes every URL.
abbrev pub IsSound : Net → Type 0
IsSound net = (url : Str) → net.new_request url ≡ none

send_post-IsIdle :
    (net : Net) (failed : Option Str) (url body : Str) (r : Runner)
    → IsIdle r
    → IsIdle (send_post net failed url body r).0
unfolding send_post
send_post-IsIdle net none url body r h = token-IsIdle net.attempts net.now r h
send_post-IsIdle net (some e) url body r h = h

heartbeat_reply-IsIdle :
    (reply : Option Bool) (r : Runner) → IsIdle r → IsIdle (heartbeat_reply reply r)
heartbeat_reply-IsIdle reply r h = subst IsIdle (sym (heartbeat_reply_idle reply r h.0)) h

-- A heartbeat that finds the agent idle leaves it so, also if its reply asks to cancel.
pub send_heartbeat-IsIdle :
    (encode : Heartbeat → Str) (decode : Str → Option Bool) (format : ℕ → Str) (kind : Str)
    (net : Net) (r : Runner)
    → IsIdle r
    → IsIdle (send_heartbeat encode decode format kind net r)
unfolding send_heartbeat
send_heartbeat-IsIdle encode decode format kind net r h = heartbeat_reply-IsIdle _ _ (
    send_post-IsIdle net (net.new_request (heartbeat_url r)) (heartbeat_url r)
      (encode (heartbeat_of format kind r)) r h)

module _ (decode : Str → Option Command) (conn : Connector) where
  -- The data plane's call returns for every command.
  abbrev pub Returns : Env → Type 0
  Returns env = (cmd : Command) (r : Runner) → command_hangs env conn cmd r ≡ false

  -- What one tick leaves is idle.
  run_polled-IsIdle :
      (env : Env) (r : Runner) (p : Polled)
      → Returns env
      → IsIdle r
      → p ≢ panicked
      → (s : Runner) × (run_polled decode env conn (r, p) ≡ returned s) × IsIdle s
  unfolding run_polled
  run_polled-IsIdle env r panicked back h n = absurd (n refl)
  run_polled-IsIdle env r skipped back h n = (r, refl, h)
  run_polled-IsIdle env r (received cmd) back h n =
      ((execute env conn cmd r).0, rw (back cmd r) refl, execute-IsRested env conn cmd r)

  received_or_calm : (o : Option Command) → received_or o ≢ panicked
  received_or_calm none h = cc
  received_or_calm (some cmd) h = cc

  accept_poll_calm : (o : Outcome Str Response) → accept_poll decode o ≢ panicked
  unfolding accept_poll
  accept_poll_calm (err e) h = cc
  accept_poll_calm (ok resp) h =
      if_keeps (λ p. p ≢ panicked) (resp.status == 200) (received_or_calm (decode resp.body))
        (λ e. cc) h

  send_get-IsIdle :
      (net : Net) (url : Str) (r : Runner)
      → IsIdle r
      → IsIdle (send_get decode net none url r).0 × ((send_get decode net none url r).1 ≢ panicked)
  unfolding send_get
  send_get-IsIdle net url r h = (
    token-IsIdle net.attempts net.now r h,
    accept_poll_calm (net.exchange (get_request url (token net.attempts net.now r).1)),
  )

  poll-IsIdle :
      (net : Net) (r : Runner)
      → IsSound net
      → IsIdle r
      → IsIdle (poll decode net r).0 × ((poll decode net r).1 ≢ panicked)
  poll-IsIdle net r sound h =
      subst
        (λ f.
          IsIdle (send_get decode net f (poll_url decode r) r).0
          × ((send_get decode net f (poll_url decode r) r).1 ≢ panicked))
        (sym (sound (poll_url decode r))) (send_get-IsIdle net (poll_url decode r) r h)

  -- From an agent with no job, the idle activity and no progress, if every request can be built,
  -- and for every command the call of the data plane returns, pollLoop's ticks return, whatever
  -- the platform answers and whatever the commands do, and leave an agent with no job, the idle
  -- activity and no progress.
  pub poll_loop-IsIdle :
      (ticks : List Tick) (r : Runner)
      → All (λ t. IsSound t.net × Returns t.env) ticks
      → IsIdle r
      → (s : Runner) × (poll_loop decode conn ticks r ≡ returned s) × IsIdle s
  unfolding poll_loop
  poll_loop-IsIdle [] r sound h = (r, refl, h)
  poll_loop-IsIdle (tick ∷ ticks) r sound h =
      let (idle, calm) = poll-IsIdle tick.net r sound.0.0 h in
      let (s, e, rested) =
        run_polled-IsIdle tick.env (poll decode tick.net r).0 (poll decode tick.net r).1 sound.0.1
          idle calm in
      let (t, f, ended) = poll_loop-IsIdle ticks s sound.1 rested in
      (t, ap (λ o. after_tick decode o (poll_loop decode conn ticks)) e ∙ f, ended)
