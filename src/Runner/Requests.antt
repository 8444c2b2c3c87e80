-- ===== src/Runner/Requests.antt =====
-- sdk.go: post, sendHeartbeat, poll and pollLoop. http.NewRequestWithContext, http.Client.Do and the decoding of
-- JSON are arguments; the bytes of a reply are read to the end.
use binfinity_addon_sdk.Prelude.{
  Bool, List, Option, Str, [], codes, false, if◌then◌else◌, none, some, true, ℕ, ◌++◌, ◌==◌, ◌∷◌,
}
use binfinity_addon_sdk.Outcome.{Outcome, err, ok}
use binfinity_addon_sdk.Wire.{Command, Heartbeat}
use binfinity_addon_sdk.Runner.{Runner, heartbeat_of, heartbeat_reply}
use binfinity_addon_sdk.Runner.Setup.{Response}
use binfinity_addon_sdk.Runner.Token.{Attempts, token}
use binfinity_addon_sdk.Runner.Backup.{Connector}
use binfinity_addon_sdk.Runner.Execute.{Env, execute}
use binfinity_addon_sdk.Runner.Hang.{command_hangs}

-- A post has the content type application/json.
pub record Request : Type 0 where
  pub is_post : Bool
  pub url : Str
  pub bearer : Option Str
  pub body : Str

-- NewRequest's error for a URL, what a call of token meets, and what Do returns
pub record Net : Type 0 where
  pub new_request : Str → Option Str
  pub now : ℕ
  pub attempts : Attempts
  pub exchange : Request → Outcome Str Response

abbrev bearer_of : Str → Option Str
bearer_of [] = none
bearer_of (c ∷ tok) = some (c ∷ tok)

unfoldable pub send_post : Net → Option Str → Str → Str → Runner → Runner × Outcome Str Response
send_post net (some e) url body r = (r, err e)
send_post net none url body r =
    let (r', tok) = token net.attempts net.now r in
    (r', net.exchange (record { is_post = true; url = url; bearer = bearer_of tok; body = body }))

-- post
abbrev post : Net → Str → Str → Runner → Runner × Outcome Str Response
post net url body r = send_post net (net.new_request url) url body r

-- the reply's body, whatever its status
abbrev cancel_of : (Str → Option Bool) → Outcome Str Response → Option Bool
cancel_of decode (err e) = none
cancel_of decode (ok resp) = decode resp.body

abbrev pub heartbeat_url : Runner → Str
heartbeat_url r = r.cfg.endpoint ++ codes "/cbs/api/v1/agent/heartbeat"

-- sendHeartbeat
unfoldable pub send_heartbeat :
    (Heartbeat → Str) → (Str → Option Bool) → (ℕ → Str) → Str → Net → Runner → Runner
unfolding heartbeat_of heartbeat_reply send_post
send_heartbeat encode decode format data_type net r =
    let (r', reply) = post net (heartbeat_url r) (encode (heartbeat_of format data_type r)) r in
    heartbeat_reply (cancel_of decode reply) r'

-- A nil request makes poll panic.
pub data Polled : Type 0 where
  panicked : Polled
  skipped : Polled
  received : Command → Polled

-- How ticks of pollLoop end: poll panics, a command's work never returns, or the next tick comes.
pub data TickEnd : Type 0 where
  crashed : TickEnd
  hung : TickEnd
  returned : Runner → TickEnd

-- What a tick of pollLoop meets, also if it executes a command.
pub record Tick : Type 0 where
  pub net : Net
  pub env : Env

abbrev pub received_or : Option Command → Polled
received_or none = skipped
received_or (some cmd) = received cmd

abbrev pub get_request : Str → Str → Request
get_request url tok = record { is_post = false; url = url; bearer = bearer_of tok; body = [] }

module _ (decode : Str → Option Command) where
  unfoldable pub accept_poll : Outcome Str Response → Polled
  accept_poll (err e) = skipped
  accept_poll (ok resp) = if resp.status == 200 then received_or (decode resp.body) else skipped

  abbrev pub poll_url : Runner → Str
  poll_url r = r.cfg.endpoint ++ (codes "/cbs/api/v1/agent/commands?system=" ++ r.system_id)

  unfoldable pub send_get : Net → Option Str → Str → Runner → Runner × Polled
  unfolding accept_poll
  send_get net failed url r =
      let (r', tok) = token net.attempts net.now r in
      elim failed [
        | some e ↦ (r', panicked)
        | none ↦ (r', accept_poll (net.exchange (get_request url tok)))
      ]

  abbrev pub poll : Net → Runner → Runner × Polled
  poll net r = send_get net (net.new_request (poll_url r)) (poll_url r) r

  unfoldable pub run_polled : Env → Connector → Runner × Polled → TickEnd
  unfolding command_hangs
  run_polled env conn (r, panicked) = crashed
  run_polled env conn (r, skipped) = returned r
  run_polled env conn (r, received cmd) =
      if command_hangs env conn cmd r then hung else returned (execute env conn cmd r).0

  abbrev pub after_tick : TickEnd → (Runner → TickEnd) → TickEnd
  after_tick crashed later = crashed
  after_tick hung later = hung
  after_tick (returned r) later = later r

  -- pollLoop until ctx is done after these ticks
  unfoldable pub poll_loop : Connector → List Tick → Runner → TickEnd
  unfolding run_polled send_get
  poll_loop conn [] r = returned r
  poll_loop conn (tick ∷ ticks) r =
      after_tick (run_polled tick.env conn (poll tick.net r)) (poll_loop conn ticks)
