-- ===== src/Agent.antt =====
-- The agent while it runs (sdk.go: the goroutines of heartbeatLoop, reportLoop and pollLoop). Each
-- step is what one goroutine does without giving way: the poll loop's is a part of execute, and
-- between two of them the others take theirs.
pub mod Kept
pub mod Consistent
pub mod Spared
mod Tests
use binfinity_addon_sdk.Wire.{Command, Credentials, Result}
use binfinity_addon_sdk.Prelude.{Bool, Option, false, true, ℕ}
use binfinity_addon_sdk.Outbox.{Json, Sender, enqueue}
use binfinity_addon_sdk.Runner.{
  Runner, end_activity, end_job, heartbeat_reply, start_job, was_cancelled,
}
use binfinity_addon_sdk.Runner.Token.{Attempts, token}
use binfinity_addon_sdk.Runner.Delivery.{report_round, settle}
use binfinity_addon_sdk.Runner.Backup.{Connector}
use binfinity_addon_sdk.Runner.Execute.{Env, final_result, run_command}
use binfinity_addon_sdk.Runner.Setup.{start_run}

-- Where the poll loop stands.
pub data Phase : Type 0 where
  polling : Phase
  begun : Command → Phase  -- after startJob
  worked : Command → Result → Phase  -- after doBackup or doRestore
  rested : Command → Result → Phase  -- after endActivity
  resolved : Command → Result → Phase  -- after the test of the cancel flag
  saved : Command → Result → Phase  -- after enqueue
  reported : Phase  -- after the send and its ack

pub record Agent : Type 0 where
  pub stopped : Bool  -- the ctx of Run is done
  pub phase : Phase
  pub runner : Runner

-- Anything the loops meet from outside is an argument of its step.
pub data Step (json : Json) (conn : Connector) : Agent → Agent → Type 0 where
  -- the ctx of Run ends, by a signal
  stop :
      (c : Bool) (p : Phase) (r : Runner)
      → Step json conn
          (record { stopped = c; phase = p; runner = r })
          (record { stopped = true; phase = p; runner = r })
  -- a heartbeat's reply
  beat :
      {c : Bool} (reply : Option Bool) (p : Phase) (r : Runner)
      → Step json conn
          (record { stopped = c; phase = p; runner = r })
          (record { stopped = c; phase = p; runner = heartbeat_reply reply r })
  -- a call of token, by any request
  refresh :
      {c : Bool} (env : Attempts) (now : ℕ) (p : Phase) (r : Runner)
      → Step json conn
          (record { stopped = c; phase = p; runner = r })
          (record { stopped = c; phase = p; runner = (token env now r).0 })
  -- a round of reportLoop
  drain :
      {c : Bool} (env : Sender) (attempt : ℕ) (p : Phase) (r : Runner)
      → Step json conn
          (record { stopped = c; phase = p; runner = r })
          (record { stopped = c; phase = p; runner = (report_round json env attempt r).0 })
  -- poll returned a command
  take :
      {c : Bool} (cmd : Command) (r : Runner)
      → Step json conn
          (record { stopped = c; phase = polling; runner = r })
          (record { stopped = c; phase = begun cmd; runner = start_job r })
  work :
      {c : Bool} (env : Env) (cmd : Command) (r : Runner)
      → Step json conn
          (record { stopped = c; phase = begun cmd; runner = r })
          (record {
            stopped = c;
            phase = worked cmd (run_command env conn cmd r).1;
            runner = (run_command env conn cmd r).0;
          })
  rest :
      {c : Bool} (cmd : Command) (res : Result) (r : Runner)
      → Step json conn
          (record { stopped = c; phase = worked cmd res; runner = r })
          (record { stopped = c; phase = rested cmd res; runner = end_activity r })
  resolve :
      {c : Bool} (cmd : Command) (res : Result) (r : Runner)
      → Step json conn
          (record { stopped = c; phase = rested cmd res; runner = r })
          (record {
            stopped = c;
            phase = resolved cmd (final_result (was_cancelled r) res);
            runner = r;
          })
  save :
      {c : Bool} (cmd : Command) (res : Result) (r : Runner)
      → Step json conn
          (record { stopped = c; phase = resolved cmd res; runner = r })
          (record {
            stopped = c;
            phase = saved cmd res;
            runner = record r { out = (enqueue json r.out cmd.id res).0 };
          })
  send :
      {c : Bool} (acked : Bool) (cmd : Command) (res : Result) (r : Runner)
      → Step json conn
          (record { stopped = c; phase = saved cmd res; runner = r })
          (record { stopped = c; phase = reported; runner = settle cmd.id acked r })
  finish :
      {c : Bool} (r : Runner)
      → Step json conn
          (record { stopped = c; phase = reported; runner = r })
          (record { stopped = c; phase = polling; runner = end_job r })

-- From one state to another by steps.
pub data Runs (json : Json) (conn : Connector) (a : Agent) : Agent → Type 0 where
  here : Runs json conn a a
  next : {b c : Agent} → Runs json conn a b → Step json conn b c → Runs json conn a c

-- The agent that Run starts.
abbrev pub launched : Credentials → Runner → Agent
launched creds r = record { stopped = false; phase = polling; runner = start_run creds r }
