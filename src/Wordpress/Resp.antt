-- ===== src/Wordpress/Resp.antt =====
-- The flush of the object cache (examples/wordpress-client/main.go: respCmd, respExpectOK,
-- flushObjectCache). A connection is what dialling, writing and reading on it return.
pub mod Decoded
use binfinity_addon_sdk.Prelude.{
  List, Option, Str, [], codes, decimal, if◌then◌else◌, is_empty, length, none, some, trim_space,
  ◌++◌, ◌==◌, ◌∷◌,
}
use binfinity_addon_sdk.Outcome.{Outcome, err, ok}

abbrev pub crlf : Str
crlf = 13 ∷ 10 ∷ []

-- one round of respCmd's loop appends this
abbrev pub bulk : Str → Str
bulk a = b'$' ∷ (decimal (length a) ++ (crlf ++ (a ++ crlf)))

resp_args : Str → List Str → Str
resp_args b [] = b
resp_args b (a ∷ args) = resp_args (b ++ bulk a) args

unfoldable pub resp_cmd : List Str → Str
unfolding resp_args decimal
resp_cmd args = resp_args (b'*' ∷ (decimal (length args) ++ crlf)) args

-- The first 128 bytes that are read, or the error of reading.
unfoldable pub resp_expect_ok : Outcome Str Str → Option Str
unfolding trim_space
resp_expect_ok (err e) = some e
resp_expect_ok (ok []) = none
resp_expect_ok (ok (c ∷ s)) = if c == b'-' then some (codes "redis: " ++ trim_space s) else none

pub record RedisConf : Type 0 where
  pub host : Str
  pub port : Str
  pub pass : Str

-- The replies to the first and to the second command.
pub record Connection : Type 0 where
  pub dialled : Option Str
  pub written : Str → Option Str
  pub first : Outcome Str Str
  pub second : Outcome Str Str

-- a command, and the error of sending it or in its reply
abbrev command : Connection → List Str → Outcome Str Str → Option Str
command conn args reply = elim (conn.written (resp_cmd args)) [
  | none ↦ resp_expect_ok reply
  | some e ↦ some e
]

abbrev auth : Connection → Str → Option Str
auth conn pass = elim (conn.written (resp_cmd (codes "AUTH" ∷ pass ∷ []))) [
  | some e ↦ some e
  | none ↦ elim (resp_expect_ok conn.first) [
    | none ↦ none
    | some e ↦ some (codes "redis auth: " ++ e)
  ]
]

unfoldable pub flush_object_cache : RedisConf → Connection → Option Str
unfolding resp_cmd resp_expect_ok
flush_object_cache conf conn = if is_empty conf.host then none else (elim (conn.dialled) [
  | some e ↦ some e
  | none ↦
      if is_empty conf.pass
      then command conn (codes "FLUSHALL" ∷ []) conn.first
      else (elim (auth conn conf.pass) [
        | some e ↦ some e
        | none ↦ command conn (codes "FLUSHALL" ∷ []) conn.second
      ])
])
