-- ===== src/Client/Heartbeat.antt =====
-- cmd/client/heartbeat.go. The HTTP client enters as the outcome of each request.
pub mod Failures
use xray_mesh.Base.{
  ℕ, zero, suc, ◌+◌, Bool, ◌&&◌, ◌||◌, Option, none, some, List, [], ◌∷◌, ltb, leb, ◌==◌,
  if◌then◌else◌,
}

-- What a request came to: a failure before there was a response, or the response's status code.
pub data Reply : Type 0 where
  no_response : Reply
  status : ℕ → Reply

pub data HeartbeatError : Type 0 where
  heartbeat_unauthorized heartbeat_failed : HeartbeatError

abbrev pub max_heartbeat_failures : ℕ
max_heartbeat_failures = 3

-- The error of a heartbeat, `none` if it succeeded. (The text of an error is left out.)
unfoldable pub send_heartbeat : Reply → Option HeartbeatError
send_heartbeat no_response = some heartbeat_failed
send_heartbeat (status code) =
    if leb 200 code && ltb code 300
    then none
    else if code == 401 || code == 403
    then some heartbeat_unauthorized
    else some heartbeat_failed

-- What the loop leaves: it still runs, with the count of failures, or it has sent its error.
pub data LoopState : Type 0 where
  beating : ℕ → LoopState
  given_up : HeartbeatError → LoopState

abbrev pub after_failure : ℕ → LoopState
after_failure failures =
    if leb max_heartbeat_failures (failures + 1)
    then given_up heartbeat_failed
    else beating (failures + 1)

-- One tick. A loop that has returned handles no more.
abbrev pub on_error : ℕ → Option HeartbeatError → LoopState
on_error failures none = beating 0
on_error failures (some heartbeat_unauthorized) = given_up heartbeat_unauthorized
on_error failures (some heartbeat_failed) = after_failure failures

unfoldable pub tick : LoopState → Reply → LoopState
unfolding send_heartbeat
tick (beating failures) reply = on_error failures (send_heartbeat reply)
tick (given_up e) reply = given_up e

unfoldable pub heartbeat_loop : LoopState → List Reply → LoopState
unfolding tick
heartbeat_loop s [] = s
heartbeat_loop s (reply ∷ replies) = heartbeat_loop (tick s reply) replies
