-- ===== src/Xray/Process.antt =====
-- internal/xray/process.go. The child process, the file system and the context of a start enter as
-- arguments of a call or as steps of their own; the writers of the child's output are left out. The
-- mutex makes what it guards one step. A call that blocks on the channel is its part before, and the
-- read of the state that it makes once the channel is closed.
pub mod Reachable
pub mod Waits
pub mod Closes
mod Tests
use xray_mesh.Base.{
  ℕ, ◌≡◌, Bool, true, false, not, ◌||◌, Option, none, some, [], if◌then◌else◌, Result, ok, err,
  ◌>>◌, fail_if,
}
use xray_mesh.P2p.Tickets.{str_eq}
use xray_mesh.Text.{Bytes}
use xray_mesh.Text.Trim.{trim_space}

-- `exited` is an error of the child with its status; `invalid_config` has the trimmed output.
pub data ProcessError : Type 0 where
  already_started not_started binary_required config_required config_stat config_is_dir :
      ProcessError
  start_failed validate_failed : ProcessError
  invalid_config : Bytes → ProcessError
  exited : ℕ → ProcessError

-- The goroutine of a start: there is none, it waits for the child, it has stored the error, or it
-- has closed the channel.
pub data Watcher : Type 0 where
  idle waits stored ended : Watcher

-- `done` is the channel, and whether it is closed. `child_cancelled` is the state of the child's
-- context.
pub record Process : Type 0 where
  pub binary : Bytes
  pub config : Bytes
  pub cmd : Bool
  pub cancel : Bool
  pub done : Option Bool
  pub wait_err : Option ProcessError
  pub watcher : Watcher
  pub child_cancelled : Bool

unfoldable pub new_process : Bytes → Bytes → Process
new_process binary config = record {
  binary = binary;
  config = config;
  cmd = false;
  cancel = false;
  done = none;
  wait_err = none;
  watcher = idle;
  child_cancelled = false;
}

-- What `os.Stat` says of the config: an error, or whether it is a directory.
abbrev pub stat_error : Option Bool → Result ProcessError (Unit {0})
stat_error none = err config_stat
stat_error (some true) = err config_is_dir
stat_error (some false) = ok tt

unfoldable pub validate_fields : Process → Option Bool → Result ProcessError (Unit {0})
validate_fields p stat = do
  fail_if (str_eq (trim_space p.binary) []) binary_required
  fail_if (str_eq (trim_space p.config) []) config_required
  stat_error stat

-- The outcome of the test run, `none` for success, else its output.
abbrev pub tested : Option Bytes → Result ProcessError (Unit {0})
tested none = ok tt
tested (some output) =
    let msg = trim_space output in
    if str_eq msg [] then err validate_failed else err (invalid_config msg)

unfoldable pub validate : Process → Option Bool → Option Bytes → Result ProcessError (Unit {0})
unfolding validate_fields
validate p stat run = do validate_fields p stat; tested run

-- A start that has passed the checks of the fields.
abbrev pub launched_as : Process → Process
launched_as p = record p {
  cmd = true;
  cancel = true;
  done = some false;
  wait_err = none;
  watcher = waits;
  child_cancelled = false;
}

abbrev pub launch : Process → Bool → Process × Result ProcessError (Unit {0})
launch p launched =
    if p.cmd
    then (p, err already_started)
    else if not launched
    then (p, err start_failed)
    else (launched_as p, ok tt)

abbrev pub start_checked :
    Process → Bool → Result ProcessError (Unit {0}) → Process × Result ProcessError (Unit {0})
start_checked p launched (err e) = (p, err e)
start_checked p launched (ok u) = launch p launched

unfoldable pub start : Process → Option Bool → Bool → Process × Result ProcessError (Unit {0})
unfolding validate_fields
start p stat launched = start_checked p launched (validate_fields p stat)

-- The goroutine after `cmd.Wait`, which gives the child's status: 0 is no error.
abbrev pub exit_error : Process → Option ℕ → Option ProcessError
exit_error p none = none
exit_error p (some code) = if p.child_cancelled then none else some (exited code)

unfoldable pub store_exit : Process → Option ℕ → Process
store_exit p status = record p { wait_err = exit_error p status; watcher = stored }

-- `close(done)`
unfoldable pub close_done : Process → Process
close_done p = record p { done = some true; watcher = ended }

-- The context that the start was given ends.
unfoldable pub end_context : Process → Process
end_context p = record p { child_cancelled = true }

-- A call of Wait at a moment: it fails, it blocks, or it returns.
pub data Waiting : Type 0 where
  fails : ProcessError → Waiting
  blocks : Waiting
  returns : Option ProcessError → Waiting

abbrev pub wait_done : Process → Option Bool → Waiting
wait_done p none = fails not_started
wait_done p (some false) = blocks
wait_done p (some true) = returns p.wait_err

unfoldable pub wait : Process → Waiting
wait p = wait_done p p.done

abbrev pub running_done : Option Bool → Bool
running_done none = false
running_done (some is_closed) = not is_closed

unfoldable pub running : Process → Bool
running p = if not p.cmd then false else running_done p.done

-- Close up to its wait for the channel: the process, and whether it has to wait.
unfoldable pub close : Process → Process × Bool
close p =
    let p' = record p { cancel = false } in
    if not p.cancel then (p', false) else (record p' { child_cancelled = true }, true)
