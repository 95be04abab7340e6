-- ===== src/Xray/Process/Tests.antt =====
-- A process that is started, closed and started again.
use xray_mesh.Base.{◌≡◌, ◌≢◌, refl, ℕ_discrete, true, false, Option, some, none, ok}
use xray_mesh.Text.{codes, str_dec}
use xray_mesh.Text.Trim.{trim_space}
use xray_mesh.Xray.Process.{
  Process, ProcessError, new_process, validate_fields, start, store_exit, close_done, end_context,
  close, returns, exited, wait, running,
}
use xray_mesh.Xray.Process.Closes.{start_once, close-wait}
use xray_mesh.Xray.Process.Reachable.{◌⟶*◌, starts, closes, child_exits, announces, here, next}
use xray_mesh.Xray.Process.Waits.{wait_same}

program : Unit {0}
unfolding ℕ_discrete str_dec trim_space new_process validate_fields start store_exit close_done
    end_context close wait running
program = tt

abbrev fresh : Process
unfolding new_process
fresh = new_process (codes "xray") (codes "c.json")

abbrev started : Process
unfolding program
started = (start fresh (some false) true).0

abbrev crashed : Process
unfolding program
crashed = close_done (store_exit started (some 2))

abbrev closed : Process
unfolding program
closed = close_done (store_exit (close started).0 (some 2))

to_started : fresh ⟶* started
unfolding program
to_started = next (starts (some false) true) here

to_crashed : fresh ⟶* crashed
unfolding program
to_crashed =
    next (starts (some false) true) (next (child_exits (some 2) refl) (next (announces refl) here))

to_closed : (close started).0 ⟶* closed
unfolding program
to_closed = next (child_exits (some 2) refl) (next (announces refl) here)

crash_returns : wait crashed ≡ returns (some (exited 2))
unfolding program
crash_returns = refl

wait_same_example : wait (close crashed).0 ≡ returns (some (exited 2))
unfolding new_process fresh
wait_same_example =
    wait_same (codes "xray") (codes "c.json") crashed (close crashed).0 (some (exited 2)) to_crashed
      crash_returns (next closes here)

start_once_example :
    ((start crashed (some false) true).1 ≢ ok tt) × ((start crashed (some false) true).0 ≡ crashed)
unfolding program
start_once_example =
    start_once fresh crashed (some false) (some false) true true refl
      (next (child_exits (some 2) refl) (next (announces refl) here))

close-wait_example : ◌≡◌ {A = Option ProcessError} none none
unfolding program
close-wait_example =
    close-wait (codes "xray") (codes "c.json") started closed none to_started refl to_closed refl
