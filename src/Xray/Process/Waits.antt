-- ===== src/Xray/Process/Waits.antt =====
-- What Wait and Running tell of a process that was reached.
use xray_mesh.Base.{◌≡◌, ◌↔◌, refl, ◌∙◌, ap, true, false, Option, some, Bool-cases, inl, inr}
use xray_mesh.Text.{Bytes}
use xray_mesh.Xray.Process.{
  Process, ProcessError, not_started, Watcher, idle, waits, stored, ended, new_process, end_context,
  close, fails, blocks, returns, wait, wait_done, running,
}
use xray_mesh.Xray.Process.Reachable.{
  ◌⟶◌, starts, closes, context_ends, child_exits, announces, ◌⟶*◌, here, next, Fits, IsValid,
  start_cases, reach-IsValid, new_process-IsValid,
}

-- The three answers of Wait, by the stage of the goroutine.
abbrev Answer : Process → Watcher → Type 0
Answer p idle = (wait p ≡ fails not_started) × (running p ≡ false)
Answer p waits = (wait p ≡ blocks) × (running p ≡ true)
Answer p stored = (wait p ≡ blocks) × (running p ≡ true)
Answer p ended = (wait p ≡ returns p.wait_err) × (running p ≡ false)

answer : (p : Process) (w : Watcher) → Fits w p.cmd p.done → Answer p w
unfolding wait running
answer p idle (c, d) = (ap (wait_done p) d, rw c refl)
answer p waits (c, d) = (ap (wait_done p) d, rw (c, d) refl)
answer p stored (c, d) = (ap (wait_done p) d, rw (c, d) refl)
answer p ended (c, d) = (ap (wait_done p) d, rw (c, d) refl)

-- In every state that the calls reach, Running holds exactly while Wait blocks, and Wait fails
-- exactly if no start has succeeded, with the error that the process is not started.
pub wait-running :
    (binary config : Bytes) (p : Process)
    → new_process binary config ⟶* p
    → ((wait p ≡ blocks) ↔ (running p ≡ true)) × ((wait p ≡ fails not_started) ↔ (p.cmd ≡ false))
wait-running binary config p t =
    by_stage p.watcher (reach-IsValid t (new_process-IsValid binary config)).fits
  where
    by_stage :
        (w : Watcher)
        → Fits w p.cmd p.done
        → ((wait p ≡ blocks) ↔ (running p ≡ true))
          × ((wait p ≡ fails not_started) ↔ (p.cmd ≡ false))
    by_stage idle f =
        let (a, b) = answer p idle f in let c = f.0 in ((λ h. cc, λ h. cc), (λ h. c, λ h. a))
    by_stage waits f =
        let (a, b) = answer p waits f in let c = f.0 in ((λ h. b, λ h. a), (λ h. cc, λ h. cc))
    by_stage stored f =
        let (a, b) = answer p stored f in let c = f.0 in ((λ h. b, λ h. a), (λ h. cc, λ h. cc))
    by_stage ended f =
        let (a, b) = answer p ended f in let c = f.0 in ((λ h. cc, λ h. cc), (λ h. cc, λ h. cc))

-- The process has ended with this error.
pub record IsOver (e : Option ProcessError) (p : Process) : Type 0 where
  pub watcher : p.watcher ≡ ended
  pub cmd : p.cmd ≡ true
  pub done : p.done ≡ some true
  pub wait_err : p.wait_err ≡ e

pub wait-IsOver :
    (e : Option ProcessError) (p : Process) → IsValid p → wait p ≡ returns e → IsOver e p
wait-IsOver e p v h = by_stage p.watcher refl v.fits
  where
    by_stage : (w : Watcher) → p.watcher ≡ w → Fits w p.cmd p.done → IsOver e p
    by_stage idle g f = absurd (let (a, b) = answer p idle f in cc)
    by_stage waits g f = absurd (let (a, b) = answer p waits f in cc)
    by_stage stored g f = absurd (let (a, b) = answer p stored f in cc)
    by_stage ended g f =
        let (a, b) = answer p ended f in
        record { watcher = g; cmd = f.0; done = f.1; wait_err = cc }

step-IsOver : (e : Option ProcessError) {p q : Process} → p ⟶ q → IsOver e p → IsOver e q
unfolding close end_context
step-IsOver e {p} (starts stat launched) o =
    start_cases (λ m. IsOver e m.0) p stat launched (λ x. o) (λ c. absurd (let d = o.cmd in cc))
step-IsOver e {p} closes o = elim (Bool-cases p.cancel) [
  | inl f ↦ rw f (record { watcher = o.watcher; cmd = o.cmd; done = o.done; wait_err = o.wait_err })
  | inr f ↦ rw f (record { watcher = o.watcher; cmd = o.cmd; done = o.done; wait_err = o.wait_err })
]
step-IsOver e context_ends o = record {
  watcher = o.watcher;
  cmd = o.cmd;
  done = o.done;
  wait_err = o.wait_err;
}
step-IsOver e (child_exits status f) o = absurd (let g = o.watcher in cc)
step-IsOver e (announces f) o = absurd (let g = o.watcher in cc)

reach-IsOver : (e : Option ProcessError) {p q : Process} → p ⟶* q → IsOver e p → IsOver e q
reach-IsOver e here o = o
reach-IsOver e (next s t) o = reach-IsOver e t (step-IsOver e s o)

-- Once Wait has returned, it returns the same to every caller, whatever starts, closes and other
-- steps follow.
pub wait_same :
    (binary config : Bytes) (p q : Process) (e : Option ProcessError)
    → new_process binary config ⟶* p
    → wait p ≡ returns e
    → p ⟶* q
    → wait q ≡ returns e
unfolding wait
wait_same binary config p q e reached h t =
    let o =
      reach-IsOver e t
        (wait-IsOver e p (reach-IsValid reached (new_process-IsValid binary config)) h) in
    let f = o.wait_err in ap (wait_done q) o.done ∙ ap returns f
