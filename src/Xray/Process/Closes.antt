-- ===== src/Xray/Process/Closes.antt =====
-- What a start and a close leave for good.
use xray_mesh.Base.{
  ◌≡◌, ◌≢◌, refl, sym, subst, ◌∙◌, ◌⊎◌, inl, inr, arith, ℕ, Bool, true, Option, none, some, ok,
  Bool-cases,
}
use xray_mesh.Text.{Bytes}
use xray_mesh.Xray.Process.{
  Process, ProcessError, waits, ended, new_process, exit_error, start, store_exit, close_done,
  end_context, close, returns, wait,
}
use xray_mesh.Xray.Process.Waits.{wait-IsOver}
use xray_mesh.Xray.Process.Reachable.{
  ◌⟶◌, starts, closes, context_ends, child_exits, announces, ◌⟶*◌, here, next, Fits, IsValid,
  start_cases, step-IsValid, reach-IsValid, new_process-IsValid,
}

-- A process that was started stays so.
step_started : {p q : Process} → p ⟶ q → p.cmd ≡ true → q.cmd ≡ true
unfolding close store_exit close_done end_context
step_started {p} (starts stat launched) e =
    start_cases (λ m. m.0.cmd ≡ true) p stat launched (λ x. e) (λ c. refl)
step_started {p} closes e = elim (Bool-cases p.cancel) [ inl f ↦ rw f e | inr f ↦ rw f e ]
step_started context_ends e = e
step_started (child_exits status f) e = e
step_started (announces f) e = e

reach_started : {p q : Process} → p ⟶* q → p.cmd ≡ true → q.cmd ≡ true
reach_started here e = e
reach_started (next s t) e = reach_started t (step_started s e)

-- A process is started once: after a start that succeeded, every other start fails, and leaves the
-- process as it is, also once the child has ended or the process was closed.
pub start_once :
    (p q : Process) (stat again : Option Bool) (launched relaunched : Bool)
    → (start p stat launched).1 ≡ ok tt
    → (start p stat launched).0 ⟶* q
    → ((start q again relaunched).1 ≢ ok tt) × ((start q again relaunched).0 ≡ q)
start_once p q stat again launched relaunched h t =
    let started : (start p stat launched).0.cmd ≡ true =
      start_cases (λ m. m.1 ≡ ok tt → m.0.cmd ≡ true) p stat launched (λ x f. cc) (λ c f. refl) h in
    let c = reach_started t started in
    start_cases (λ m. (m.1 ≢ ok tt) × (m.0 ≡ q)) q again relaunched (λ x. (λ f. cc, refl))
      (λ d. absurd cc)

-- The child was cancelled before its end was noticed.
abbrev IsQuiet : Process → Type 0
IsQuiet p =
    ((p.watcher ≡ waits) × (p.child_cancelled ≡ true)) ⊎ ((p.watcher ≢ waits) × (p.wait_err ≡ none))

step-IsQuiet : {p q : Process} → p ⟶ q → p.cmd ≡ true → IsQuiet p → IsQuiet q
unfolding close store_exit close_done end_context
step-IsQuiet {p} (starts stat launched) e h =
    start_cases (λ m. IsQuiet m.0) p stat launched (λ x. h) (λ c. absurd cc)
step-IsQuiet {p} closes e (inl h) = elim (Bool-cases p.cancel) [
  | inl f ↦ rw f (inl (h.0, refl))
  | inr f ↦ rw f (inl h)
]
step-IsQuiet {p} closes e (inr h) = elim (Bool-cases p.cancel) [
  | inl f ↦ rw f (inr h)
  | inr f ↦ rw f (inr h)
]
step-IsQuiet context_ends e (inl h) = inl (h.0, refl)
step-IsQuiet context_ends e (inr h) = inr h
step-IsQuiet {p} (child_exits status f) e (inl h) = inr (λ g. cc, quiet status)
  where
    quiet : (status : Option ℕ) → exit_error p status ≡ none
    quiet none = refl
    quiet (some code) = ground arith
step-IsQuiet (child_exits status f) e (inr h) = absurd (h.0 f)
step-IsQuiet (announces f) e (inl h) = absurd (let g = h.0 in cc)
step-IsQuiet (announces f) e (inr h) = inr (λ g. cc, h.1)

reach-IsQuiet : {p q : Process} → p ⟶* q → p.cmd ≡ true → IsQuiet p → IsQuiet q
reach-IsQuiet here e h = h
reach-IsQuiet (next s t) e h = reach-IsQuiet t (step_started s e) (step-IsQuiet s e h)

closed-IsQuiet : (p : Process) → IsValid p → p.cmd ≡ true → p.watcher ≡ waits → IsQuiet (close p).0
unfolding close
closed-IsQuiet p v c w = elim (Bool-cases p.cancel) [
  | inl f ↦ rw f (inl (w, refl))
  | inr f ↦ rw f (inl (w, v.closable c f))
]

none_of :
    (q : Process) (e : Option ProcessError)
    → q.watcher ≡ ended
    → q.wait_err ≡ e
    → IsQuiet q
    → e ≡ none
none_of q e w o (inl h) = absurd (let g = h.0 in cc)
none_of q e w o (inr h) = sym o ∙ h.1

-- The end of a child that was closed before its end was noticed is no error: whenever Wait returns
-- after that, it returns none.
pub close-wait :
    (binary config : Bytes) (p q : Process) (e : Option ProcessError)
    → new_process binary config ⟶* p
    → p.watcher ≡ waits
    → (close p).0 ⟶* q
    → wait q ≡ returns e
    → e ≡ none
close-wait binary config p q e reached w t h =
    let v = reach-IsValid reached (new_process-IsValid binary config) in
    let f : Fits waits p.cmd p.done = subst (λ s. Fits s p.cmd p.done) w v.fits in
    let c : (close p).0.cmd ≡ true = step_started closes f.0 in
    let o = wait-IsOver e q (reach-IsValid t (step-IsValid closes v)) h in
    none_of q e o.watcher o.wait_err (reach-IsQuiet t c (closed-IsQuiet p v f.0 w))
