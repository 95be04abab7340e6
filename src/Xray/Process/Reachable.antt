-- ===== src/Xray/Process/Reachable.antt =====
-- The steps of a supervised process, and what holds of the states that they reach.
use xray_mesh.Base.{
  ℕ, ◌≡◌, refl, arith, Bool, true, false, not, Option, none, some, if◌then◌else◌, Result, ok, err,
  Bool-cases, inl, inr,
}
use xray_mesh.Text.{Bytes}
use xray_mesh.Xray.Process.{
  Process, ProcessError, Watcher, idle, waits, stored, ended, new_process, validate_fields,
  launched_as, already_started, start_failed, start_checked, start, store_exit, close_done,
  end_context, close,
}

infix 40 ◌⟶◌ ◌⟶*◌
-- Calls of any goroutine, the end of the context and of the child, and the goroutine of the start.
pub data ◌⟶◌ : Process → Process → Type 0 where
  starts : {p : Process} (stat : Option Bool) (launched : Bool) → p ⟶ (start p stat launched).0
  closes : {p : Process} → p ⟶ (close p).0
  context_ends : {p : Process} → p ⟶ end_context p
  child_exits : {p : Process} (status : Option ℕ) → p.watcher ≡ waits → p ⟶ store_exit p status
  announces : {p : Process} → p.watcher ≡ stored → p ⟶ close_done p

pub data ◌⟶*◌ : Process → Process → Type 0 where
  here : {p : Process} → p ⟶* p
  next : {p q r : Process} → p ⟶ q → q ⟶* r → p ⟶* r

-- The fields that go with each stage of the goroutine.
abbrev pub Fits : Watcher → Bool → Option Bool → Type 0
Fits idle cmd done = (cmd ≡ false) × (done ≡ none)
Fits waits cmd done = (cmd ≡ true) × (done ≡ some false)
Fits stored cmd done = (cmd ≡ true) × (done ≡ some false)
Fits ended cmd done = (cmd ≡ true) × (done ≡ some true)

-- The stage, and a process that was closed has its child's context cancelled.
pub record IsValid (p : Process) : Type 0 where
  pub fits : Fits p.watcher p.cmd p.done
  pub closable : p.cmd ≡ true → p.cancel ≡ false → p.child_cancelled ≡ true
  pub unstarted : p.cmd ≡ false → p.cancel ≡ false

-- What a start leaves: the process as it was, or one that was not started, with its child.
pub start_cases :
    (P : Process × Result ProcessError (Unit {0}) → Type 0) (p : Process) (stat : Option Bool)
    (launched : Bool)
    → ((e : ProcessError) → P (p, err e))
    → (p.cmd ≡ false → P (launched_as p, ok tt))
    → P (start p stat launched)
unfolding start
start_cases P p stat launched same made = checked (validate_fields p stat)
  where
    checked : (m : Result ProcessError (Unit {0})) → P (start_checked p launched m)
    checked (err e) = same e
    checked (ok u) = at p.cmd launched refl
      where
        at :
            (c l : Bool)
            → p.cmd ≡ c
            → P (
                if c
                then (p, err already_started)
                else if not l
                then (p, err start_failed)
                else (launched_as p, ok tt))
        at true l e = same already_started
        at false true e = made e
        at false false e = same start_failed

pub step-IsValid : {p q : Process} → p ⟶ q → IsValid p → IsValid q
unfolding close store_exit close_done end_context
step-IsValid {p} (starts stat launched) v =
    start_cases (λ m. IsValid m.0) p stat launched (λ e. v)
      (λ e. record {
        fits = (refl, refl);
        closable = λ f g. ground arith;
        unstarted = λ f. ground arith;
      })
step-IsValid {p} closes v = elim (Bool-cases p.cancel) [
  | inl e ↦ rw e (record { fits = v.fits; closable = λ f g. refl; unstarted = λ f. refl })
  | inr e ↦ rw e (record { fits = v.fits; closable = λ f g. v.closable f e; unstarted = λ f. refl })
]
step-IsValid context_ends v = record {
  fits = v.fits;
  closable = λ f g. refl;
  unstarted = v.unstarted;
}
step-IsValid {p} (child_exits status e) v = record {
  fits = ground (arith, v.fits);
  closable = v.closable;
  unstarted = v.unstarted;
}
step-IsValid {p} (announces e) v = record {
  fits = ground (arith, v.fits);
  closable = v.closable;
  unstarted = v.unstarted;
}

pub reach-IsValid : {p q : Process} → p ⟶* q → IsValid p → IsValid q
reach-IsValid here v = v
reach-IsValid (next s t) v = reach-IsValid t (step-IsValid s v)

pub new_process-IsValid : (binary config : Bytes) → IsValid (new_process binary config)
unfolding new_process
new_process-IsValid binary config = record {
  fits = (refl, refl);
  closable = λ f g. ground arith;
  unstarted = λ f. refl;
}
