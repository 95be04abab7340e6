-- ===== src/Client/Program/Supervisor.antt =====
-- When the program ends without an error.
use xray_mesh.Base.{◌≡◌, ◌↔◌, ◌⊎◌, refl, inl, inr, Bool, true, false, none, some, ok}
use xray_mesh.Client.Program.{Service, RunEvent, context_done, ended, handle_end, select_case}
use xray_mesh.Health.{Snapshot}

-- The select loop ends the program without an error exactly if the context has ended: it is done,
-- or a service has ended without an error at a moment when the context is over.
pub select_case_ok_iff :
    (enable_tun has_xray context_over : Bool) (t : Snapshot) (e : RunEvent)
    → ((select_case enable_tun has_xray context_over t e).1 ≡ ok tt)
      ↔ ((e ≡ context_done) ⊎ ((s : Service) × (e ≡ ended s none) × (context_over ≡ true)))
unfolding select_case handle_end
select_case_ok_iff enable_tun has_xray context_over t context_done = (λ h. inl refl, λ h. refl)
select_case_ok_iff enable_tun has_xray true t (ended s none) = (λ h. inr (s, refl, refl), λ h. refl)
select_case_ok_iff enable_tun has_xray false t (ended s none) =
    (λ h. absurd cc, λ h. absurd (none_of h))
  where
    none_of :
        (ended s none ≡ context_done)
          ⊎ ((s' : Service) × (ended s none ≡ ended s' none) × (false ≡ true))
        → ⊥
    none_of (inl f) = cc
    none_of (inr (s', f, g)) = cc
select_case_ok_iff enable_tun has_xray context_over t (ended s (some e)) =
    (λ h. absurd cc, λ h. absurd (none_of h))
  where
    none_of :
        (ended s (some e) ≡ context_done)
          ⊎ ((s' : Service) × (ended s (some e) ≡ ended s' none) × (context_over ≡ true))
        → ⊥
    none_of (inl f) = cc
    none_of (inr (s', f, g)) = cc
