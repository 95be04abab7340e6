-- ===== src/Client/Heartbeat/Failures.antt =====
-- When the heartbeat gives up.
use xray_mesh.Base.{
  ℕ, zero, suc, ◌+◌, ◌<◌, ◌≡◌, ◌⊎◌, refl, sym, ap, ◌∙◌, inl, inr, arith, dec_lt, Option, none, some,
  List, [], ◌∷◌,
}
use xray_mesh.Client.Heartbeat.{
  Reply, HeartbeatError, heartbeat_unauthorized, heartbeat_failed, send_heartbeat, LoopState,
  after_failure, on_error, beating, given_up, tick, heartbeat_loop,
}

-- The list starts with `k` failed heartbeats in a row.
abbrev pub Starts : ℕ → List Reply → Type 0
Starts zero replies = Unit
Starts (suc k) [] = ⊥
Starts (suc k) (r ∷ replies) = (send_heartbeat r ≡ some heartbeat_failed) × Starts k replies

-- Three heartbeats in a row fail somewhere.
abbrev pub ThreeFail : List Reply → Type 0
ThreeFail [] = ⊥
ThreeFail (r ∷ replies) = Starts 3 (r ∷ replies) ⊎ ThreeFail replies

stays :
    (e : HeartbeatError) (replies : List Reply) → heartbeat_loop (given_up e) replies ≡ given_up e
unfolding heartbeat_loop
stays e [] = refl
stays e (r ∷ replies) = stays e replies

outcome_cases :
    (o : Option HeartbeatError)
    → (o ≡ none) ⊎ ((o ≡ some heartbeat_unauthorized) ⊎ (o ≡ some heartbeat_failed))
outcome_cases none = inl refl
outcome_cases (some heartbeat_unauthorized) = inr (inl refl)
outcome_cases (some heartbeat_failed) = inr (inr refl)

-- The loop after one reply.
module _ (n : ℕ) (r : Reply) (rs : List Reply) where
  loop_ok :
      send_heartbeat r ≡ none → heartbeat_loop (beating n) (r ∷ rs) ≡ heartbeat_loop (beating 0) rs
  unfolding heartbeat_loop
  loop_ok e = rw (e, tick, on_error)

  loop_unauthorized :
      send_heartbeat r ≡ some heartbeat_unauthorized
      → heartbeat_loop (beating n) (r ∷ rs) ≡ given_up heartbeat_unauthorized
  unfolding heartbeat_loop
  loop_unauthorized e = rw (e, tick, on_error) (stays heartbeat_unauthorized rs)

  loop_failed :
      send_heartbeat r ≡ some heartbeat_failed
      → heartbeat_loop (beating n) (r ∷ rs) ≡ heartbeat_loop (after_failure n) rs
  unfolding heartbeat_loop
  loop_failed e = rw (e, tick, on_error)

Starts-ThreeFail : (replies : List Reply) → Starts 3 replies → ThreeFail replies
Starts-ThreeFail [] h = h
Starts-ThreeFail (r ∷ replies) h = inl h

gives_up :
    (k n : ℕ) (replies : List Reply)
    → n + suc k ≡ 3
    → heartbeat_loop (beating n) replies ≡ given_up heartbeat_failed
    → Starts (suc k) replies ⊎ ThreeFail replies
gives_up k n [] h e = absurd (unfold heartbeat_loop in ground arith)
gives_up k n (r ∷ rs) h e = elim (outcome_cases (send_heartbeat r)) [
  | inl o ↦ inr (elim (gives_up 2 0 rs (omega arith) (sym (loop_ok n r rs o) ∙ e)) [
    | inl s ↦ inr (Starts-ThreeFail rs s)
    | inr t ↦ inr t
  ])
  | inr (inl o) ↦ absurd (ground (arith, loop_unauthorized n r rs o))
  | inr (inr o) ↦ one_more k h o (sym (loop_failed n r rs o) ∙ e) (λ j. gives_up j (n + 1) rs)
]
  where
    one_more :
        (k : ℕ)
        → n + suc k ≡ 3
        → send_heartbeat r ≡ some heartbeat_failed
        → heartbeat_loop (after_failure n) rs ≡ given_up heartbeat_failed
        → ((j : ℕ)
            → n + 1 + suc j ≡ 3
            → heartbeat_loop (beating (n + 1)) rs ≡ given_up heartbeat_failed
            → Starts (suc j) rs ⊎ ThreeFail rs)
        → Starts (suc k) (r ∷ rs) ⊎ ThreeFail (r ∷ rs)
    one_more zero h o e ih = inl (o, tt)
    one_more (suc j) h o e ih =
        let more : after_failure n ≡ beating (n + 1) = ground arith in
        elim (ih j (omega arith) (ap (λ s. heartbeat_loop s rs) (sym more) ∙ e)) [
          | inl s ↦ inl (o, s)
          | inr t ↦ inr (inr t)
        ]

-- Three failures in a row end the loop, if it has not ended before.
ends_at :
    (k n : ℕ) (replies : List Reply)
    → n + suc k ≡ 3
    → Starts (suc k) replies
    → heartbeat_loop (beating n) replies ≡ given_up heartbeat_failed
ends_at k n [] h s = absurd s
ends_at zero n (r ∷ rs) h s =
    let last : after_failure n ≡ given_up heartbeat_failed = ground arith in
    loop_failed n r rs s.0 ∙ ap (λ t. heartbeat_loop t rs) last ∙ stays heartbeat_failed rs
ends_at (suc k) n (r ∷ rs) h s =
    let more : after_failure n ≡ beating (n + 1) = ground arith in
    loop_failed n r rs s.0
    ∙ ap (λ t. heartbeat_loop t rs) more
    ∙ ends_at k (n + 1) rs (omega arith) s.1

abbrev Ends : LoopState → Type 0
Ends s = (e : HeartbeatError) × (s ≡ given_up e)

fewer_Starts : (k : ℕ) (replies : List Reply) → Starts (suc k) replies → Starts k replies
fewer_Starts zero replies s = tt
fewer_Starts (suc k) (r ∷ rs) s = (s.0, fewer_Starts k rs s.1)
fewer_Starts (suc k) [] s = absurd s

ends_here :
    (n : ℕ) (replies : List Reply)
    → n < 3
    → Starts 3 replies
    → heartbeat_loop (beating n) replies ≡ given_up heartbeat_failed
ends_here zero replies lt s = ends_at 2 0 replies (omega arith) s
ends_here (suc zero) replies lt s = ends_at 1 1 replies (omega arith) (fewer_Starts 2 replies s)
ends_here (suc (suc zero)) replies lt s =
    ends_at 0 2 replies (omega arith) (fewer_Starts 1 replies (fewer_Starts 2 replies s))
ends_here (suc (suc (suc n))) replies lt s = absurd (omega arith)

ends :
    (n : ℕ) (replies : List Reply)
    → n < 3
    → ThreeFail replies
    → Ends (heartbeat_loop (beating n) replies)
ends n [] lt t = absurd t
ends n (r ∷ rs) lt (inl s) = (heartbeat_failed, ends_here n (r ∷ rs) lt s)
ends n (r ∷ rs) lt (inr t) = elim (outcome_cases (send_heartbeat r)) [
  | inl o ↦ let (e, p) = ends 0 rs (omega arith) t in (e, loop_ok n r rs o ∙ p)
  | inr (inl o) ↦ (heartbeat_unauthorized, loop_unauthorized n r rs o)
  | inr (inr o) ↦ after o (λ m. let (e, p) = ends (n + 1) rs m t in (e, p))
]
  where
    after :
        send_heartbeat r ≡ some heartbeat_failed
        → (n + 1 < 3 → Ends (heartbeat_loop (beating (n + 1)) rs))
        → Ends (heartbeat_loop (beating n) (r ∷ rs))
    after o ih = elim (dec_lt (n + 1) 3) [
      | yes m ↦
          let more : after_failure n ≡ beating (n + 1) = ground arith in
          let (e, p) = ih m in (e, loop_failed n r rs o ∙ ap (λ s. heartbeat_loop s rs) more ∙ p)
      | no m ↦
          let last : after_failure n ≡ given_up heartbeat_failed = ground arith in
          (
            heartbeat_failed,
            loop_failed n r rs o ∙ ap (λ s. heartbeat_loop s rs) last ∙ stays heartbeat_failed rs,
          )
    ]

-- The loop, from no failures, reports failed heartbeats only if three in a row failed, and if
-- three in a row failed it has ended with an error.
pub heartbeat_loop_three :
    (replies : List Reply)
    → (heartbeat_loop (beating 0) replies ≡ given_up heartbeat_failed → ThreeFail replies)
      × (ThreeFail replies
          → (e : HeartbeatError) × (heartbeat_loop (beating 0) replies ≡ given_up e))
heartbeat_loop_three replies = (
  λ e. elim (gives_up 2 0 replies (omega arith) e) [
    | inl s ↦ Starts-ThreeFail replies s
    | inr t ↦ t
  ],
  λ t. ends 0 replies (omega arith) t,
)
