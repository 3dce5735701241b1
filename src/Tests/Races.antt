-- ===== src/Tests/Races.antt =====
-- The properties of requests for syncs that run at the same time, in small runs.
use unified_api.Sync.Coordinator.{
  Reach, System, advance, answer_coalesced, arrive, begin_gather, coalesce, coalesced, end_gather,
  finish, here, lead, next, start, waiting,
}
use unified_api.Sync.Coalescing.{coalesced_since, ended_since, older_gather_answers, one_gathers}
use unified_api.Prelude.{[], arith, false, inr, refl, true, ℕ, ◌<◌, ◌∷◌, ◌≡◌}

-- Request 0 gathers.
abbrev leading : System
leading = begin_gather 0 true 0 (advance 0 (waiting true 0 0) start)

Reach-leading : Reach start leading
Reach-leading =
    next (next here (arrive 0 true start refl))
      (lead 0 true 0 0 (advance 0 (waiting true 0 0) start) refl refl (inr refl))

-- Request 1 comes, request 0 ends well, and request 1 is answered.
abbrev queued : System
queued = advance 1 (waiting true 2 0) leading

abbrev ended : System
unfolding end_gather
ended = end_gather 0 true true 0 1 queued

Reach-answered : Reach start (answer_coalesced 1 2 ended)
unfolding end_gather
Reach-answered =
    next
      (next (next Reach-leading (arrive 1 true leading refl)) (finish 0 true true 0 1 queued refl))
      (coalesce 1 2 0 ended refl refl (λ e. absurd (omega (arith, e))))

coalesced_since_example : ended_since 2 (answer_coalesced 1 2 ended).counted ≡ true
coalesced_since_example = coalesced_since Reach-answered 1 2 refl

one_gathers_example : ◌≡◌ {A = ℕ} 0 0
one_gathers_example = one_gathers Reach-leading 0 0 true true 0 0 1 1 refl refl

older_gather_answers_example :
    (u : System) × Reach leading u
    × (u.threads 1 ≡ coalesced 2)
    × (u.counted ≡ record { started = 1; ended = 3 } ∷ [])
    × (ended_since 2 [] ≡ false)
    × (1 < 2)
older_gather_answers_example = older_gather_answers Reach-leading 0 1 0 1 refl refl
