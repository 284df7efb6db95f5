-- ===== src/App/Solve/Honest.antt =====
-- What `run_cached_solve` answers with, and what it keeps.
use conda_presto.Prelude.{
  ℕ, String, ◌≡◌, refl, ap, ◌∙◌, ◌⊎◌, inl, inr, Bool, true, false, not, ◌&&◌, Bool-cases, Option,
  none, some, List, if◌then◌else◌, arith,
}
use conda_presto.Resolve.Snapshot.{Snapshot, markers_eq, is_cacheable_after}
use conda_presto.App.Response.{solve_timeout}
use conda_presto.App.Solve.{
  ResultStore, Payload, payload, error_response, Format, native, known, unknown, entered, captured,
  looked_up, confirmed, solved, refreshed, remembered, Job, Outcome, answered, refused, key_of,
  is_retained, has_identity, keep, solve_after, is_current, after_lookup, look_up, serve,
  serve_format, run_cached_solve,
}

-- A request whose results may be retained.
abbrev pub IsRetainable : Job → Type 0
IsRetainable job = (job.has_credentials ≡ false) × (has_identity job.format ≡ true)

both_hold : (a b : Bool) → (not a && b) ≡ true → (a ≡ false) × (b ≡ true)
both_hold a b h = ground arith

module _ {W Reply : Type 0} (store : ResultStore W Reply) (job : Job) where
  -- The reply is the retained one of a request that may be retained, under the key for a fresh
  -- snapshot that still holds.
  abbrev pub IsHit : W → Reply → W → Type 0
  IsHit w reply w' =
      IsRetainable job
      × (job.initial.stale ≡ false)
      × (job.current.stale ≡ false)
      × (job.current.records ≡ job.initial.records)
      × (store.get_response (key_of job job.initial) w ≡ (some reply, w'))

  -- The reply is that of `remember` to the solve's own result, under the key for the last snapshot.
  -- It is retained only if the request may be, the snapshot is fresh, and it has the same files as
  -- one from before the solve.
  abbrev pub IsSolved : Reply → W → Type 0
  IsSolved reply w' =
      (body : List ℕ) × (media_type : String) × (retain : Bool) × (before : W) × (job.result
        ≡ payload body media_type)
      × (store.remember (key_of job job.last) body media_type retain before ≡ (reply, w'))
      × (retain ≡ true
          → IsRetainable job
            × (job.last.stale ≡ false)
            × ((job.last.records ≡ job.initial.records) ⊎ (job.last.records ≡ job.current.records)))

  abbrev pub IsHonest : W → Outcome Reply × W → Type 0
  IsHonest w (refused response, w') = Unit
  IsHonest w (answered reply, w') = IsHit w reply w' ⊎ IsSolved reply w'

  is_retained-fresh :
      (retain_result : Bool) (before : Snapshot)
      → is_retained job retain_result before ≡ true
      → (retain_result ≡ true) × (job.last.stale ≡ false) × (job.last.records ≡ before.records)
  unfolding is_retained is_cacheable_after
  is_retained-fresh retain_result before h = ground arith

  in_time-IsHonest :
      (w : W) (late : Bool) (w₁ : W) (x : Outcome Reply × W)
      → IsHonest w x
      → IsHonest w (if late then (refused solve_timeout, w₁) else x)
  in_time-IsHonest w true w₁ x h = tt
  in_time-IsHonest w false w₁ x h = h

  answer-IsHonest :
      (w : W) (late : Bool) (reply : Reply) (w' : W)
      → IsHonest w (answered reply, w')
      → IsHonest w ((if late then refused solve_timeout else answered reply), w')
  answer-IsHonest w true reply w' h = tt
  answer-IsHonest w false reply w' h = h

  retained-IsRetainable :
      (retain_result : Bool) (before : Snapshot)
      → (retain_result ≡ true → IsRetainable job)
      → ((before ≡ job.initial) ⊎ (before ≡ job.current))
      → is_retained job retain_result before ≡ true
      → IsRetainable job
        × (job.last.stale ≡ false)
        × ((job.last.records ≡ job.initial.records) ⊎ (job.last.records ≡ job.current.records))
  retained-IsRetainable retain_result before r b h =
      let (kept, fresh, same) = is_retained-fresh retain_result before h in
      (
        r kept,
        fresh,
        elim b [
          | inl e ↦ inl (same ∙ ap (λ s. s.records) e)
          | inr e ↦ inr (same ∙ ap (λ s. s.records) e)
        ],
      )

  keep-IsHonest :
      (w : W) (retain_result : Bool) (before : Snapshot) (result : Payload) (w₁ : W)
      → job.result ≡ result
      → (retain_result ≡ true → IsRetainable job)
      → ((before ≡ job.initial) ⊎ (before ≡ job.current))
      → IsHonest w (keep store job retain_result before result w₁)
  unfolding keep
  keep-IsHonest w retain_result before (error_response response) w₁ e r b = tt
  keep-IsHonest w retain_result before (payload body media_type) w₁ e r b =
      in_time-IsHonest w (job.late refreshed) w₁ _ (
        answer-IsHonest w (job.late remembered) _ _ (
          inr (
            body,
            media_type,
            is_retained job retain_result before,
            w₁,
            e,
            refl,
            retained-IsRetainable retain_result before r b,
          )))

  solve_after-IsHonest :
      (w : W) (retain_result : Bool) (before : Snapshot) (w₁ : W)
      → (retain_result ≡ true → IsRetainable job)
      → ((before ≡ job.initial) ⊎ (before ≡ job.current))
      → IsHonest w (solve_after store job retain_result before w₁)
  unfolding solve_after
  solve_after-IsHonest w retain_result before w₁ r b =
      in_time-IsHonest w (job.late solved) w₁ _
        (keep-IsHonest w retain_result before job.result w₁ refl r b)

  current_fresh : is_current store job ≡ true → job.current.stale ≡ false
  current_fresh c = ground arith

  current_same : is_current store job ≡ true → job.current.records ≡ job.initial.records
  current_same c = ground arith

  after_lookup-IsHonest :
      (w : W) (retain_result : Bool) (cached : Option Reply) (w₁ : W)
      → (retain_result ≡ true → IsRetainable job)
      → retain_result ≡ true
      → job.initial.stale ≡ false
      → store.get_response (key_of job job.initial) w ≡ (cached, w₁)
      → IsHonest w (after_lookup store job retain_result cached w₁)
  unfolding after_lookup
  after_lookup-IsHonest w retain_result none w₁ r t f g =
      in_time-IsHonest w (job.late looked_up) w₁ _
        (solve_after-IsHonest w retain_result job.initial w₁ r (inl refl))
  after_lookup-IsHonest w retain_result (some reply) w₁ r t f g =
      in_time-IsHonest w (job.late looked_up) w₁ _ (elim (Bool-cases (is_current store job)) [
        | inl c ↦ rw c (
            answer-IsHonest w (job.late confirmed) reply w₁
              (inl (r t, f, current_fresh c, current_same c, g)))
        | inr c ↦ rw c (solve_after-IsHonest w retain_result job.current w₁ r (inr refl))
      ])

  look_up-IsHonest :
      (w : W) (retain_result : Bool)
      → (retain_result ≡ true → IsRetainable job)
      → IsHonest w (look_up store job retain_result w)
  unfolding look_up
  look_up-IsHonest w retain_result r = elim (Bool-cases (retain_result && not job.initial.stale)) [
    | inl c ↦ rw c (after_lookup-IsHonest w retain_result _ _ r (ground arith) (ground arith) refl)
    | inr c ↦ rw c (solve_after-IsHonest w retain_result job.initial w r (inl refl))
  ]

  serve-IsHonest :
      (w : W) (retain_result : Bool)
      → (retain_result ≡ true → IsRetainable job)
      → IsHonest w (serve store job retain_result w)
  unfolding serve
  serve-IsHonest w retain_result r =
      in_time-IsHonest w (job.late entered) w _
        (in_time-IsHonest w (job.late captured) w _ (look_up-IsHonest w retain_result r))

  serve_format-IsHonest :
      (w : W) (format : Format) → job.format ≡ format → IsHonest w (serve_format store job format w)
  unfolding serve_format
  serve_format-IsHonest w native e =
      serve-IsHonest w (not job.has_credentials) (λ h. (ground arith, rw e refl))
  serve_format-IsHonest w (known identity) e =
      serve-IsHonest w (not job.has_credentials && has_identity (known identity)) (λ h.
        let (clean, identified) = both_hold job.has_credentials (has_identity (known identity)) h in
        (clean, ap has_identity e ∙ identified))
  serve_format-IsHonest w (unknown available) e = tt

  -- Whatever the captures see, the cache holds and the deadline cuts off, an answer of
  -- `run_cached_solve` is one of two. It is what the cache retains under the request with a fresh
  -- snapshot whose files are the same when captured again, and then the request has no credentials
  -- and any exporter has an identity. Or it is the solve's own result under the request with the
  -- last snapshot, which is marked to be retained only for such a request and when the last
  -- snapshot is fresh and has the files of one captured before the solve.
  pub run_cached_solve-IsHonest : (w : W) → IsHonest w (run_cached_solve store job w)
  unfolding run_cached_solve
  run_cached_solve-IsHonest w = serve_format-IsHonest w job.format refl
