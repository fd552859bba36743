-- ===== src/Discovery/Polled.antt =====
-- The goroutine of discovery/discovery.go, once its context is done.
use llm_bridge.Backend.Pool.{ContextError}
use llm_bridge.Discovery.State.{Discovery, RawMessage, Reply, visit_reply}
use llm_bridge.Discovery.Poller.{
  WorkerPhase, selecting, polling, asking, exited, Poller, stop_poller, Ready, context_done, ticked,
  reply_at, after_visit, worker_step, worker_run,
}
use llm_bridge.Base.{
  ℕ, suc, ◌+◌, ◌≤◌, String, ◌≡◌, refl, ap, ◌∙◌, ◌⊎◌, inl, inr, Bool, true, false, Option, none,
  some, List, [], ◌∷◌, arith, length,
}

-- How often the ticker fires in a schedule.
abbrev pub ticks : List (Ready × Reply) → ℕ
ticks [] = 0
ticks ((ticked, reply) ∷ xs) = suc (ticks xs)
ticks ((context_done, reply) ∷ xs) = ticks xs

stop_poller-done : (p : Poller) → (p.cancel ≡ true) ⊎ (p.done ≡ true) → (stop_poller p).done ≡ true
unfolding stop_poller
stop_poller-done p c = ground arith

stop_poller-discovery : (p : Poller) → (stop_poller p).discovery ≡ p.discovery
unfolding stop_poller
stop_poller-discovery p = refl

WorkerPhase-cases :
    (f : WorkerPhase)
    → (f ≡ selecting)
      ⊎ (f ≡ exited)
      ⊎ (f ≡ polling [])
      ⊎ ((url : String) × (urls : List String) × (f ≡ polling (url ∷ urls)))
      ⊎ ((url : String) × (urls : List String) × (f ≡ asking url urls))
WorkerPhase-cases selecting = inl refl
WorkerPhase-cases exited = inr (inl refl)
WorkerPhase-cases (polling []) = inr (inr (inl refl))
WorkerPhase-cases (polling (url ∷ urls)) = inr (inr (inr (inl (url, urls, refl))))
WorkerPhase-cases (asking url urls) = inr (inr (inr (inr (url, urls, refl))))

Ready-cases : (r : Ready) → (r ≡ context_done) ⊎ (r ≡ ticked)
Ready-cases context_done = inl refl
Ready-cases ticked = inr refl

module _ (model_id : RawMessage → Option String) where
  -- What the goroutine may still store once its context is done: what comes of the exchange that is in
  -- flight, if there is one.
  abbrev pub last_visit : WorkerPhase → Reply → Discovery → Discovery
  last_visit selecting reply d = d
  last_visit exited reply d = d
  last_visit (polling urls) reply d = d
  last_visit (asking url urls) reply d =
      (visit_reply model_id url (reply_at model_id true reply) d).0

  -- Where the goroutine may be after one more step: with no exchange in flight.
  abbrev pub is_idle : WorkerPhase → Bool
  is_idle selecting = true
  is_idle exited = true
  is_idle (polling urls) = true
  is_idle (asking url urls) = false

  -- How many turns at most, not counting ticks, a goroutine whose context is done takes to return.
  abbrev pub turns_left : WorkerPhase → ℕ
  turns_left exited = 0
  turns_left selecting = 1
  turns_left (polling urls) = 2
  turns_left (asking url urls) = 3

  abbrev pub turn : Ready → ℕ
  turn context_done = 1
  turn ticked = 0

  turn-le : (ready : Ready) → 1 + turn ready ≤ 2
  turn-le context_done = omega arith
  turn-le ticked = omega arith

  after_visit-done :
      (urls : List String) (r : Discovery × Option ContextError) (p : Poller)
      → let q = after_visit model_id urls r p in
        (q.discovery ≡ r.0)
        × (q.done ≡ p.done)
        × (is_idle q.phase ≡ true)
        × (turns_left q.phase ≤ 2)
  after_visit-done urls (d, none) p = (refl, refl, refl, omega arith)
  after_visit-done urls (d, some e) p = (refl, refl, refl, omega arith)

  -- A step of a goroutine whose context is done.
  pub worker_step-done :
      (ready : Ready) (reply : Reply) (p : Poller)
      → p.done ≡ true
      → let q = worker_step model_id ready reply p in
        (q.discovery ≡ last_visit p.phase reply p.discovery)
        × (q.done ≡ true)
        × (is_idle q.phase ≡ true)
        × (turns_left q.phase + turn ready ≤ turns_left p.phase ⊎ (q.phase ≡ exited))
  unfolding worker_step
  worker_step-done ready reply p h = elim (WorkerPhase-cases p.phase) [
    | inl e ↦ elim (Ready-cases ready) [
      | inl k ↦ rw (e, k, h) (refl, refl, refl, inr refl)
      | inr k ↦ rw (e, k, h) (refl, refl, refl, inl (omega arith))
    ]
    | inr (inl e) ↦ rw e (refl, h, refl, inr refl)
    | inr (inr (inl e)) ↦ rw e (refl, h, refl, inl (turn-le ready))
    | inr (inr (inr (inl (url, urls, e)))) ↦ rw (e, h) (refl, refl, refl, inl (turn-le ready))
    | inr (inr (inr (inr (url, urls, e)))) ↦
        let r = visit_reply model_id url (reply_at model_id true reply) p.discovery in
        let (a, b, c, d) =
          after_visit-done urls r (record p { done = true; phase = asking url urls }) in
        rw (e, h) (a, b, c, inl (let t = turn-le ready in omega arith))
  ]

  pub worker_step-exited :
      (ready : Ready) (reply : Reply) (p : Poller)
      → p.phase ≡ exited
      → worker_step model_id ready reply p ≡ p
  unfolding worker_step
  worker_step-exited ready reply p h = rw h

  pub last_visit-idle :
      (f : WorkerPhase) (reply : Reply) (d : Discovery)
      → is_idle f ≡ true
      → last_visit f reply d ≡ d
  last_visit-idle selecting reply d h = refl
  last_visit-idle exited reply d h = refl
  last_visit-idle (polling urls) reply d h = refl
  last_visit-idle (asking url urls) reply d h = cc

  worker_run-idle :
      (xs : List (Ready × Reply)) (p : Poller)
      → p.done ≡ true
      → is_idle p.phase ≡ true
      → (worker_run model_id xs p).discovery ≡ p.discovery
  unfolding worker_run
  worker_run-idle [] p h k = refl
  worker_run-idle ((ready, reply) ∷ xs) p h k =
      let (a, b, c, _) = worker_step-done ready reply p h in
      worker_run-idle xs (worker_step model_id ready reply p) b c
      ∙ a
      ∙ last_visit-idle p.phase reply p.discovery k

  worker_run-exited :
      (xs : List (Ready × Reply)) (p : Poller) → p.phase ≡ exited → worker_run model_id xs p ≡ p
  unfolding worker_run
  worker_run-exited [] p h = refl
  worker_run-exited ((ready, reply) ∷ xs) p h =
      rw (worker_step-exited ready reply p h) (worker_run-exited xs p h)

  turns_left-zero : (f : WorkerPhase) → turns_left f ≤ 0 → f ≡ exited
  turns_left-zero exited h = refl
  turns_left-zero selecting h = absurd (omega arith)
  turns_left-zero (polling urls) h = absurd (omega arith)
  turns_left-zero (asking url urls) h = absurd (omega arith)

  ticks-turn :
      (ready : Ready) (reply : Reply) (xs : List (Ready × Reply))
      → ticks ((ready, reply) ∷ xs) + turn ready ≡ ticks xs + 1
  ticks-turn context_done reply xs = refl
  ticks-turn ticked reply xs = omega arith

  worker_run-turns :
      (xs : List (Ready × Reply)) (p : Poller)
      → p.done ≡ true
      → ticks xs + turns_left p.phase ≤ length xs
      → (worker_run model_id xs p).phase ≡ exited
  unfolding worker_run
  worker_run-turns [] p h k = turns_left-zero p.phase (omega arith)
  worker_run-turns ((ready, reply) ∷ xs) p h k =
      let (_, b, _, d) = worker_step-done ready reply p h in
      elim d [
        | inl fewer ↦
            worker_run-turns xs (worker_step model_id ready reply p) b
              (let t = ticks-turn ready reply xs in omega arith)
        | inr gone ↦
            ap (λ q. q.phase) (worker_run-exited xs (worker_step model_id ready reply p) gone)
            ∙ gone
      ]

  turns_left-le : (f : WorkerPhase) → turns_left f ≤ 3
  turns_left-le exited = omega arith
  turns_left-le selecting = omega arith
  turns_left-le (polling urls) = omega arith
  turns_left-le (asking url urls) = omega arith

  -- The wait of `Stop` ends: in every schedule of three signals of the context more than ticks,
  -- whatever the goroutine was doing when `Stop` came, it has returned at the end. If an exchange with
  -- a server was in flight, what comes of it is stored, once, a failure as well as a reply; else the
  -- models and the healths are left as they were. `Stop` finds the function that cancels, unless the
  -- context was done already.
  pub worker_run-stop_poller :
      (ready : Ready) (reply : Reply) (xs : List (Ready × Reply)) (p : Poller)
      → (p.cancel ≡ true) ⊎ (p.done ≡ true)
      → ticks ((ready, reply) ∷ xs) + 3 ≤ length ((ready, reply) ∷ xs)
      → let q = worker_run model_id ((ready, reply) ∷ xs) (stop_poller p) in
        (q.phase ≡ exited) × (q.discovery ≡ last_visit p.phase reply p.discovery)
  unfolding worker_run stop_poller
  worker_run-stop_poller ready reply xs p c k =
      let h = stop_poller-done p c in
      let (a, b, i, _) = worker_step-done ready reply (stop_poller p) h in
      let few = turns_left-le p.phase in
      (
        worker_run-turns ((ready, reply) ∷ xs) (stop_poller p) h (omega arith),
        worker_run-idle xs (worker_step model_id ready reply (stop_poller p)) b i ∙ a,
      )
