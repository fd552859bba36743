-- ===== src/Router/Answered.antt =====
-- The queue of router/queue.go: who is answered, with what, and what becomes of the slots.
use llm_bridge.Backend.Pool.{Pool, Conn}
use llm_bridge.Backend.Counts.{Reach, start, Reach-trans}
use llm_bridge.Discovery.State.{Discovery, servers_for_model}
use llm_bridge.Router.Select.{ServerInfo, collect}
use llm_bridge.Router.Best.{Float64, IsIeee}
use llm_bridge.Router.Placed.{IsFull}
use llm_bridge.Router.Chosen.{nearest, least_loaded, unserved, waiting, refused, route-IsChosen}
use llm_bridge.Router.Slots.{sys, keep_outcome, route-Reach}
use llm_bridge.Router.Route.{Sort, Outcome, connected, no_servers, all_busy, queued, route}
use llm_bridge.Router.Queue.{
  QueueItem, answer, queue_timeout, canceled_result, QueueManager, Delivery, Seen, conn_of,
  is_overdue, retry, process_items, process_queue,
}
use llm_bridge.Base.{
  ℕ, String, ◌≡◌, refl, subst, ◌⊎◌, inl, inr, true, false, none, some, List, [], ◌∷◌, map, arith,
  Bool-cases, Option-cases, All, Memᴰ, All-Memᴰ, Dict,
}
use llm_bridge.Base.Int.{ℤ, pos, ◌≤ℤ◌, ◌<ℤ◌}

-- The third list is the first two merged, each in its order.
pub data Interleaves {A : Type 0} : List A → List A → List A → Type 0 where
  done : Interleaves [] [] []
  left : {x : A} {xs ys zs : List A} → Interleaves xs ys zs → Interleaves (x ∷ xs) ys (x ∷ zs)
  right : {y : A} {xs ys zs : List A} → Interleaves xs ys zs → Interleaves xs (y ∷ ys) (y ∷ zs)

abbrev pub answered : List Delivery → List QueueItem
answered ds = map (λ d. d.0) ds

-- The connections that are held once these deliveries are made.
abbrev pub hold : List Delivery → List Conn → List Conn
hold [] held = held
hold ((_, answer c) ∷ ds) held = hold ds (c ∷ held)
hold ((_, queue_timeout) ∷ ds) held = hold ds held
hold ((_, canceled_result) ∷ ds) held = hold ds held

-- The delivery is right at this instant: a timeout for an item that is overdue, a connection for one
-- that is not.
abbrev pub IsDue : ℤ → Delivery → Type 0
IsDue now (item, answer c) = is_overdue now item ≡ false
IsDue now (item, queue_timeout) = is_overdue now item ≡ true
IsDue now (item, canceled_result) = ⊥

Outcome-cases :
    (o : Outcome) (held : List Conn)
    → ((c : Conn) × (conn_of o ≡ some c) × (keep_outcome o held ≡ c ∷ held))
      ⊎ ((conn_of o ≡ none) × (keep_outcome o held ≡ held))
Outcome-cases (connected c) held = inl (c, refl, refl)
Outcome-cases no_servers held = inr (refl, refl)
Outcome-cases all_busy held = inr (refl, refl)
Outcome-cases queued held = inr (refl, refl)

-- Where a candidate has room, `route` with a live context ends in a connection.
connected_of_room :
    (float : Float64) (sort : Sort) (ieee : IsIeee float) (strategy model : String) (d : Discovery)
    (rr : Dict ℕ) (p : Pool) (si : ServerInfo)
    → All (λ sj. pos 1 ≤ℤ sj.max_conn) (collect p (servers_for_model model d))
    → Memᴰ si (collect p (servers_for_model model d))
    → si.inflight <ℤ si.max_conn
    → (c : Conn) × ((route float sort strategy false none model d rr p).outcome ≡ connected c)
connected_of_room float sort ieee strategy model d rr p si capacity listed room =
    let infos = collect p (servers_for_model model d) in
    let not_full : All IsFull infos → ⊥ =
      λ full. let f = All-Memᴰ IsFull infos listed full in omega arith in
    elim (route-IsChosen float sort ieee strategy false model d rr p capacity) [
      | nearest sj m r near o q ↦ (_, o)
      | least_loaded sj e full best o q ↦ (_, o)
      | unserved e o q ↦ absurd (elim (subst (Memᴰ si) e listed) [ ])
      | waiting e a full o q ↦ absurd (not_full full)
      | refused e a some_info full o q ↦ absurd (not_full full)
    ]

module _ (float : Float64) (sort : Sort) (now : ℤ) (seen : QueueItem → Seen) where
  process_items-Interleaves :
      (items : List QueueItem) (rr : Dict ℕ) (p : Pool)
      → let r = process_items float sort now seen items rr p in
        Interleaves (answered r.deliveries) r.remaining items
  unfolding process_items
  process_items-Interleaves [] rr p = done
  process_items-Interleaves (item ∷ items) rr p =
      let r = retry float sort (seen item) item rr p in
      elim (Bool-cases (is_overdue now item)) [
        | inl late ↦ rw late (left (process_items-Interleaves items rr p))
        | inr early ↦ elim (Option-cases (conn_of r.outcome)) [
          | inl e ↦ rw (early, e) (right (process_items-Interleaves items r.rr_index r.pool))
          | inr (c, e) ↦ rw (early, e) (left (process_items-Interleaves items r.rr_index r.pool))
        ]
      ]

  process_items-IsDue :
      (items : List QueueItem) (rr : Dict ℕ) (p : Pool)
      → let r = process_items float sort now seen items rr p in
        All (IsDue now) r.deliveries × All (λ item. is_overdue now item ≡ false) r.remaining
  unfolding process_items
  process_items-IsDue [] rr p = (tt, tt)
  process_items-IsDue (item ∷ items) rr p =
      let r = retry float sort (seen item) item rr p in
      elim (Bool-cases (is_overdue now item)) [
        | inl late ↦ let (a, b) = process_items-IsDue items rr p in rw late ((late, a), b)
        | inr early ↦
            let (a, b) = process_items-IsDue items r.rr_index r.pool in
            elim (Option-cases (conn_of r.outcome)) [
              | inl e ↦ rw (early, e) (a, (early, b))
              | inr (c, e) ↦ rw (early, e) ((early, a), b)
            ]
      ]

  process_items-Reach :
      (items : List QueueItem) (rr : Dict ℕ) (p : Pool) (held : List Conn)
      → let r = process_items float sort now seen items rr p in
        Reach (sys p held) (sys r.pool (hold r.deliveries held))
  unfolding process_items
  process_items-Reach [] rr p held = start
  process_items-Reach (item ∷ items) rr p held =
      let s = seen item in
      let r = retry float sort s item rr p in
      let first =
        route-Reach float sort s.context s.strategy false item.model s.discovery rr p held in
      elim (Bool-cases (is_overdue now item)) [
        | inl late ↦ rw late (process_items-Reach items rr p held)
        | inr early ↦ elim (Outcome-cases r.outcome held) [
          | inr (e, k) ↦
              rw (early, e)
                (Reach-trans (rw k at first) (process_items-Reach items r.rr_index r.pool held))
          | inl (c, e, k) ↦
              rw (early, e)
                (Reach-trans (rw k at first)
                  (process_items-Reach items r.rr_index r.pool (c ∷ held)))
        ]
      ]

  -- A pass over the queue answers some items and keeps the others, each in the order of the queue, so
  -- that no item is answered twice and none is lost; an item that is past its deadline is answered
  -- with a timeout, an item that is not is answered with a connection or kept.
  pub process_queue-Interleaves :
      (qm : QueueManager) (rr : Dict ℕ) (p : Pool)
      → let (qm', r) = process_queue float sort now seen qm rr p in
        Interleaves (answered r.deliveries) qm'.queue qm.queue
        × All (IsDue now) r.deliveries
        × All (λ item. is_overdue now item ≡ false) qm'.queue
  unfolding process_queue
  process_queue-Interleaves qm rr p =
      let (due, early) = process_items-IsDue qm.queue rr p in
      (process_items-Interleaves qm.queue rr p, due, early)

  -- The slots that a pass over the queue takes are those of the connections that it delivers: the
  -- pool and the connections held reach that state by a history of the pool's operations.
  pub process_queue-Reach :
      (qm : QueueManager) (rr : Dict ℕ) (p : Pool) (held : List Conn)
      → let r = (process_queue float sort now seen qm rr p).1 in
        Reach (sys p held) (sys r.pool (hold r.deliveries held))
  unfolding process_queue
  process_queue-Reach qm rr p held = process_items-Reach qm.queue rr p held

  -- No starvation at the head: if the first item is not overdue, its context is live, and one of the
  -- candidates for its model has room, then a pass over the queue delivers a connection to it, with
  -- every strategy. The capacities are positive, as the configuration's checks require, and
  -- quotients compare as IEEE 754 has it.
  pub process_queue-serves :
      (ieee : IsIeee float) (qm : QueueManager) (item : QueueItem) (items : List QueueItem)
      (rr : Dict ℕ) (p : Pool) (si : ServerInfo)
      → let infos = collect p (servers_for_model item.model (seen item).discovery) in
        qm.queue ≡ item ∷ items
        → is_overdue now item ≡ false
        → (seen item).context ≡ none
        → All (λ sj. pos 1 ≤ℤ sj.max_conn) infos
        → Memᴰ si infos
        → si.inflight <ℤ si.max_conn
        → (c : Conn) × (ds : List Delivery) × ((process_queue float sort now seen qm rr
              p).1.deliveries
            ≡ (item, answer c) ∷ ds)
  unfolding process_queue process_items
  process_queue-serves ieee qm item items rr p si e early live capacity listed room =
      let s = seen item in
      let (c, o) =
        connected_of_room float sort ieee s.strategy item.model s.discovery rr p si capacity listed
          room in
      rw (e, early, live, o) (c, _, refl)
