-- ===== src/Router/Wait.antt =====
-- router/queue.go: one call of `enqueue` with the pool: what the loop acquires for it, what it releases
-- when its context is done, and what others do to the pool between its steps.
use llm_bridge.Backend.Pool.{Pool, Conn, release}
use llm_bridge.Backend.Counts.{Reach}
use llm_bridge.Router.Best.{Float64}
use llm_bridge.Router.Route.{Sort, connected}
use llm_bridge.Router.Slots.{sys}
use llm_bridge.Router.Queue.{
  QueueItem, QueueResult, answer, queue_timeout, canceled_result, Seen, retry,
}
use llm_bridge.Router.Waiter.{
  Phase, waiting, removing, returned, Waiter, conns_in, send, receive, cancel, finish,
}
use llm_bridge.Base.{ℕ, ◌≡◌, true, Option, none, some, List, [], ◌∷◌, ◌++◌, Dict}

-- The pool, the connections that others hold, and the call.
pub record Scene : Type 0 where
  pub pool : Pool
  pub held : List Conn
  pub waiter : Waiter

abbrev pub conns_of_channel : Option QueueResult → List Conn
conns_of_channel none = []
conns_of_channel (some res) = conns_in res

abbrev pub conns_of_phase : Phase → List Conn
conns_of_phase waiting = []
conns_of_phase removing = []
conns_of_phase (returned none) = []
conns_of_phase (returned (some c)) = c ∷ []

-- The connections of the call: in its channel, and returned by it.
abbrev pub own : Waiter → List Conn
own w = conns_of_channel w.channel ++ conns_of_phase w.phase

-- What the call does with its channel when its context is done.
abbrev pub give_up : Option QueueResult → Pool → Pool
give_up none p = p
give_up (some (answer c)) p = release c p
give_up (some queue_timeout) p = p
give_up (some canceled_result) p = p

module _ (float : Float64) (sort : Sort) (item : QueueItem) where
  -- `elsewhere`: any history of the pool at whose end the call's connections are held as before.
  -- `serves`: the round of `processQueue` for the item. `fails`: its deadline is past, or `drain`.
  pub data SceneStep (s : Scene) : Scene → Type 0 where
    elsewhere :
        (p : Pool) (held : List Conn)
        → Reach (sys s.pool (own s.waiter ++ s.held)) (sys p (own s.waiter ++ held))
        → SceneStep s (record s { pool = p; held = held })
    serves :
        (seen : Seen) (rr : Dict ℕ) (c : Conn)
        → s.waiter.queued ≡ true
        → (retry float sort seen item rr s.pool).outcome ≡ connected c
        → SceneStep s (record s {
          pool = (retry float sort seen item rr s.pool).pool;
          waiter = send (answer c) s.waiter;
        })
    fails :
        (res : QueueResult)
        → s.waiter.queued ≡ true
        → conns_in res ≡ []
        → SceneStep s (record s { waiter = send res s.waiter })
    takes :
        (res : QueueResult)
        → s.waiter.phase ≡ waiting
        → s.waiter.channel ≡ some res
        → SceneStep s (record s { waiter = receive res s.waiter })
    gives_up :
        s.waiter.phase ≡ waiting
        → SceneStep s
            (record s { pool = give_up s.waiter.channel s.pool; waiter = cancel s.waiter })
    leaves : s.waiter.phase ≡ removing → SceneStep s (record s { waiter = finish s.waiter })

  pub data SceneRun (s : Scene) : Scene → Type 0 where
    at_start : SceneRun s s
    goes_on : {t u : Scene} → SceneRun s t → SceneStep t u → SceneRun s u
