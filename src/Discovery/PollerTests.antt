-- ===== src/Discovery/PollerTests.antt =====
-- Tests of the goroutine of discovery/discovery.go, and its theorems at concrete inputs.
use llm_bridge.Discovery.State.{
  Discovery, new_discovery, RawMessage, decoded, do_failed, Reply, visit_reply, set_healthy,
}
use llm_bridge.Discovery.Tests.{discovery_model}
use llm_bridge.Discovery.Poller.{
  selecting, asking, exited, Poller, new_poller, start_poller, stop_poller, end_parent, Ready,
  context_done, ticked, worker_step, worker_run,
}
use llm_bridge.Discovery.Polled.{worker_run-stop_poller}
use llm_bridge.Base.{
  String, ◌≡◌, refl, inl, true, false, Option, none, some, List, [], ◌∷◌, arith, lookup,
}

poller_model : Unit {0}
unfolding discovery_model start_poller stop_poller end_parent worker_step worker_run
poller_model = tt

abbrev name_of : RawMessage → Option String
name_of raw = some raw

abbrev two_servers : Discovery
two_servers = record new_discovery { servers = "http://a" ∷ "http://b" ∷ [] }

abbrev smart : Reply
smart = decoded ("smart" ∷ [])

-- The exchange ends with an error of `Do`.
abbrev cut_off : Reply
cut_off = do_failed none

abbrev launched : Poller
launched = start_poller false (new_poller two_servers)

-- Stopped while the second of two exchanges is in flight.
abbrev interrupted : List (Ready × Reply) → Poller
interrupted xs = worker_run name_of xs (
    stop_poller (
      worker_run name_of
        ((ticked, smart) ∷ (context_done, smart) ∷ (ticked, smart) ∷ (ticked, smart) ∷ [])
        launched))

poller_tests :
    (launched.phase ≡ selecting)
    × ((start_poller false (start_poller true (new_poller two_servers))).done ≡ true)
    × ((interrupted []).phase ≡ asking "http://b" [])
    × (lookup "http://b" (interrupted ((ticked, cut_off) ∷ [])).discovery.healthy ≡ some false)
    × ((interrupted ((ticked, cut_off) ∷ [])).phase ≡ selecting)
    × ((interrupted ((ticked, cut_off) ∷ (context_done, smart) ∷ [])).phase ≡ exited)
    × (lookup "smart" (interrupted ((ticked, smart) ∷ [])).discovery.models
        ≡ some ("http://a" ∷ "http://b" ∷ []))
    × ((worker_run name_of ((context_done, smart) ∷ []) (end_parent launched)).phase ≡ exited)
unfolding poller_model
poller_tests = (refl, refl, refl, refl, refl, refl, refl, refl)

abbrev at_select : Poller
at_select = record {
  discovery = two_servers;
  started = true;
  cancel = true;
  done = false;
  phase = selecting;
}

abbrev in_flight : Poller
in_flight = record at_select { phase = asking "http://b" [] }

abbrev three_turns : List (Ready × Reply)
three_turns = (ticked, smart) ∷ (context_done, smart) ∷ (context_done, smart) ∷ []

-- The server counts as failed from then on.
worker_run-stop_poller_example :
    let q = worker_run name_of ((context_done, cut_off) ∷ three_turns) (stop_poller in_flight) in
    (q.phase ≡ exited) × (q.discovery ≡ set_healthy "http://b" false two_servers)
unfolding visit_reply
worker_run-stop_poller_example =
    worker_run-stop_poller name_of context_done cut_off three_turns in_flight (inl refl)
      (omega arith)
