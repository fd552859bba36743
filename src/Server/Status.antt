-- ===== src/Server/Status.antt =====
-- server/server.go: `handleStatus` and `handleGetConfig`, and how `handlePutConfig` reads its body, with
-- `IsZero` and `Get` of metrics/metrics.go. What encoding/json and yaml.v3 make of a body is a
-- parameter.
use llm_bridge.Config.Types.{ServerConfig, Config}
use llm_bridge.Config.Store.{Yaml, WriteOutcome}
use llm_bridge.Backend.Pool.{Pool}
use llm_bridge.Discovery.State.{Discovery}
use llm_bridge.Metrics.Collector.{Reals, ServerMetrics, Collector}
use llm_bridge.Server.Comments.{Bytes}
use llm_bridge.Server.Admin.{ServerState, handle_put_config}
use llm_bridge.Server.Listing.{ServerRow, row_of, handle_list_servers}
use llm_bridge.Base.Text.{runes}
use llm_bridge.Base.{
  ℕ, String, ◌≡◌, refl, ap, inl, inr, Bool, true, false, not, ◌&&◌, ◌||◌, Option, none, some, List,
  [], ◌∷◌, map, ◌==◌, if◌then◌else◌, Option-cases, is_some, All, Dict, lookup,
}

abbrev pub starts_with : Bytes → Bytes → Bool
starts_with [] cs = true
starts_with (p ∷ ps) [] = false
starts_with (p ∷ ps) (c ∷ cs) = (p == c) && starts_with ps cs

-- `strings.Contains`.
unfoldable pub contains : Bytes → Bytes → Bool
contains [] sub = starts_with sub []
contains (c ∷ cs) sub = starts_with sub (c ∷ cs) || contains cs sub

-- The decoders, on a configuration that they fill: what they leave of it, and whether they succeed.
pub record Decoders : Type 0 where
  pub json : Bytes → Config → Config × Bool
  pub yaml : Bytes → Config → Config × Bool

abbrev pub decoded_config : Config × Bool → Option Config
decoded_config (cfg, true) = some cfg
decoded_config (cfg, false) = none

abbrev pub json_or_yaml : Decoders → Bytes → Config × Bool → Option Config
json_or_yaml dec body (cfg, true) = some cfg
json_or_yaml dec body (cfg, false) = decoded_config (dec.yaml body cfg)

-- The switch on the content type; the configuration starts as the zero value.
unfoldable pub read_config : Decoders → Config → Bytes → Bytes → Option Config
unfolding contains
read_config dec zero_config content_type body =
    if contains content_type (runes "json")
    then decoded_config (dec.json body zero_config)
    else if contains content_type (runes "yaml") || contains content_type (runes "yml")
    then decoded_config (dec.yaml body zero_config)
    else json_or_yaml dec body (dec.json body zero_config)

module _ (reals : Reals) where
  -- `handleGetConfig`.
  abbrev pub handle_get_config : ServerState reals → Config
  handle_get_config s = s.store.config

  -- `handlePutConfig`, for a body that is read or not.
  unfoldable pub put_config :
      Decoders
      → Config
      → Yaml
      → (String → Bool)
      → WriteOutcome
      → Bytes
      → Option Bytes
      → ServerState reals
      → ServerState reals × ℕ
  unfolding read_config
  put_config dec zero_config yaml parses w content_type none s = (s, 400)
  put_config dec zero_config yaml parses w content_type (some body) s =
      handle_put_config reals yaml parses w (read_config dec zero_config content_type body) s

  pub record StatusRow : Type 0 where
    pub row : ServerRow
    pub metrics : Option (ServerMetrics reals)

  -- `Get` and `IsZero` of the collector: metrics that were never read are left out.
  abbrev pub is_zero : ServerMetrics reals → Bool
  is_zero m = not (is_some m.updated_at)

  abbrev pub unless_zero : Option (ServerMetrics reals) → Option (ServerMetrics reals)
  unless_zero none = none
  unless_zero (some m) = if is_zero m then none else some m

  abbrev pub metrics_of : String → Option (Collector reals) → Option (ServerMetrics reals)
  metrics_of url none = none
  metrics_of url (some c) = unless_zero (lookup url c.data_of)

  -- The loop over the servers.
  unfoldable pub status_rows :
      Discovery → Pool → Option (Collector reals) → List ServerConfig → List StatusRow
  status_rows d p metrics [] = []
  status_rows d p metrics (sc ∷ scs) =
      record { row = row_of d p sc; metrics = metrics_of sc.url metrics }
      ∷ status_rows d p metrics scs

  pub record Status : Type 0 where
    pub servers : List StatusRow
    pub models : Dict (List String)
    pub healthy : Dict Bool

  -- `handleStatus`.
  unfoldable pub handle_status : ServerState reals → Status
  unfolding status_rows
  handle_status s = record {
    servers = status_rows s.discovery s.pool s.metrics s.store.config.servers;
    models = s.discovery.models;
    healthy = s.discovery.healthy;
  }

  -- What a row shows of the metrics, by what the collector has of its server.
  pub data IsShown (metrics : Option (Collector reals)) (r : StatusRow) : Type 0 where
    no_collector : metrics ≡ none → r.metrics ≡ none → IsShown metrics r
    unknown :
        (c : Collector reals)
        → metrics ≡ some c
        → lookup r.row.config.url c.data_of ≡ none
        → r.metrics ≡ none
        → IsShown metrics r
    unread :
        (c : Collector reals) (m : ServerMetrics reals)
        → metrics ≡ some c
        → lookup r.row.config.url c.data_of ≡ some m
        → m.updated_at ≡ none
        → r.metrics ≡ none
        → IsShown metrics r
    shown :
        (c : Collector reals) (m : ServerMetrics reals)
        → metrics ≡ some c
        → lookup r.row.config.url c.data_of ≡ some m
        → is_some m.updated_at ≡ true
        → r.metrics ≡ some m
        → IsShown metrics r

  metrics_of-IsShown :
      (d : Discovery) (p : Pool) (sc : ServerConfig) (metrics : Option (Collector reals))
      → IsShown metrics (record { row = row_of d p sc; metrics = metrics_of sc.url metrics })
  metrics_of-IsShown d p sc none = no_collector refl refl
  metrics_of-IsShown d p sc (some c) = elim (Option-cases (lookup sc.url c.data_of)) [
    | inl e ↦ unknown c refl e (rw e)
    | inr (m, e) ↦ elim (Option-cases m.updated_at) [
      | inl t ↦ unread c m refl e t (simp (e, t))
      | inr (now, t) ↦ shown c m refl e (simp t) (simp (e, t))
    ]
  ]

  status_rows-IsShown :
      (d : Discovery) (p : Pool) (metrics : Option (Collector reals)) (scs : List ServerConfig)
      → (map (λ r. r.row) (status_rows d p metrics scs) ≡ map (row_of d p) scs)
        × All (IsShown metrics) (status_rows d p metrics scs)
  unfolding status_rows
  status_rows-IsShown d p metrics [] = (refl, tt)
  status_rows-IsShown d p metrics (sc ∷ scs) =
      let (rows, later) = status_rows-IsShown d p metrics scs in
      (ap (λ t. row_of d p sc ∷ t) rows, (metrics_of-IsShown d p sc metrics, later))

  -- The status agrees with the list of servers, row by row, and each row shows the metrics that the
  -- collector has of that server if they have ever been read, and none if it has none, if they have
  -- never been read, or if there is no collector.
  pub handle_status-IsShown :
      (s : ServerState reals)
      → (map (λ r. r.row) (handle_status s).servers
          ≡ handle_list_servers s.store.config s.discovery s.pool)
        × All (IsShown s.metrics) (handle_status s).servers
  unfolding handle_status handle_list_servers
  handle_status-IsShown s = status_rows-IsShown s.discovery s.pool s.metrics s.store.config.servers
