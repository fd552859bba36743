-- ===== src/Server/Listing.antt =====
-- server/server.go: the handlers that only read: `handleModels`, `handleListServers`,
-- `handleGetServer`.
use llm_bridge.Config.Types.{ServerConfig, Config}
use llm_bridge.Backend.Pool.{Pool, inflight}
use llm_bridge.Discovery.State.{Discovery, RawMessage, or_false, is_healthy}
use llm_bridge.Discovery.Aligned.{IsAligned}
use llm_bridge.Base.{
  String, ◌≡◌, refl, sym, ap, ◌∙◌, ◌≢◌, inl, inr, Bool, true, Option, none, some, List, [], ◌∷◌,
  map, arith, eq_iff, str_eq, str_eq-cases, if◌then◌else◌, Bool-cases, Option-cases, is_some, All,
  Memᴰ, All-of_Memᴰ, Dict, lookup, keys,
}
use llm_bridge.Base.Int.{ℤ}

-- The metadata of a model, or else an entry that is made of its name.
abbrev pub entry_or : (String → RawMessage) → String → Option RawMessage → RawMessage
entry_or made name none = made name
entry_or made name (some raw) = raw

unfoldable pub model_list : (String → RawMessage) → Dict RawMessage → List String → List RawMessage
model_list made details [] = []
model_list made details (name ∷ names) =
    entry_or made name (lookup name details) ∷ model_list made details names

-- `handleModels`, where `made` stands for the JSON text of a name.
unfoldable pub handle_models : (String → RawMessage) → Discovery → List RawMessage
unfolding model_list
handle_models made d = model_list made d.model_details (keys d.models)

pub record ServerRow : Type 0 where
  pub config : ServerConfig
  pub healthy : Bool
  pub inflight_now : ℤ

abbrev pub row_of : Discovery → Pool → ServerConfig → ServerRow
row_of d p sc = record {
  config = sc;
  healthy = or_false (lookup sc.url d.healthy);
  inflight_now = inflight sc.url p;
}

unfoldable pub handle_list_servers : Config → Discovery → Pool → List ServerRow
handle_list_servers cfg d p = map (row_of d p) cfg.servers

-- The loop over the servers: the row of the first with this URL.
unfoldable pub row_from : String → Discovery → Pool → List ServerConfig → Option ServerRow
row_from id d p [] = none
row_from id d p (sc ∷ scs) =
    let rest = row_from id d p scs in
    if str_eq sc.url id
    then some (record { config = sc; healthy = is_healthy id d; inflight_now = inflight sc.url p })
    else rest

-- `handleGetServer`, for an id that decodes; `none` stands for the answer 404.
unfoldable pub handle_get_server : String → Config → Discovery → Pool → Option ServerRow
unfolding row_from
handle_get_server id cfg d p = row_from id d p cfg.servers

model_list-same :
    (made made' : String → RawMessage) (details : Dict RawMessage) (names : List String)
    → All (λ name. is_some (lookup name details) ≡ true) names
    → model_list made details names ≡ model_list made' details names
unfolding model_list
model_list-same made made' details [] h = refl
model_list-same made made' details (name ∷ names) (a, h) =
    elim (Option-cases (lookup name details)) [
      | inl e ↦ absurd (cc (rw e at a))
      | inr (raw, e) ↦ rw e (ap (λ t. raw ∷ t) (model_list-same made made' details names h))
    ]

keys-known : {V : Type 0} (m : Dict V) (k : String) → Memᴰ k (keys m) → is_some (lookup k m) ≡ true
unfolding lookup
keys-known [] k n = absurd (elim n [ ])
keys-known ((j, v) ∷ m) k (Memᴰ.head e) =
    let same : j ≡ k = sym e in ground (arith, same, eq_iff j k)
keys-known ((j, v) ∷ m) k (Memᴰ.tail n) =
    let rest = keys-known m k n in
    elim (Bool-cases (str_eq j k)) [ inl e ↦ rw e refl | inr e ↦ rw e rest ]

-- While models and metadata are aligned, the list of models holds the upstream metadata of each, and
-- the entry that the code makes of a name is never used.
pub handle_models-IsAligned :
    (made made' : String → RawMessage) (d : Discovery)
    → IsAligned d
    → handle_models made d ≡ handle_models made' d
unfolding handle_models
handle_models-IsAligned made made' d a =
    model_list-same made made' d.model_details (keys d.models) (
      All-of_Memᴰ (λ name. is_some (lookup name d.model_details) ≡ true) (keys d.models)
        (λ name m. a.same_keys name ∙ keys-known d.models name m))

-- How the answer about one server relates to the list of all.
pub data IsRowOf (id : String) (rows : List ServerRow) : Option ServerRow → Type 0 where
  listed : (row : ServerRow) → Memᴰ row rows → row.config.url ≡ id → IsRowOf id rows (some row)
  unlisted : All (λ row. row.config.url ≢ id) rows → IsRowOf id rows none

row_from-IsRowOf :
    (id : String) (d : Discovery) (p : Pool) (scs : List ServerConfig)
    → IsRowOf id (map (row_of d p) scs) (row_from id d p scs)
unfolding row_from is_healthy
row_from-IsRowOf id d p [] = unlisted tt
row_from-IsRowOf id d p (sc ∷ scs) = elim (str_eq-cases sc.url id) [
  | inl (t, e) ↦
      let healthy_now : or_false (lookup sc.url d.healthy) ≡ or_false (lookup id d.healthy) =
        ap (λ u. or_false (lookup u d.healthy)) e in
      rw t (listed _ (Memᴰ.head (cc)) e)
  | inr (t, e) ↦ rw t (later (row_from id d p scs) (row_from-IsRowOf id d p scs) e)
]
  where
    later :
        (row : Option ServerRow)
        → IsRowOf id (map (row_of d p) scs) row
        → sc.url ≢ id
        → IsRowOf id (row_of d p sc ∷ map (row_of d p) scs) row
    later _ (listed row m f) e = listed row (Memᴰ.tail m) f
    later _ (unlisted h) e = unlisted (e, h)

-- The answer about one server is a row of the list of all servers, with its URL; it is 404 only if no
-- row has this URL.
pub handle_get_server-IsRowOf :
    (id : String) (cfg : Config) (d : Discovery) (p : Pool)
    → IsRowOf id (handle_list_servers cfg d p) (handle_get_server id cfg d p)
unfolding handle_list_servers handle_get_server
handle_get_server-IsRowOf id cfg d p = row_from-IsRowOf id d p cfg.servers
