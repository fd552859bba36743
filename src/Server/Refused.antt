-- ===== src/Server/Refused.antt =====
-- server/server.go: what `handleUpdateServer` and `handleDeleteServer` leave when `Set` refuses, since
-- they have written to the array that the store shares.
use llm_bridge.Config.Types.{ServerConfig}
use llm_bridge.Config.Store.{Yaml, WriteOutcome}
use llm_bridge.Config.Accepted.{IsAcceptable}
use llm_bridge.Backend.Pool.{remove_server}
use llm_bridge.Metrics.Collector.{Reals}
use llm_bridge.Server.Admin.{
  ServerPatch, given, patch_server, update_in, shifted, delete_in, ServerState, drop_renamed,
  handle_update_server, handle_delete_server,
}
use llm_bridge.Server.Synced.{set_then-refused}
use llm_bridge.Base.{
  String, ◌≡◌, refl, ap, ◌∙◌, ◌≢◌, inl, inr, Bool, Option, none, some, List, [], ◌∷◌, ◌++◌,
  str_eq-cases, str_eq_self, All,
}

-- A field after an update: the one that was given, or the old one.
pub data IsGiven {ℓ} {A : Type ℓ} : Option A → A → A → Type ℓ where
  kept : {a : A} → IsGiven none a a
  replaced : {a b : A} → IsGiven (some b) a b

pub record IsPatched (u : ServerPatch) (sc patched : ServerConfig) : Type 0 where
  pub url : IsGiven u.url sc.url patched.url
  pub distance : IsGiven u.distance sc.distance patched.distance
  pub capacity :
      IsGiven u.max_concurrent_requests sc.max_concurrent_requests patched.max_concurrent_requests

given_lem {ℓ} : {A : Type ℓ} {o : Option A} {a b : A} → IsGiven o a b → given o a ≡ b
given_lem kept = refl
given_lem replaced = refl

patch_server_lem :
    (u : ServerPatch) (sc patched : ServerConfig)
    → IsPatched u sc patched
    → patch_server u sc ≡ patched
patch_server_lem u sc patched h = cc (given_lem h.url, given_lem h.distance, given_lem h.capacity)

-- No server of the list has this URL.
abbrev pub IsUnnamed : String → List ServerConfig → Type 0
IsUnnamed id scs = All (λ sc. sc.url ≢ id) scs

update_in_first :
    (id : String) (u : ServerPatch) (before after : List ServerConfig) (sc : ServerConfig)
    → IsUnnamed id before
    → sc.url ≡ id
    → update_in id u (before ++ sc ∷ after)
      ≡ some (patch_server u sc, before ++ patch_server u sc ∷ after)
unfolding update_in
update_in_first id u [] after sc n e = rw (e, str_eq_self id)
update_in_first id u (x ∷ before) after sc (n, ns) e = elim (str_eq-cases x.url id) [
  | inl (t, k) ↦ absurd (n k)
  | inr (t, k) ↦ rw (t, update_in_first id u before after sc ns e)
]

delete_in_first :
    (id : String) (before after : List ServerConfig) (sc : ServerConfig)
    → IsUnnamed id before
    → sc.url ≡ id
    → delete_in id (before ++ sc ∷ after) ≡ some (before ++ after, before ++ shifted sc after)
unfolding delete_in
delete_in_first id [] after sc n e = rw (e, str_eq_self id)
delete_in_first id (x ∷ before) after sc (n, ns) e = elim (str_eq-cases x.url id) [
  | inl (t, k) ↦ absurd (n k)
  | inr (t, k) ↦ rw (t, delete_in_first id before after sc ns e)
]

shifted-append :
    (sc last : ServerConfig) (mid : List ServerConfig)
    → shifted sc (mid ++ last ∷ []) ≡ mid ++ last ∷ last ∷ []
unfolding shifted
shifted-append sc last [] = refl
shifted-append sc last (x ∷ mid) = ap (λ t. x ∷ t) (shifted-append x last mid)

module _ (reals : Reals) where
  -- The state with these servers in the configuration in memory, and nothing else changed.
  abbrev pub with_servers : List ServerConfig → ServerState reals → ServerState reals
  with_servers scs s = record s {
    store = record (s.store) { config = record (s.store.config) { servers = scs } };
  }

module _ (reals : Reals) (parses : String → Bool) (yaml : Yaml) where
  -- An update of the first server with the id, if the configuration with it is not acceptable, is
  -- answered with 400, and is in force in memory all the same: the server has the fields that were
  -- given and keeps the others, the other servers are as they were, and so are the file and the pool.
  pub handle_update_server-refused :
      (w : WriteOutcome) (id : String) (u : ServerPatch) (s : ServerState reals)
      (before after : List ServerConfig) (sc patched : ServerConfig)
      → s.store.config.servers ≡ before ++ sc ∷ after
      → IsUnnamed id before
      → sc.url ≡ id
      → IsPatched u sc patched
      → ¬ IsAcceptable parses (record (s.store.config) { servers = before ++ patched ∷ after })
      → handle_update_server reals yaml parses w id u s
        ≡ (with_servers reals (before ++ patched ∷ after) s, 400)
  unfolding handle_update_server
  handle_update_server-refused w id u s before after sc patched listed n e h bad =
      let found : update_in id u s.store.config.servers
          ≡ some (patched, before ++ patched ∷ after) =
        ap (update_in id u) listed
        ∙ update_in_first id u before after sc n e
        ∙ ap (λ x. some (x, before ++ x ∷ after)) (patch_server_lem u sc patched h) in
      rw (found, handle_update_server)
        (set_then-refused reals yaml parses w _ 400 200 (drop_renamed reals id patched.url)
          (with_servers reals (before ++ patched ∷ after) s) bad)

  -- A deletion of the first server with the id, not the last of the list, if the configuration without
  -- it is not acceptable, is answered with 500, and leaves the array that the store shares shifted: in
  -- memory the server is gone, and the last one is there twice.
  pub handle_delete_server-refused :
      (w : WriteOutcome) (id : String) (s : ServerState reals) (before mid : List ServerConfig)
      (sc last : ServerConfig)
      → s.store.config.servers ≡ before ++ sc ∷ (mid ++ last ∷ [])
      → IsUnnamed id before
      → sc.url ≡ id
      → ¬ IsAcceptable parses (record (s.store.config) { servers = before ++ (mid ++ last ∷ []) })
      → handle_delete_server reals yaml parses w id s
        ≡ (with_servers reals (before ++ (mid ++ last ∷ last ∷ [])) s, 500)
  unfolding handle_delete_server
  handle_delete_server-refused w id s before mid sc last listed n e bad =
      let array = before ++ (mid ++ last ∷ last ∷ []) in
      let found : delete_in id s.store.config.servers ≡ some (before ++ (mid ++ last ∷ []), array) =
        ap (delete_in id) listed
        ∙ delete_in_first id before (mid ++ last ∷ []) sc n e
        ∙ ap (λ x. some (before ++ (mid ++ last ∷ []), before ++ x)) (shifted-append sc last mid) in
      rw (found, handle_delete_server)
        (set_then-refused reals yaml parses w _ 500 204
          (λ t. record t { pool = remove_server id t.pool }) (with_servers reals array s) bad)
