-- ===== src/Backend/Forwarded.antt =====
-- What a server is sent by `ProxyRequest` of backend/backend.go.
use llm_bridge.Backend.Pool.{Client, Pool, Conn}
use llm_bridge.Backend.Headers.{values_of, joined_if, copy_headers, lookup-copy_headers}
use llm_bridge.Backend.Proxy.{
  Url, NetUrl, Request, Response, resolve_reference, exchanged, proxy_request,
}
use llm_bridge.Base.{
  String, ◌≡◌, refl, ap, ◌∙◌, true, false, Option, none, some, List, [], ◌∷◌, str_eq, Dict, lookup,
  UniqueKeys,
}

pub values-copy_headers :
    (headers : Dict (List String)) (j : String)
    → UniqueKeys headers
    → values_of (lookup j (copy_headers headers [])) ≡ values_of (lookup j headers)
unfolding lookup
values-copy_headers headers j u =
    ap values_of (lookup-copy_headers headers [] j u) ∙ values-joined (lookup j headers)
  where
    values-joined : (o : Option (List String)) → values_of (joined_if none o) ≡ values_of o
    values-joined none = refl
    values-joined (some []) = refl
    values-joined (some (v ∷ vals)) = refl

-- The URL of a path of its own: no scheme, no host, no query.
abbrev pub path_url : String → Url
path_url path = record { scheme = ""; host = ""; path = path; raw_query = "" }

module _ (net : NetUrl) where
  -- The path reads as a path, and stands for itself from any base, as RFC 3986 (5.2) has it for a path
  -- that starts with a slash and has no dot segments.
  pub record IsAbsolute (path : String) : Type 0 where
    pub parsed : net.parse path ≡ some (path_url path)
    pub kept : (base : String) → net.resolve_path base path ≡ path
    pub named : str_eq path "" ≡ false

  resolve_reference-path :
      (base : Url) (path : String)
      → IsAbsolute path
      → resolve_reference net base (path_url path)
        ≡ record { scheme = base.scheme; host = base.host; path = path; raw_query = "" }
  unfolding resolve_reference
  resolve_reference-path base path a = rw (a.named, a.kept base.path) refl

  -- What is sent to a server of the pool for a request with an absolute path: the method and the body
  -- as they came, for every header its values in their order, to the scheme and the host of the
  -- server's URL and to the path of the request. The path and the query of the server's URL are not in
  -- it, nor is a query of the request. The text of that URL has to read as the URL again.
  pub proxy_request-IsAbsolute :
      (c : Conn) (bc : Client) (base : Url) (method path body : String)
      (headers : Dict (List String)) (client_do : Request → Option Response) (p : Pool)
      → lookup c.server_id p.clients ≡ some bc
      → net.parse c.server_id ≡ some base
      → IsAbsolute path
      → net.valid_method method ≡ true
      → (let url : Url = record {
        scheme = base.scheme;
        host = base.host;
        path = path;
        raw_query = "";
      } in
          net.parse (net.text_of url) ≡ some url)
      → UniqueKeys headers
      → (req : Request) × (proxy_request net c method path body headers client_do p
          ≡ exchanged net req (client_do req))
        × (req.method ≡ method)
        × (req.body ≡ body)
        × (req.url ≡ record { scheme = base.scheme; host = base.host; path = path; raw_query = "" })
        × ((j : String) → values_of (lookup j req.headers) ≡ values_of (lookup j headers))
  unfolding proxy_request
  proxy_request-IsAbsolute c bc base method path body headers client_do p known read a good back u =
      let url : Url = record {
        scheme = base.scheme;
        host = base.host;
        path = path;
        raw_query = "";
      } in
      let req : Request = record {
        method = method;
        url = url;
        body = body;
        headers = copy_headers headers [];
      } in
      (
        req,
        rw (known, proxy_request, read, a.parsed, resolve_reference-path base path a, back, good)
            refl,
        refl,
        refl,
        refl,
        λ j. values-copy_headers headers j u,
      )
