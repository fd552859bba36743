-- ===== src/Backend/Proxy.antt =====
-- backend/backend.go: `ProxyRequest`. `url.Parse`, the merge of two paths and the text of a URL, and
-- which methods net/http accepts, are parameters; `ResolveReference` is written out for URLs of a
-- server and of a path, without user and fragment.
use llm_bridge.Backend.Pool.{Pool, Conn}
use llm_bridge.Backend.Headers.{copy_headers}
use llm_bridge.Base.{
  ℕ, String, Bool, not, ◌&&◌, ◌||◌, Option, none, some, List, [], str_eq, if◌then◌else◌, Dict,
  lookup,
}

pub record Url : Type 0 where
  pub scheme : String
  pub host : String
  pub path : String
  pub raw_query : String

pub record NetUrl : Type 0 where
  pub parse : String → Option Url
  -- The path of a reference, from the path of the base and its own.
  pub resolve_path : String → String → String
  pub text_of : Url → String
  pub valid_method : String → Bool

pub record Request : Type 0 where
  pub method : String
  pub url : Url
  pub body : String
  pub headers : Dict (List String)

pub record Response : Type 0 where
  pub status : ℕ
  pub headers : Dict (List String)
  pub body : String

pub data ProxyError : Type 0 where
  unknown_server bad_server_url bad_path bad_request : ProxyError

-- Nothing was sent, the request got no response, or it got one.
pub data Proxied : Type 0 where
  not_sent : ProxyError → Proxied
  send_failed : Request → Proxied
  answered : Request → Response → Proxied

module _ (net : NetUrl) where
  -- `base.ResolveReference(ref)`.
  unfoldable pub resolve_reference : Url → Url → Url
  resolve_reference base ref =
      if not (str_eq ref.scheme "") || not (str_eq ref.host "")
      then record ref {
        scheme = if str_eq ref.scheme "" then base.scheme else ref.scheme;
        path = net.resolve_path ref.path "";
      }
      else record {
        scheme = base.scheme;
        host = base.host;
        path = net.resolve_path base.path ref.path;
        raw_query =
            if str_eq ref.path "" && str_eq ref.raw_query "" then base.raw_query else ref.raw_query;
      }

  abbrev pub exchanged : Request → Option Response → Proxied
  exchanged req none = send_failed req
  exchanged req (some resp) = answered req resp

  -- `NewRequestWithContext`, the copy of the headers, and the exchange.
  abbrev pub send_to :
      String → Option Url → String → Dict (List String) → (Request → Option Response) → Proxied
  send_to method none body headers client_do = not_sent bad_request
  send_to method (some url) body headers client_do =
      let req : Request = record {
        method = method;
        url = url;
        body = body;
        headers = copy_headers headers [];
      } in
      if net.valid_method method then exchanged req (client_do req) else not_sent bad_request

  unfoldable pub proxy_request :
      Conn
      → String
      → String
      → String
      → Dict (List String)
      → (Request → Option Response)
      → Pool
      → Proxied
  unfolding resolve_reference
  proxy_request conn method path body headers client_do p = elim (lookup conn.server_id p.clients) [
    | none ↦ not_sent unknown_server
    | some bc ↦ elim (net.parse conn.server_id) [
      | none ↦ not_sent bad_server_url
      | some base ↦ elim (net.parse path) [
        | none ↦ not_sent bad_path
        | some ref ↦
            send_to method (net.parse (net.text_of (resolve_reference base ref))) body headers
              client_do
      ]
    ]
  ]
