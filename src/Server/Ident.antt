-- ===== src/Server/Ident.antt =====
-- server/server.go: the server id at the end of a path, as `handleGetServer`, `handleUpdateServer` and
-- `handleDeleteServer` take it, with `url.PathUnescape`. What they decode is what `chi.URLParam` gives
-- them, which net/http may have decoded before: Server/Escaped has where it comes from. The id is given
-- by its bytes, and what text they are is a parameter.
use llm_bridge.Config.Types.{Config}
use llm_bridge.Config.Store.{Yaml, WriteOutcome}
use llm_bridge.Backend.Pool.{Pool}
use llm_bridge.Discovery.State.{Discovery}
use llm_bridge.Metrics.Collector.{Reals}
use llm_bridge.Server.Comments.{Bytes}
use llm_bridge.Server.Admin.{ServerPatch, ServerState, handle_update_server, handle_delete_server}
use llm_bridge.Server.Listing.{ServerRow, handle_get_server}
use llm_bridge.Base.{
  ℕ, ◌+◌, ◌-◌, ◌*◌, String, Bool, ◌&&◌, Option, none, some, [], ◌∷◌, leb, ◌==◌, if◌then◌else◌,
  is_some,
}

unfoldable pub hex_value : ℕ → Option ℕ
hex_value c =
    if leb b'0' c && leb c b'9'
    then some (c - b'0')
    else if leb b'A' c && leb c b'F'
    then some (c - 55)
    else if leb b'a' c && leb c b'f'
    then some (c - 87)
    else none

abbrev pub then_byte : ℕ → Option Bytes → Option Bytes
then_byte c none = none
then_byte c (some cs) = some (c ∷ cs)

abbrev pub then_pair : Option ℕ → Option ℕ → Option Bytes → Option Bytes
then_pair none low rest = none
then_pair (some high) none rest = none
then_pair (some high) (some low) rest = then_byte (high * 16 + low) rest

-- `url.PathUnescape`: a percent sign wants two hexadecimal digits.
unfoldable pub path_unescape : Bytes → Option Bytes
unfolding hex_value
path_unescape [] = some []
path_unescape (c ∷ []) = if c == b'%' then none else some (c ∷ [])
path_unescape (c ∷ a ∷ []) =
    let rest = path_unescape (a ∷ []) in if c == b'%' then none else then_byte c rest
path_unescape (c ∷ a ∷ b ∷ cs) =
    let escaped = then_pair (hex_value a) (hex_value b) (path_unescape cs) in
    let plain = then_byte c (path_unescape (a ∷ b ∷ cs)) in if c == b'%' then escaped else plain

-- What a handler does with the id: it refuses an empty one and one that does not decode.
pub data Ident : Type 0 where
  missing_id bad_encoding : Ident
  ident : Bytes → Ident

abbrev pub ident_from : Option Bytes → Ident
ident_from none = bad_encoding
ident_from (some id) = ident id

unfoldable pub ident_of : Bytes → Ident
unfolding path_unescape
ident_of [] = missing_id
ident_of (c ∷ cs) = ident_from (path_unescape (c ∷ cs))

module _ (text_of : Bytes → String) where
  abbrev pub get_with : Ident → Config → Discovery → Pool → ℕ × Option ServerRow
  get_with missing_id cfg d p = (400, none)
  get_with bad_encoding cfg d p = (400, none)
  get_with (ident id) cfg d p =
      let row = handle_get_server (text_of id) cfg d p in (if is_some row then 200 else 404, row)

  -- `handleGetServer`: the status and the row.
  unfoldable pub get_server_at : Bytes → Config → Discovery → Pool → ℕ × Option ServerRow
  unfolding ident_of
  get_server_at wildcard cfg d p = get_with (ident_of wildcard) cfg d p

  module _ (reals : Reals) (yaml : Yaml) (parses : String → Bool) where
    abbrev pub update_with :
        Ident → WriteOutcome → Option ServerPatch → ServerState reals → ServerState reals × ℕ
    update_with missing_id w u s = (s, 400)
    update_with bad_encoding w u s = (s, 400)
    update_with (ident id) w none s = (s, 400)
    update_with (ident id) w (some u) s = handle_update_server reals yaml parses w (text_of id) u s

    -- `handleUpdateServer`: the id, and the body as it is decoded.
    unfoldable pub update_server_at :
        Bytes → WriteOutcome → Option ServerPatch → ServerState reals → ServerState reals × ℕ
    unfolding ident_of
    update_server_at wildcard w u s = update_with (ident_of wildcard) w u s

    abbrev pub delete_with : Ident → WriteOutcome → ServerState reals → ServerState reals × ℕ
    delete_with missing_id w s = (s, 400)
    delete_with bad_encoding w s = (s, 400)
    delete_with (ident id) w s = handle_delete_server reals yaml parses w (text_of id) s

    -- `handleDeleteServer`.
    unfoldable pub delete_server_at :
        Bytes → WriteOutcome → ServerState reals → ServerState reals × ℕ
    unfolding ident_of
    delete_server_at wildcard w s = delete_with (ident_of wildcard) w s
