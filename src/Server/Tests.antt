-- ===== src/Server/Tests.antt =====
-- Tests of server/opencode.go's model, and its theorems at concrete inputs.
use llm_bridge.Config.Types.{GlobalConfig, default_config}
use llm_bridge.Discovery.State.{Discovery, RawMessage}
use llm_bridge.Server.Comments.{
  Bytes, scan_next, opens_comment, strip_from, strip_line_comment, split_lines, write_lines,
  trim_right, strip_jsonc,
}
use llm_bridge.Server.Strings.{IsCut, strip_line_comment-IsCut}
use llm_bridge.Server.OpenCode.{
  ModelMeta, ModelLimit, ModelEntry, first_limit, settle, limit_of, or_blank, extract_max_model_len,
  model_entry, entries_from, build_model_entries, Request, base_of, resolve_base_url, post_content,
  handle_open_code_config, handle_post_open_code_config,
}
use llm_bridge.Server.Limits.{IsDivided, model_entry-IsDivided, FitsLimit}
use llm_bridge.Base.Text.{runes}
use llm_bridge.Base.{
  ℕ, String, ◌≡◌, refl, true, Option, none, some, [], ◌∷◌, arith, str_eq, if◌then◌else◌, All,
  lookup, insert,
}
use llm_bridge.Base.Int.{ℤ, pos, add64, sub64}

server_model : Unit {0}
unfolding scan_next opens_comment strip_from strip_line_comment split_lines write_lines trim_right
    strip_jsonc first_limit settle limit_of extract_max_model_len model_entry entries_from
    build_model_entries base_of resolve_base_url post_content handle_open_code_config
    handle_post_open_code_config lookup insert sub64 add64
server_model = tt

abbrev quoted : Bytes
quoted = runes "{\"a\": \"http://b\"} // note"

-- A string with an escaped quote and two slashes after it, and then a comment.
abbrev noted : Bytes
noted = runes "[\"\\\"//x\"] // note"

strip_tests :
    (strip_line_comment quoted ≡ runes "{\"a\": \"http://b\"} ")
    × (strip_line_comment noted ≡ runes "[\"\\\"//x\"] ")
    × (strip_jsonc (runes "a // b\nc\n\n") ≡ runes "a \nc")
    × (strip_line_comment (runes "\"\\\\\"//x") ≡ runes "\"\\\\\"")
    × (strip_line_comment (runes "\"\\\"//x") ≡ runes "\"\\\"//x")
unfolding server_model
strip_tests = (refl, refl, refl, refl, refl)

strip_line_comment-IsCut_example : IsCut noted (strip_line_comment noted)
strip_line_comment-IsCut_example = strip_line_comment-IsCut noted

abbrev plain : Bytes
plain = runes "{\n}\n\n"

plain-clean : All (λ line. strip_line_comment line ≡ line) (split_lines plain)
unfolding server_model
plain-clean = (refl, (refl, (refl, (refl, tt))))

abbrev meta_of : ℕ → ℕ → ModelMeta
meta_of len tokens = record {
  max_model_len = pos len;
  max_tokens = pos tokens;
  context_len = pos 0;
  max_context_len = pos 0;
}

-- A decoder that knows two texts.
abbrev decode : RawMessage → Option ModelMeta
decode raw =
    if str_eq raw "big"
    then some (meta_of 32768 0)
    else if str_eq raw "small"
    then some (meta_of 0 1000)
    else none

abbrev two_models : Discovery
two_models = record {
  servers = [];
  models = ("x", "http://a" ∷ []) ∷ ("y", "http://a" ∷ []) ∷ [];
  model_details = ("x", "big") ∷ ("y", "small") ∷ [];
  healthy = [];
}

abbrev settings : GlobalConfig
settings = default_config.global

abbrev entry : String → ModelEntry
entry name = model_entry decode settings two_models.model_details name

limit : ℤ → ℤ → ℤ → ModelLimit
limit c i o = record { context = c; input = i; output = o }

limit_tests :
    ((entry "x").limit ≡ limit (pos 32768) (pos 23552) (pos 8192))
    × ((entry "y").limit ≡ limit (pos 4000) (pos 0) (pos 2976))
    × ((entry "z").limit ≡ limit (pos 8192) (pos 0) (pos 7168))
unfolding server_model limit
limit_tests = (refl, refl, refl)

x_context :
    extract_max_model_len decode (or_blank (lookup "x" two_models.model_details)) ≡ pos 32768
unfolding server_model
x_context = refl

model_entry-IsDivided_example : IsDivided 32768 8192 1024 (entry "x").limit
model_entry-IsDivided_example =
    model_entry-IsDivided decode settings two_models.model_details "x" 32768 8192 1024 x_context
      refl refl (omega arith) (omega arith) (omega arith) (omega arith)

small_fits : (meta : ModelMeta) → decode "small" ≡ some meta → FitsLimit meta
small_fits meta e = ground arith

abbrev request : Request
request = record { tls = true; host = "bridge"; base_url = "http://c//" }

url_tests :
    (resolve_base_url settings request ≡ runes "http://c/v1")
    × (resolve_base_url settings (record request { base_url = "" }) ≡ runes "https://bridge/v1")
unfolding server_model
url_tests = (refl, refl)
