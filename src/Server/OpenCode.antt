-- ===== src/Server/OpenCode.antt =====
-- server/opencode.go: the configuration for opencode that is made of the models discovered. The
-- decoder of a model's metadata and the test for JSON are parameters; an answer with status 200 is
-- the record that is rendered in it.
use llm_bridge.Config.Types.{GlobalConfig}
use llm_bridge.Config.Env.{positive_or}
use llm_bridge.Discovery.State.{Discovery, RawMessage}
use llm_bridge.Server.Comments.{Bytes, strip_jsonc, trim_right}
use llm_bridge.Base.Text.{runes}
use llm_bridge.Base.{
  ℕ, String, Bool, false, not, ◌&&◌, ◌||◌, Option, none, some, List, [], ◌∷◌, ◌++◌, str_eq, ◌==◌,
  if◌then◌else◌, Dict, lookup, insert, keys,
}
use llm_bridge.Base.Int.{ℤ, pos, ltb_ℤ, add64, sub64}

-- The fields that `extractMaxModelLen` decodes, 0 if they are not there.
pub record ModelMeta : Type 0 where
  pub max_model_len : ℤ
  pub max_tokens : ℤ
  pub context_len : ℤ
  pub max_context_len : ℤ

pub record ModelLimit : Type 0 where
  pub context : ℤ
  pub input : ℤ
  pub output : ℤ

pub record ModelEntry : Type 0 where
  pub id : String
  pub limit : ModelLimit

abbrev pub default_generation_limit : ℤ
default_generation_limit = pos 3000

abbrev pub default_max_model_len : ℤ
default_max_model_len = pos 8192

-- The switch over the fields.
unfoldable pub first_limit : ModelMeta → ℤ
first_limit meta =
    if ltb_ℤ (pos 0) meta.max_model_len
    then meta.max_model_len
    else if ltb_ℤ (pos 0) meta.max_context_len
    then meta.max_context_len
    else if ltb_ℤ (pos 0) meta.max_tokens
    then add64 meta.max_tokens default_generation_limit
    else if ltb_ℤ (pos 0) meta.context_len
    then meta.context_len
    else default_max_model_len

-- What is left for the output when the input's limit is settled.
unfoldable pub settle : ℤ → ℤ → ℤ → ℤ → ModelLimit
settle context buffer in_limit out_limit =
    if ltb_ℤ out_limit (pos 0)
    then (record {
      context = context;
      input = if ltb_ℤ (sub64 context buffer) (pos 0) then pos 0 else sub64 context buffer;
      output = pos 0;
    })
    else record { context = context; input = in_limit; output = out_limit }

-- The limits of a model, for the output and the buffer that are asked for.
unfoldable pub limit_of : ℤ → ℤ → ℤ → ModelLimit
unfolding settle
limit_of context out_limit buffer =
    if ltb_ℤ (sub64 (sub64 context out_limit) buffer) (pos 0)
    then settle context buffer (pos 0) (sub64 context buffer)
    else settle context buffer (sub64 (sub64 context out_limit) buffer) out_limit

-- A missing key of `details` reads as no bytes.
abbrev pub or_blank : Option RawMessage → RawMessage
or_blank none = ""
or_blank (some raw) = raw

module _ (decode : RawMessage → Option ModelMeta) where
  unfoldable pub extract_max_model_len : RawMessage → ℤ
  unfolding first_limit
  extract_max_model_len raw =
      if str_eq raw ""
      then default_max_model_len
      else elim (decode raw) [ none ↦ default_max_model_len | some meta ↦ first_limit meta ]

  -- One round of the loop over the names of the models.
  unfoldable pub model_entry : GlobalConfig → Dict RawMessage → String → ModelEntry
  model_entry g details name = record {
    id = name;
    limit =
        limit_of (extract_max_model_len (or_blank (lookup name details)))
          (positive_or (pos 8192) g.open_code_context_output)
          (positive_or (pos 1024) g.open_code_context_buffer);
  }

  unfoldable pub entries_from : GlobalConfig → Dict RawMessage → List String → Dict ModelEntry
  entries_from g details [] = []
  entries_from g details (name ∷ names) =
      insert name (model_entry g details name) (entries_from g details names)

  -- `buildModelEntries`. The order of the names does not matter to a map.
  unfoldable pub build_model_entries : GlobalConfig → Discovery → Dict ModelEntry
  build_model_entries g d = entries_from g d.model_details (keys d.models)

-- What `resolveBaseURL` reads of a request.
pub record Request : Type 0 where
  pub tls : Bool
  pub host : String
  pub base_url : String

abbrev pub append_runes : String → Bytes → Bytes
append_runes s rest = runes s ++ rest

-- The address before the end of it is trimmed.
unfoldable pub base_of : GlobalConfig → Request → Bytes
base_of g r =
    if not (str_eq r.base_url "")
    then runes r.base_url
    else if not (str_eq g.open_code_base_url "")
    then runes g.open_code_base_url
    else if r.tls
    then append_runes "https://" (runes r.host)
    else append_runes "http://" (runes r.host)

unfoldable pub resolve_base_url : GlobalConfig → Request → Bytes
unfolding base_of
resolve_base_url g r = trim_right b'/' (base_of g r) ++ runes "/v1"

-- The parts of the generated configuration that are not constant.
pub record OpenCodeConfig : Type 0 where
  pub base_url : Bytes
  pub models : Dict ModelEntry

pub data Response : Type 0 where
  generated : OpenCodeConfig → Response
  status : ℕ → Response

-- The text that is parsed, with `strings.TrimSpace` as a parameter.
unfoldable pub post_content : (Bytes → Bytes) → (Bytes → Bool) → Bytes → Bytes
post_content trim_space has_comment body =
    let content = trim_space body in
    let stripped = trim_space (if has_comment content then strip_jsonc content else content) in
    elim stripped [ [] ↦ runes "{}" | c ∷ cs ↦ c ∷ cs ]

abbrev pub has_slashes : Bytes → Bool
has_slashes [] = false
has_slashes (c ∷ []) = false
has_slashes (c ∷ d ∷ cs) = ((c == b'/') && (d == b'/')) || has_slashes (d ∷ cs)

module _ (decode : RawMessage → Option ModelMeta) where
  abbrev pub generate : GlobalConfig → Discovery → Request → Response
  generate g d r =
      generated
        (record { base_url = resolve_base_url g r; models = build_model_entries decode g d })

  -- `handleOpenCodeConfig`.
  unfoldable pub handle_open_code_config : GlobalConfig → Discovery → Request → Response
  handle_open_code_config g d r = generate g d r

  -- `handlePostOpenCodeConfig`: the body, or `none` if it cannot be read.
  module _ (trim_space : Bytes → Bytes) (is_json_object : Bytes → Bool) where
    unfoldable pub handle_post_open_code_config :
        GlobalConfig → Discovery → Request → Option Bytes → Response
    unfolding post_content
    handle_post_open_code_config g d r none = status 400
    handle_post_open_code_config g d r (some body) =
        if is_json_object (post_content trim_space has_slashes body)
        then generate g d r
        else status 400
