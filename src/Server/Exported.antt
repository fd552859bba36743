-- ===== src/Server/Exported.antt =====
-- What a reader of the text of server/metrics_exporter.go finds in it.
use llm_bridge.Backend.Pool.{Pool, inflight}
use llm_bridge.Metrics.Collector.{Reals, ServerMetrics}
use llm_bridge.Metrics.Parser.{last_of, is_comment}
use llm_bridge.Metrics.Text.{
  split_by, is_newline, is_space, is_empty, fields, text_fields, none_of, split_by-append,
  none_of-append,
}
use llm_bridge.Metrics.Words.{is_word, and_left, fields-word, fields-one, spaceless}
use llm_bridge.Server.Comments.{Bytes}
use llm_bridge.Server.Decimal.{format_int, and_true, format_int-is_word}
use llm_bridge.Server.Exporter.{
  write_metric, sort_strings, server_blocks, blocks_if, vllm_blocks, inflight_blocks,
  export_metrics,
}
use llm_bridge.Base.Text.{runes}
use llm_bridge.Base.{
  String, ◌≡◌, refl, sym, ap, ◌∙◌, true, false, not, Option, none, some, List, [], ◌∷◌, ◌++◌, map,
  append_assoc, if◌then◌else◌, All, concat, Dict, lookup, keys,
}
use llm_bridge.Base.Int.{ℤ}

-- A line of samples: its first field and its last, as `parsePrometheus` takes them.
abbrev pub Sample : Type 0
Sample = Bytes × Bytes

abbrev pub sample_of : List Bytes → List Sample
sample_of [] = []
sample_of (name ∷ []) = []
sample_of (name ∷ part ∷ parts) = if is_comment name then [] else (name, last_of part parts) ∷ []

abbrev pub samples_in : List (List Bytes) → List Sample
samples_in [] = []
samples_in (line ∷ lines) = sample_of line ++ samples_in lines

-- The samples of a text.
abbrev pub samples : Bytes → List Sample
samples text = samples_in (text_fields text)

abbrev pub labelled : String → String → Bytes
labelled name label_str = runes name ++ (runes "{" ++ (runes label_str ++ runes "}"))

-- A line and what follows it.
samples-line :
    (line rest : Bytes)
    → none_of is_newline line ≡ true
    → samples (line ++ 10 ∷ rest) ≡ sample_of (fields line) ++ samples rest
unfolding text_fields
samples-line line rest clean =
    ap (λ pieces. samples_in (map fields pieces))
      (split_by-append is_newline line 10 rest clean refl)

sample_of-comment : (parts : List Bytes) → sample_of ((b'#' ∷ []) ∷ parts) ≡ []
sample_of-comment [] = refl
sample_of-comment (p ∷ ps) = refl

-- A line that starts with a number sign and a space has no sample.
samples-comment :
    (text rest : Bytes)
    → none_of is_newline text ≡ true
    → samples (b'#' ∷ 32 ∷ text ++ 10 ∷ rest) ≡ samples rest
unfolding is_space
samples-comment text rest clean =
    samples-line (b'#' ∷ 32 ∷ text) rest clean
    ∙ ap (λ s. s ++ samples rest)
        (ap sample_of (fields-word 32 (b'#' ∷ []) text refl refl) ∙ sample_of-comment (fields text))

labelled-word :
    (name label_str : String)
    → none_of is_space (runes name) ≡ true
    → none_of is_space (runes label_str) ≡ true
    → none_of is_space (labelled name label_str) ≡ true
unfolding is_space
labelled-word name label_str h k =
    none_of-append is_space (runes name) _ h (none_of-append is_space (runes label_str) _ k refl)

append-not_empty : (xs ys : Bytes) → not (is_empty ys) ≡ true → not (is_empty (xs ++ ys)) ≡ true
append-not_empty [] ys h = h
append-not_empty (x ∷ xs) ys h = refl

samples-data :
    (name label_str : String) (value rest : Bytes)
    → none_of is_space (runes name) ≡ true
    → is_comment (labelled name label_str) ≡ false
    → none_of is_space (runes label_str) ≡ true
    → is_word value ≡ true
    → samples ((labelled name label_str ++ 32 ∷ value) ++ 10 ∷ rest)
      ≡ (labelled name label_str, value) ∷ samples rest
unfolding is_space
samples-data name label_str value rest h n k v =
    let first = labelled name label_str in
    let word : is_word first ≡ true =
      and_true (labelled-word name label_str h k) (append-not_empty (runes name) _ refl) in
    let cut : fields (first ++ 32 ∷ value) ≡ first ∷ value ∷ [] =
      fields-word 32 first value refl word ∙ ap (λ t. first ∷ t) (fields-one value v) in
    let clean =
      none_of-append is_newline first (32 ∷ value) (spaceless first (and_left _ word))
        (spaceless value (and_left _ v)) in
    samples-line (first ++ 32 ∷ value) rest clean
    ∙ ap (λ s. sample_of s ++ samples rest) cut
    ∙ rw n refl

-- The sample of a block.
samples-write_metric :
    (name mtype help label_str : String) (value rest : Bytes)
    → none_of is_space (runes name) ≡ true
    → is_comment (labelled name label_str) ≡ false
    → none_of is_newline (runes mtype) ≡ true
    → none_of is_newline (runes help) ≡ true
    → none_of is_space (runes label_str) ≡ true
    → is_word value ≡ true
    → samples (write_metric name mtype help label_str value rest)
      ≡ (labelled name label_str, value) ∷ samples rest
unfolding write_metric
samples-write_metric name mtype help label_str value rest h n m e k v =
    let nm = spaceless (runes name) h in
    let tail = labelled name label_str ++ 32 ∷ value in
    let help_line = runes "HELP " ++ (runes name ++ 32 ∷ runes help) in
    let type_line = runes "TYPE " ++ (runes name ++ 32 ∷ runes mtype) in
    let same : write_metric name mtype help label_str value rest
        ≡ b'#' ∷ 32 ∷ help_line ++ 10 ∷ (b'#' ∷ 32 ∷ type_line ++ 10 ∷ (tail ++ 10 ∷ rest)) =
      simp append_assoc in
    ap samples same
    ∙ samples-comment help_line _ (none_of-append is_newline (runes name) _ nm e)
    ∙ samples-comment type_line _ (none_of-append is_newline (runes name) _ nm m)
    ∙ samples-data name label_str value rest h n k v

-- A block, and the samples of what is written after it.
block :
    (name mtype help : String) (value rest : Bytes) {later : List Sample} (label_str : String)
    → none_of is_space (runes name) ≡ true
    → is_comment (labelled name label_str) ≡ false
    → none_of is_newline (runes mtype) ≡ true
    → none_of is_newline (runes help) ≡ true
    → none_of is_space (runes label_str) ≡ true
    → is_word value ≡ true
    → samples rest ≡ later
    → samples (write_metric name mtype help label_str value rest)
      ≡ (labelled name label_str, value) ∷ later
block name mtype help value rest label_str h n m e k v after =
    samples-write_metric name mtype help label_str value rest h n m e k v
    ∙ ap (λ s. (labelled name label_str, value) ∷ s) after

module _ (reals : Reals) (format_tenths : reals.Real → Bytes) where
  -- The samples of one server.
  abbrev pub server_samples : String → ServerMetrics reals → List Sample
  server_samples url sm =
      (labelled "vllm_requests_running" url, format_int sm.requests_running)
      ∷ (labelled "vllm_requests_waiting" url, format_int sm.requests_waiting)
      ∷ (labelled "vllm_kv_cache_usage_perc" url, format_tenths sm.kv_cache_usage_perc)
      ∷ (labelled "vllm_prompt_tokens_total" url, format_int sm.prompt_tokens_total)
      ∷ (labelled "vllm_generation_tokens_total" url, format_int sm.gen_tokens_total)
      ∷ (labelled "vllm_prefill_throughput" url, format_tenths sm.prefill_throughput)
      ∷ (labelled "vllm_decode_throughput" url, format_tenths sm.decode_throughput)
      ∷ (labelled "vllm_avg_prefill_time_ms" url, format_tenths sm.avg_prefill_time_ms)
      ∷ (labelled "vllm_avg_decode_time_ms" url, format_tenths sm.avg_decode_time_ms)
      ∷ []

  abbrev pub samples_if : String → Option (ServerMetrics reals) → List Sample
  samples_if url none = []
  samples_if url (some sm) = server_samples url sm

  -- The samples of the text: those of each server that has metrics, the two counters of the program,
  -- and the requests in flight to each server.
  abbrev pub all_samples : List String → Dict (ServerMetrics reals) → Pool → ℤ → ℤ → List Sample
  all_samples urls all p success error =
      concat (map (λ url. samples_if url (lookup url all)) urls)
      ++ ((labelled "llm_bridge_requests_total" "status=\"success\"", format_int success)
          ∷ (labelled "llm_bridge_requests_total" "status=\"error\"", format_int error)
          ∷ map (λ url. (labelled "llm_bridge_inflight_requests" url, format_int (inflight url p)))
              urls)

  module _ (word : (v : reals.Real) → is_word (format_tenths v) ≡ true) where
    samples-server_blocks :
        (url : String) (sm : ServerMetrics reals) (rest : Bytes)
        → none_of is_space (runes url) ≡ true
        → samples (server_blocks reals format_tenths url sm rest)
          ≡ server_samples url sm ++ samples rest
    unfolding server_blocks is_space
    samples-server_blocks url sm rest clean =
        (block "vllm_requests_running" "gauge" "Number of requests currently running on backend" _ _
          url refl refl refl refl clean (format_int-is_word sm.requests_running)
          (block "vllm_requests_waiting" "gauge" "Number of requests waiting in queue" _ _ url refl
            refl refl refl clean (format_int-is_word sm.requests_waiting)
            (block "vllm_kv_cache_usage_perc" "gauge" "KV-cache usage percentage" _ _ url refl refl
              refl refl clean (word sm.kv_cache_usage_perc)
              (block "vllm_prompt_tokens_total" "counter" "Total prompt tokens processed" _ _ url
                refl refl refl refl clean (format_int-is_word sm.prompt_tokens_total)
                (block "vllm_generation_tokens_total" "counter" "Total generation tokens produced" _
                  _ url refl refl refl refl clean (format_int-is_word sm.gen_tokens_total)
                  (block "vllm_prefill_throughput" "gauge" "Prefill throughput in tokens per second"
                    _ _ url refl refl refl refl clean (word sm.prefill_throughput)
                    (block "vllm_decode_throughput" "gauge" "Decode throughput in tokens per second"
                      _ _ url refl refl refl refl clean (word sm.decode_throughput)
                      (block "vllm_avg_prefill_time_ms" "gauge" "Average prefill time per request" _
                        _ url refl refl refl refl clean (word sm.avg_prefill_time_ms)
                        (block "vllm_avg_decode_time_ms" "gauge" "Average decode time per token" _ _
                          url refl refl refl refl clean (word sm.avg_decode_time_ms) refl)))))))))

    samples-blocks_if :
        (url : String) (sm : Option (ServerMetrics reals)) (rest : Bytes)
        → none_of is_space (runes url) ≡ true
        → samples (blocks_if reals format_tenths url sm rest) ≡ samples_if url sm ++ samples rest
    samples-blocks_if url none rest clean = refl
    samples-blocks_if url (some sm) rest clean = samples-server_blocks url sm rest clean

    samples-vllm_blocks :
        (urls : List String) (all : Dict (ServerMetrics reals)) (rest : Bytes)
        → All (λ url. none_of is_space (runes url) ≡ true) urls
        → samples (vllm_blocks reals format_tenths urls all rest)
          ≡ concat (map (λ url. samples_if url (lookup url all)) urls) ++ samples rest
    unfolding vllm_blocks
    samples-vllm_blocks [] all rest clean = refl
    samples-vllm_blocks (url ∷ urls) all rest (k, ks) =
        samples-blocks_if url (lookup url all) _ k
        ∙ ap (λ s. samples_if url (lookup url all) ++ s) (samples-vllm_blocks urls all rest ks)
        ∙ sym (append_assoc (samples_if url (lookup url all)) _ (samples rest))

    samples-inflight_blocks :
        (urls : List String) (p : Pool)
        → All (λ url. none_of is_space (runes url) ≡ true) urls
        → samples (inflight_blocks reals format_tenths urls p)
          ≡ map
              (λ url. (labelled "llm_bridge_inflight_requests" url, format_int (inflight url p)))
              urls
    unfolding inflight_blocks text_fields split_by is_space
    samples-inflight_blocks [] p clean = refl
    samples-inflight_blocks (url ∷ urls) p (k, ks) =
        block "llm_bridge_inflight_requests" "gauge" "Current number of in-flight proxy requests" _
          _ url refl refl refl refl k (format_int-is_word (inflight url p))
          (samples-inflight_blocks urls p ks)

    -- The text of `GET /admin/metrics` reads back: the way the program itself reads such a text, cut
    -- into lines and fields, it holds exactly the samples of each server with metrics in the order of
    -- their sorted URLs, then the two counters of the program, then the requests in flight to each
    -- server, and each value is the one that was printed. If no URL has a space, and a printed
    -- float64 is a word.
    pub samples-export_metrics :
        (all : Dict (ServerMetrics reals)) (p : Pool) (success error : ℤ)
        → All (λ url. none_of is_space (runes url) ≡ true) (sort_strings (keys all))
        → samples (export_metrics reals format_tenths all p success error)
          ≡ all_samples (sort_strings (keys all)) all p success error
    unfolding export_metrics is_space
    samples-export_metrics all p success error clean =
        let urls = sort_strings (keys all) in
        samples-vllm_blocks urls all _ clean
        ∙ ap (λ s. concat (map (λ url. samples_if url (lookup url all)) urls) ++ s)
            (block "llm_bridge_requests_total" "counter" "Total proxy requests processed by bridge"
              _ _ "status=\"success\"" refl refl refl refl refl (format_int-is_word success)
              (block "llm_bridge_requests_total" "counter"
                "Total proxy requests processed by bridge" _ _ "status=\"error\"" refl refl refl
                refl refl (format_int-is_word error) (samples-inflight_blocks urls p clean)))
