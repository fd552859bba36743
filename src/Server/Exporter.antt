-- ===== src/Server/Exporter.antt =====
-- server/metrics_exporter.go, and `handleMetrics` of server/server.go. A text is the list of its
-- characters; a block is written before what is written after it. `fmt.Sprintf("%.1f", v)` of a
-- float64 is a parameter.
use llm_bridge.Backend.Pool.{Pool, inflight}
use llm_bridge.Metrics.Collector.{Reals, ServerMetrics, Collector}
use llm_bridge.Server.Comments.{Bytes}
use llm_bridge.Server.Decimal.{format_int}
use llm_bridge.Base.Text.{runes}
use llm_bridge.Base.{
  String, Bool, true, false, ◌&&◌, ◌||◌, Option, none, some, List, [], ◌∷◌, ◌++◌, ltb, ◌==◌,
  if◌then◌else◌, Dict, lookup, keys,
}
use llm_bridge.Base.Int.{ℤ}

-- `writeMetric`, and what is written after it.
unfoldable pub write_metric : String → String → String → String → Bytes → Bytes → Bytes
write_metric name mtype help label_str value rest =
    runes "# HELP "
    ++ (runes name
        ++ (runes " "
            ++ (runes help
                ++ (runes "\n# TYPE "
                    ++ (runes name
                        ++ (runes " "
                            ++ (runes mtype
                                ++ (runes "\n"
                                    ++ (runes name
                                        ++ (runes "{"
                                            ++ (runes label_str
                                                ++ (runes "}"
                                                    ++ (runes " "
                                                        ++ (value
                                                            ++ (runes "\n" ++ rest)))))))))))))))

-- `sort.Strings`: the order of the characters is that of the bytes of their encoding.
abbrev pub text_le : Bytes → Bytes → Bool
text_le [] ds = true
text_le (c ∷ cs) [] = false
text_le (c ∷ cs) (d ∷ ds) = ltb c d || ((c == d) && text_le cs ds)

insert_text : String → List String → List String
insert_text s [] = s ∷ []
insert_text s (t ∷ ts) =
    let later = t ∷ insert_text s ts in if text_le (runes s) (runes t) then s ∷ t ∷ ts else later

unfoldable pub sort_strings : List String → List String
unfolding insert_text
sort_strings [] = []
sort_strings (s ∷ ss) = insert_text s (sort_strings ss)

module _ (reals : Reals) (format_tenths : reals.Real → Bytes) where
  -- The blocks of one server.
  unfoldable pub server_blocks : String → ServerMetrics reals → Bytes → Bytes
  unfolding write_metric
  server_blocks url sm rest =
      write_metric "vllm_requests_running" "gauge" "Number of requests currently running on backend"
        url (format_int sm.requests_running)
        (write_metric "vllm_requests_waiting" "gauge" "Number of requests waiting in queue" url
          (format_int sm.requests_waiting)
          (write_metric "vllm_kv_cache_usage_perc" "gauge" "KV-cache usage percentage" url
            (format_tenths sm.kv_cache_usage_perc)
            (write_metric "vllm_prompt_tokens_total" "counter" "Total prompt tokens processed" url
              (format_int sm.prompt_tokens_total)
              (write_metric "vllm_generation_tokens_total" "counter"
                "Total generation tokens produced" url (format_int sm.gen_tokens_total)
                (write_metric "vllm_prefill_throughput" "gauge"
                  "Prefill throughput in tokens per second" url
                  (format_tenths sm.prefill_throughput)
                  (write_metric "vllm_decode_throughput" "gauge"
                    "Decode throughput in tokens per second" url
                    (format_tenths sm.decode_throughput)
                    (write_metric "vllm_avg_prefill_time_ms" "gauge"
                      "Average prefill time per request" url (format_tenths sm.avg_prefill_time_ms)
                      (write_metric "vllm_avg_decode_time_ms" "gauge"
                        "Average decode time per token" url (format_tenths sm.avg_decode_time_ms)
                        rest))))))))

  abbrev pub blocks_if : String → Option (ServerMetrics reals) → Bytes → Bytes
  blocks_if url none rest = rest
  blocks_if url (some sm) rest = server_blocks url sm rest

  -- The loop over the servers.
  unfoldable pub vllm_blocks : List String → Dict (ServerMetrics reals) → Bytes → Bytes
  unfolding server_blocks
  vllm_blocks [] all rest = rest
  vllm_blocks (url ∷ urls) all rest = blocks_if url (lookup url all) (vllm_blocks urls all rest)

  -- The loop over the servers for the requests in flight.
  unfoldable pub inflight_blocks : List String → Pool → Bytes
  unfolding write_metric
  inflight_blocks [] p = []
  inflight_blocks (url ∷ urls) p =
      write_metric "llm_bridge_inflight_requests" "gauge"
        "Current number of in-flight proxy requests" url (format_int (inflight url p))
        (inflight_blocks urls p)

  unfoldable pub export_metrics : Dict (ServerMetrics reals) → Pool → ℤ → ℤ → Bytes
  unfolding sort_strings vllm_blocks write_metric inflight_blocks
  export_metrics all p success error =
      let urls = sort_strings (keys all) in
      vllm_blocks urls all (
        write_metric "llm_bridge_requests_total" "counter"
          "Total proxy requests processed by bridge" "status=\"success\"" (format_int success)
          (write_metric "llm_bridge_requests_total" "counter"
            "Total proxy requests processed by bridge" "status=\"error\"" (format_int error)
            (inflight_blocks urls p)))

  abbrev pub all_metrics : Option (Collector reals) → Dict (ServerMetrics reals)
  all_metrics none = []
  all_metrics (some c) = c.data_of

  -- `handleMetrics`: the text of its answer.
  unfoldable pub handle_metrics : Option (Collector reals) → Pool → ℤ → ℤ → Bytes
  unfolding export_metrics
  handle_metrics metrics p success error = export_metrics (all_metrics metrics) p success error
