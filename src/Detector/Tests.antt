-- ===== src/Detector/Tests.antt =====
-- Runs of the protocol detector.
use muxcore.Common.{ℕ, ◌≡◌, refl, true, false, [], ◌∷◌, ◌++◌, arith, All}
use muxcore.Common.Dict.{lookup, insert}
use muxcore.Common.Keys.{string_key, number_key}
use muxcore.Network.{chunk, new_buffered_conn}
use muxcore.Detector.{
  new_bloom_filter, add, contains, get_bytes, upgrade_bytes, preload_protocol_signatures,
  first_layer_detection, ProtocolDetector, new_detector, register_handler, Outcome,
}
use muxcore.Detector.Bloom.{add_all, no_false_negative}
use muxcore.Detector.Layers.{get_line, preloaded}
use muxcore.Detector.Dispatch.{Blind, Request, detect_all, nothing_handled, is_handled}
use muxcore.Buffer.{new_bytes_buffer}

no_false_negative_example :
    contains get_bytes
      (add_all (upgrade_bytes ∷ []) (add get_bytes (add_all [] (new_bloom_filter 64 3))))
    ≡ true
no_false_negative_example = no_false_negative 64 3 [] (upgrade_bytes ∷ []) get_bytes (omega arith)

-- Four bytes alone pass the filter.
get_passes : first_layer_detection preloaded get_bytes ≡ "http"
unfolding first_layer_detection preload_protocol_signatures new_bloom_filter
get_passes = refl

-- A detector with one handler, and a client that has sent a request.
abbrev detector : ProtocolDetector ℕ
detector = register_handler "http" 1 new_detector

abbrev client : Request
client = record {
  conn_id = "c1";
  ip = "10.0.0.1";
  port = 80;
  pooled = new_bytes_buffer 4096;
  conn = new_buffered_conn (chunk (get_line ++ 13 ∷ 10 ∷ []) ∷ []) 4096;
}

detector-Blind : Blind detector
unfolding register_handler new_detector insert lookup
detector-Blind = record { unscored = refl; unregistered = refl }

nothing_handled_example :
    All (λ (o : Outcome ℕ). is_handled o ≡ false) (detect_all (client ∷ client ∷ []) detector).1
nothing_handled_example = nothing_handled (client ∷ client ∷ []) detector detector-Blind
