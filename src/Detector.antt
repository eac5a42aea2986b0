-- ===== src/Detector.antt =====
-- core/detector/protocol_detector.go: the Bloom filter, the layers of detection and DetectProtocol. Strings
-- of bytes are lists of numbers below 256. The scores of the port map are counts: float64 adds 1.0
-- to them exactly as long as they stay below 2 ^ 53. Ports and addresses are those that parseAddr gives.
mod Signatures
mod Filter
pub mod Bloom
pub mod Layers
pub mod Dispatch
mod Tests
unfoldable pub use Filter.*
unfoldable pub use Signatures.*
use muxcore.Common.{
  ℕ, ◌+◌, ◌*◌, String, Bool, not, ◌&&◌, Option, none, some, List, [], ◌∷◌, ◌++◌, ltb, if◌then◌else◌,
  length,
}
use muxcore.Common.Dict.{Dict, lookup, insert}
use muxcore.Common.Keys.{string_key, number_key}
use muxcore.Buffer.{BytesBuffer, Result, ok, err, panic, bytes, reset, copy_at, set_wpos}
use muxcore.Network.{BufferedConn, ConnResult, got, failed, panics, read_conn, close_conn}

pub record ProtocolDetector (H : Type 0) : Type 0 where
  pub handlers : Dict String H
  pub bloom_filter : BloomFilter
  pub client_protocol_history : Dict String (List String)
  pub port_protocol_map : Dict ℕ (Dict String ℕ)
  -- The connections that the pool was told to remove.
  pub removed : List String

pub new_detector : {H : Type 0} → ProtocolDetector H
unfolding new_bloom_filter preload_protocol_signatures
new_detector = record {
  handlers = [];
  bloom_filter = preload_protocol_signatures (new_bloom_filter 1024 3);
  client_protocol_history = [];
  port_protocol_map = [];
  removed = [];
}

pub register_handler : {H : Type 0} → String → H → ProtocolDetector H → ProtocolDetector H
register_handler protocol h d = record d { handlers = insert protocol h d.handlers }

-- The loop of contextAwareDetection, from the best protocol and score so far.
pub best_protocol : String → ℕ → Dict String ℕ → String
best_protocol best score [] = best
best_protocol best score ((p, s) ∷ m) =
    if ltb score s then best_protocol p s m else best_protocol best score m

pub or_unknown : String → String
or_unknown p = if string_key.test p "" then "unknown" else p

pub context_aware_detection : {H : Type 0} → ℕ → ProtocolDetector H → String
unfolding best_protocol or_unknown
context_aware_detection port d = elim (lookup port d.port_protocol_map) [
  | none ↦ "unknown"
  | some protocols ↦ or_unknown (best_protocol "" 0 protocols)
]

pub or_empty {ℓ} : {A : Type ℓ} → Option (List A) → List A
or_empty none = []
or_empty (some l) = l

pub or_zero : Option ℕ → ℕ
or_zero none = 0
or_zero (some n) = n

pub update_client_protocol_history :
    {H : Type 0} → String → String → ProtocolDetector H → ProtocolDetector H
unfolding or_empty
update_client_protocol_history ip protocol d = record d {
  client_protocol_history =
      insert ip (or_empty (lookup ip d.client_protocol_history) ++ protocol ∷ [])
        d.client_protocol_history;
}

pub update_port_protocol_map : {H : Type 0} → ℕ → String → ProtocolDetector H → ProtocolDetector H
unfolding or_empty or_zero
update_port_protocol_map port protocol d =
    let scores = or_empty (lookup port d.port_protocol_map) in
    record d {
      port_protocol_map =
          insert port (insert protocol (or_zero (lookup protocol scores) + 1) scores)
            d.port_protocol_map;
    }

abbrev pub is_unknown : String → Bool
is_unknown p = string_key.test p "unknown"

abbrev pub is_empty_text : String → Bool
is_empty_text s = string_key.test s ""

-- The steps of DetectProtocol behind the first layer, each with what the ones before it have found.
pub verify : String → List ℕ → String
unfolding second_layer_detection
verify found input = if is_unknown found then found else second_layer_detection found input

pub infer : {H : Type 0} → String → ℕ → ProtocolDetector H → String → String
unfolding context_aware_detection
infer ip port d found =
    if is_unknown found && not (is_empty_text ip) then context_aware_detection port d else found

pub check_anomaly : List ℕ → String → String
unfolding third_layer_detection
check_anomaly input found =
    if not (is_unknown found) && not (third_layer_detection found input) then "unknown" else found

pub detect_layers : {H : Type 0} → String → ℕ → List ℕ → ProtocolDetector H → String
unfolding first_layer_detection verify infer check_anomaly
detect_layers ip port input d =
    check_anomaly input
      (infer ip port d (verify (first_layer_detection d.bloom_filter input) input))

pub learn : {H : Type 0} → String → ℕ → String → ProtocolDetector H → ProtocolDetector H
unfolding update_client_protocol_history update_port_protocol_map
learn ip port protocol d =
    if not (is_empty_text ip) && not (is_unknown protocol)
    then update_port_protocol_map port protocol (update_client_protocol_history ip protocol d)
    else d

pub data Outcome (H : Type 0) : Type 0 where
  -- handler.Handle with the data.
  handled : H → List ℕ → Outcome H
  unsupported : String → Outcome H
  read_failed : Outcome H
  panicked : Outcome H

-- The handler of the protocol, if there is one.
pub dispatch :
    {H : Type 0}
    → Option H
    → String
    → String
    → List ℕ
    → BufferedConn
    → ProtocolDetector H
    → ProtocolDetector H × BufferedConn × Outcome H
unfolding close_conn
dispatch none conn_id protocol input c d =
    (record d { removed = d.removed ++ conn_id ∷ [] }, close_conn c, unsupported protocol)
dispatch (some h) conn_id protocol input c d = (d, c, handled h input)

-- The part of DetectProtocol behind the read.
pub detect_data :
    {H : Type 0}
    → String
    → String
    → ℕ
    → List ℕ
    → BufferedConn
    → ProtocolDetector H
    → ProtocolDetector H × BufferedConn × Outcome H
unfolding detect_layers learn dispatch
detect_data conn_id ip port input c d =
    let protocol = detect_layers ip port input d in
    let d' = learn ip port protocol d in
    dispatch (lookup protocol d'.handlers) conn_id protocol input c d'

-- The read has put its bytes into the buffer's slice, and `buffer.SetWPos(n)` follows.
pub received : List ℕ → BytesBuffer → Result BytesBuffer
unfolding copy_at set_wpos
received input b = set_wpos (length input) (record b { buf = copy_at b.buf 0 input })

pub detect_received :
    {H : Type 0}
    → String
    → String
    → ℕ
    → Result BytesBuffer
    → BufferedConn
    → ProtocolDetector H
    → ProtocolDetector H × BufferedConn × Outcome H
unfolding detect_data bytes
detect_received conn_id ip port (ok b) c d = detect_data conn_id ip port (bytes b) c d
detect_received conn_id ip port (err e) c d = (d, c, panicked)
detect_received conn_id ip port panic c d = (d, c, panicked)

pub detect_read :
    {H : Type 0}
    → String
    → String
    → ℕ
    → BytesBuffer
    → BufferedConn × ConnResult (List ℕ)
    → ProtocolDetector H
    → ProtocolDetector H × BufferedConn × Outcome H
unfolding detect_received received
detect_read conn_id ip port b (c, got input) d =
    detect_received conn_id ip port (received input b) c d
detect_read conn_id ip port b (c, failed e) d =
    (record d { removed = d.removed ++ conn_id ∷ [] }, c, read_failed)
detect_read conn_id ip port b (c, panics) d = (d, c, panicked)

-- DetectProtocol with the buffer that the pool gives, which its Get has reset: the read is into
-- `buffer.Bytes()`, which is the slice up to the write position.
pub detect_protocol :
    {H : Type 0}
    → String
    → String
    → ℕ
    → BytesBuffer
    → BufferedConn
    → ProtocolDetector H
    → ProtocolDetector H × BufferedConn × Outcome H
unfolding detect_read read_conn reset bytes
detect_protocol conn_id ip port pooled c d =
    let b = reset pooled in detect_read conn_id ip port b (read_conn (length (bytes b)) c) d
