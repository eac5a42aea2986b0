-- ===== src/Detector/Dispatch.antt =====
-- core/detector/protocol_detector.go: what DetectProtocol gets to see of a connection.
use muxcore.Common.{
  ℕ, String, ◌≡◌, refl, sym, ap, subst, ◌∙◌, Bool, true, false, not, ◌&&◌, Option, none, List, [],
  ◌∷◌, arith, ltb, length, All, if_either, if_cases,
}
use muxcore.Common.Dict.{Dict, lookup}
use muxcore.Common.Keys.{string_key, number_key}
use muxcore.Buffer.{BytesBuffer, Result, ok, ◌>>=◌, bytes, reset, copy_at, set_wpos}
use muxcore.Network.{BufferedConn, ConnResult, got, failed, panics, read_conn}
use muxcore.Detector.{
  BloomFilter, contains, is_same_bytes, is_one_of, has_bytes, classify, first_layer_detection,
  starts_with_zero, verify, infer, check_anomaly, ProtocolDetector, context_aware_detection,
  detect_layers, learn, Outcome, handled, unsupported, read_failed, panicked, dispatch, detect_data,
  received, detect_received, detect_read, detect_protocol, is_empty_text,
}
use muxcore.Network.Empty.{IsEmpty, read_conn_none}

pub is_handled : {H : Type 0} → Outcome H → Bool
is_handled (handled h d) = true
is_handled (unsupported p) = false
is_handled read_failed = false
is_handled panicked = false

-- No port has a score yet, and no handler is registered under "unknown".
pub record Blind {H : Type 0} (d : ProtocolDetector H) : Type 0 where
  pub unscored : d.port_protocol_map ≡ []
  pub unregistered : lookup "unknown" d.handlers ≡ none

first_layer_detection-nothing : (bf : BloomFilter) → first_layer_detection bf [] ≡ "unknown"
unfolding first_layer_detection classify starts_with_zero is_one_of is_same_bytes has_bytes
first_layer_detection-nothing bf =
    if_either (λ (s : String). s ≡ "unknown") (contains [] bf) refl refl

received-nothing :
    (b : BytesBuffer) → received [] b ≡ ok (record b { buf = copy_at b.buf 0 []; wpos = 0 })
unfolding received set_wpos
received-nothing b =
    let b' = record b { buf = copy_at b.buf 0 [] } in
    if_cases
      (λ (r : Result BytesBuffer).
        (r >>= λ q. ok (record q { wpos = 0 })) ≡ ok (record b' { wpos = 0 }))
      (ltb (length b'.buf) 0) (λ h. absurd (ground arith)) (λ h. refl)

module _ {H : Type 0} (conn_id ip : String) (port : ℕ) where
  -- What the theorem says of a result.
  abbrev pub Rejects : ProtocolDetector H × BufferedConn × Outcome H → Type 0
  Rejects (d, c, o) = Blind d × (is_handled o ≡ false)

  infer-nothing :
      (d : ProtocolDetector H) → d.port_protocol_map ≡ [] → infer ip port d "unknown" ≡ "unknown"
  unfolding infer context_aware_detection lookup
  infer-nothing d e =
      if_either (λ (s : String). s ≡ "unknown") (not (is_empty_text ip))
        (ap
          (λ (m : Dict ℕ (Dict String ℕ)).
            context_aware_detection port (record d { port_protocol_map = m }))
          e)
        refl

  detect_layers-nothing :
      (d : ProtocolDetector H) → d.port_protocol_map ≡ [] → detect_layers ip port [] d ≡ "unknown"
  unfolding detect_layers verify check_anomaly
  detect_layers-nothing d e =
      ap (λ (found : String). check_anomaly [] (infer ip port d (verify found [])))
        (first_layer_detection-nothing d.bloom_filter)
      ∙ ap (check_anomaly []) (infer-nothing d e)

  learn-unknown : (d : ProtocolDetector H) → learn ip port "unknown" d ≡ d
  unfolding learn
  learn-unknown d =
      if_cases (λ (r : ProtocolDetector H). r ≡ d) (not (is_empty_text ip) && false)
        (λ h. absurd (ground arith)) (λ h. refl)

  dispatch-unknown :
      (c : BufferedConn) (d : ProtocolDetector H)
      → Blind d
      → Rejects (dispatch (lookup "unknown" d.handlers) conn_id "unknown" [] c d)
  unfolding dispatch is_handled
  dispatch-unknown c d b =
      subst (λ (h : Option H). Rejects (dispatch h conn_id "unknown" [] c d)) (sym b.unregistered)
        (record { unscored = b.unscored; unregistered = b.unregistered }, refl)

  detect_data-nothing :
      (c : BufferedConn) (d : ProtocolDetector H)
      → Blind d
      → Rejects (detect_data conn_id ip port [] c d)
  unfolding detect_data
  detect_data-nothing c d b =
      subst
        (λ (p : String).
          Rejects
            (dispatch (lookup p (learn ip port p d).handlers) conn_id p [] c (learn ip port p d)))
        (sym (detect_layers-nothing d b.unscored))
        (subst
          (λ (d' : ProtocolDetector H).
            Rejects (dispatch (lookup "unknown" d'.handlers) conn_id "unknown" [] c d'))
          (sym (learn-unknown d)) (dispatch-unknown c d b))

  detect_received-nothing :
      (b : BytesBuffer) (c : BufferedConn) (d : ProtocolDetector H)
      → Blind d
      → Rejects (detect_received conn_id ip port (received [] b) c d)
  unfolding detect_received bytes
  detect_received-nothing b c d blind =
      subst (λ (r : Result BytesBuffer). Rejects (detect_received conn_id ip port r c d))
        (sym (received-nothing b)) (detect_data-nothing c d blind)

  detect_read-nothing :
      (b : BytesBuffer) (c : BufferedConn) (r : ConnResult (List ℕ)) (d : ProtocolDetector H)
      → Blind d
      → IsEmpty r
      → Rejects (detect_read conn_id ip port b (c, r) d)
  unfolding detect_read IsEmpty is_handled
  detect_read-nothing b c (got input) d blind e =
      subst (λ (input : List ℕ). Rejects (detect_received conn_id ip port (received input b) c d))
        (sym e) (detect_received-nothing b c d blind)
  detect_read-nothing b c (failed error) d blind e =
      (record { unscored = blind.unscored; unregistered = blind.unregistered }, refl)
  detect_read-nothing b c panics d blind e = (blind, refl)

  detect_protocol-Rejects :
      (pooled : BytesBuffer) (c : BufferedConn) (d : ProtocolDetector H)
      → Blind d
      → Rejects (detect_protocol conn_id ip port pooled c d)
  unfolding detect_protocol reset bytes
  detect_protocol-Rejects pooled c d blind =
      let (c', r) = read_conn 0 c in
      detect_read-nothing (reset pooled) c' r d blind (read_conn_none c)

pub record Request : Type 0 where
  pub conn_id : String
  pub ip : String
  pub port : ℕ
  pub pooled : BytesBuffer
  pub conn : BufferedConn

-- DetectProtocol of one connection after the other, with the outcomes.
pub detect_all :
    {H : Type 0} → List Request → ProtocolDetector H → ProtocolDetector H × List (Outcome H)
unfolding detect_protocol
detect_all [] d = (d, [])
detect_all (q ∷ l) d =
    let (d', c, o) = detect_protocol q.conn_id q.ip q.port q.pooled q.conn d in
    let (d'', outcomes) = detect_all l d' in (d'', o ∷ outcomes)

-- From a detector that has seen no connection, with handlers for any protocols but "unknown", whatever the
-- connections have sent: DetectProtocol calls no handler. It reads into the bytes of a buffer that has just been
-- reset, of which there are none.
pub nothing_handled :
    {H : Type 0} (l : List Request) (d : ProtocolDetector H)
    → Blind d
    → All (λ (o : Outcome H). is_handled o ≡ false) (detect_all l d).1
unfolding detect_all
nothing_handled [] d b = tt
nothing_handled (q ∷ l) d b =
    let (b', rejected) = detect_protocol-Rejects q.conn_id q.ip q.port q.pooled q.conn d b in
    (rejected, nothing_handled l (detect_protocol q.conn_id q.ip q.port q.pooled q.conn d).0 b')
