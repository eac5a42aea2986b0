-- ===== src/ResponseWriter/Lock.antt =====
-- core/pool/connection_manager.go: the mutex of the writer of a response.
use muxcore.Common.{ℕ, ◌+◌, String, ◌≡◌, refl, true, false, [], ◌∷◌, ◌++◌, if_cases}
use muxcore.Common.Keys.{string_key, number_key}
use muxcore.ResponseWriter.{
  ResponseWriter, Call, returns, waits, write_header_locked, write_header, write_body, write_after,
  write,
}

-- Write on an unlocked writer that has not sent its header never returns: it calls WriteHeader, which waits for the
-- mutex that Write holds. Nothing has been sent, and the mutex stays locked.
pub write_waits :
    (status_line : ℕ → String) (body : String) (n : ℕ) (w : ResponseWriter)
    → w.locked ≡ false
    → w.header_sent ≡ false
    → write status_line body n w ≡ waits (record w { locked = true })
unfolding write write_header write_after
write_waits status_line body n w free unsent =
    let goal : Call ℕ = waits (record w { locked = true }) in
    if_cases (λ (r : Call ℕ). r ≡ goal) w.locked (λ h. absurd (cc))
      (λ h.
        if_cases (λ (r : Call ℕ). r ≡ goal) w.header_sent (λ sent. absurd (cc)) (λ not_sent. refl))

-- The writer after its header.
abbrev pub with_header : (ℕ → String) → ℕ → ResponseWriter → ResponseWriter
with_header status_line code w = record w {
  status = code;
  header_sent = true;
  sent = w.sent ++ status_line code ∷ w.header ++ "\r\n" ∷ [];
  locked = false;
}

-- On an unlocked writer that has not sent its header, WriteHeader returns, having sent the status and the
-- header; another WriteHeader, of any status, changes nothing; and a Write then returns, sends
-- its body and counts its bytes.
pub header_once :
    (status_line : ℕ → String) (code other n : ℕ) (body : String) (w : ResponseWriter)
    → w.locked ≡ false
    → w.header_sent ≡ false
    → let sent = with_header status_line code w in
      (write_header status_line code w ≡ returns sent tt)
      × (write_header status_line other sent ≡ returns sent tt)
      × (write status_line body n sent
          ≡ returns (record sent { sent = sent.sent ++ body ∷ []; written = w.written + n }) n)
unfolding write_header write_header_locked write write_body
header_once status_line code other n body w free unsent =
    let goal : Call (Unit {0}) = returns (with_header status_line code w) tt in
    (
      if_cases (λ (r : Call (Unit {0})). r ≡ goal) w.locked (λ h. absurd (cc))
          (λ h.
            if_cases (λ (r : ResponseWriter). returns r tt ≡ goal) w.header_sent
              (λ sent. absurd (cc)) (λ not_sent. refl)),
      refl,
      refl,
    )
