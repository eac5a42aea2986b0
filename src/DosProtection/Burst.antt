-- ===== src/DosProtection/Burst.antt =====
-- core/security/dos_protection.go: how many requests of one fingerprint pass in a window.
use muxcore.Common.{
  ℕ, suc, ◌+◌, ◌≤◌, ◌<◌, ◌≡◌, refl, ap, ◌∙◌, true, none, some, List, [], ◌∷◌, arith, ltb,
  if◌then◌else◌, length, replicate, All, lt→ltb, le→ltb,
}
use muxcore.Common.Dict.{lookup, insert, lookup-insert}
use muxcore.Common.Keys.{string_key, same_refl}
use muxcore.DosProtection.{
  Fingerprint, DosProtector, Verdict, allowed, rate_limited, attack, Request, request_id,
  count_request, fresh_fingerprint, check_blocked, check_fingerprint,
}

-- A sequence of calls of CheckFingerprint, with their verdicts.
unfoldable pub check_all : List Request → DosProtector → DosProtector × List Verdict
check_all [] dp = (dp, [])
check_all (r ∷ rs) dp =
    let (dp', v) = check_fingerprint r dp in let (dp'', vs) = check_all rs dp' in (dp'', v ∷ vs)

-- A request from the same address with the same fingerprint, before the deadline.
abbrev pub Repeats : Request → ℕ → Request → Type 0
Repeats first deadline r =
    (r.ip ≡ first.ip) × (request_id r ≡ request_id first) × (r.now < deadline)

-- The fingerprint of `first` is `f`, and its address is not blocked.
pub record Counting (first : Request) (f : Fingerprint) (dp : DosProtector) : Type 0 where
  pub is_enabled : dp.enabled ≡ true
  pub unblocked : lookup first.ip dp.blocked_ips ≡ none
  pub counted : lookup (request_id first) dp.fingerprints ≡ some f

abbrev bump : Request → Fingerprint → DosProtector → DosProtector
bump r f dp = record dp {
  fingerprints = insert (request_id r) (record f { count = f.count + 1 }) dp.fingerprints;
}

check-Counting :
    (first r : Request) (f : Fingerprint) (dp : DosProtector)
    → Counting first f dp
    → Repeats first (f.timestamp + dp.window_size) r
    → check_fingerprint r dp ≡ (
        if ltb dp.threshold (f.count + 1)
        then (
          record (bump r f dp) { blocked_ips = insert r.ip r.blocked_at dp.blocked_ips },
          attack,
        )
        else (bump r f dp, allowed))
unfolding check_fingerprint check_blocked count_request
check-Counting first r f dp c (ip, id, soon) =
    let open_ip : lookup r.ip dp.blocked_ips ≡ none = rw ip c.unblocked in
    let known : lookup (request_id r) dp.fingerprints ≡ some f = rw id c.counted in ground arith

bump-Counting :
    (first r : Request) (f : Fingerprint) (dp : DosProtector)
    → Counting first f dp
    → request_id r ≡ request_id first
    → Counting first (record f { count = f.count + 1 }) (bump r f dp)
bump-Counting first r f dp c id = record {
  is_enabled = c.is_enabled;
  unblocked = c.unblocked;
  counted =
      rw
        (
          lookup-insert (request_id r) (request_id first) (record f { count = f.count + 1 })
              dp.fingerprints,
          id,
          same_refl (request_id first),
        )
        refl;
}

check_passes :
    (first r : Request) (f : Fingerprint) (dp : DosProtector)
    → Counting first f dp
    → Repeats first (f.timestamp + dp.window_size) r
    → f.count + 1 ≤ dp.threshold
    → check_fingerprint r dp ≡ (bump r f dp, allowed)
check_passes first r f dp c again fits =
    check-Counting first r f dp c again ∙ (rw (le→ltb dp.threshold (f.count + 1) fits))

-- While the count stays within the threshold every repeat passes, and is counted.
Counting-run :
    (first : Request) (rs : List Request) (f : Fingerprint) (dp : DosProtector)
    → Counting first f dp
    → All (Repeats first (f.timestamp + dp.window_size)) rs
    → f.count + length rs ≤ dp.threshold
    → let (dp', vs) = check_all rs dp in
      (vs ≡ replicate (length rs) allowed)
      × Counting first (record f { count = f.count + length rs }) dp'
      × (dp'.threshold ≡ dp.threshold)
      × (dp'.window_size ≡ dp.window_size)
      × (dp'.block_duration ≡ dp.block_duration)
unfolding check_all
Counting-run first [] f dp c all fits =
    let e : f.count + 0 ≡ f.count = omega arith in (refl, rw e c, refl, refl, refl)
Counting-run first (r ∷ rs) f dp c (again, all) fits =
    let f' = record f { count = f.count + 1 } in
    let (passed, counts, same_threshold, same_window, same_block) =
      Counting-run first rs f' (bump r f dp) (bump-Counting first r f dp c again.1) all
        (omega arith) in
    let e : f.count + suc (length rs) ≡ f.count + 1 + length rs = omega arith in
    rw (check_passes first r f dp c again (omega arith), e)
      (ap (◌∷◌ allowed) passed, counts, same_threshold, same_window, same_block)

-- The first request of its fingerprint, from an address that is not blocked.
pub record Quiet (first : Request) (dp : DosProtector) : Type 0 where
  pub is_enabled : dp.enabled ≡ true
  pub unblocked : lookup first.ip dp.blocked_ips ≡ none
  pub unknown : lookup (request_id first) dp.fingerprints ≡ none

abbrev started : Request → DosProtector → DosProtector
started r dp = record dp {
  fingerprints = insert (request_id r) (fresh_fingerprint r) dp.fingerprints;
}

check_first :
    (first : Request) (dp : DosProtector)
    → Quiet first dp
    → check_fingerprint first dp ≡ (started first dp, allowed)
unfolding check_fingerprint
check_first first dp q = ground arith

started-Counting :
    (first : Request) (dp : DosProtector)
    → Quiet first dp
    → Counting first (fresh_fingerprint first) (started first dp)
started-Counting first dp q = record {
  is_enabled = q.is_enabled;
  unblocked = q.unblocked;
  counted =
      rw
        (
          lookup-insert (request_id first) (request_id first) (fresh_fingerprint first)
              dp.fingerprints,
          same_refl (request_id first),
        )
        refl;
}

-- The request over the threshold.
check_attack :
    (first r : Request) (f : Fingerprint) (dp : DosProtector)
    → Counting first f dp
    → Repeats first (f.timestamp + dp.window_size) r
    → f.count ≡ dp.threshold
    → let (dp', v) = check_fingerprint r dp in
      (v ≡ attack)
      × (dp'.enabled ≡ true)
      × (lookup first.ip dp'.blocked_ips ≡ some r.blocked_at)
      × (dp'.block_duration ≡ dp.block_duration)
check_attack first r f dp c again full =
    rw (check-Counting first r f dp c again, lt→ltb dp.threshold (f.count + 1) (omega arith))
      (
        refl,
        c.is_enabled,
        rw
            (
              again.0,
              lookup-insert first.ip first.ip r.blocked_at dp.blocked_ips,
              same_refl first.ip,
            )
            refl,
        refl,
      )

check_refused :
    (q : Request) (t : ℕ) (dp : DosProtector)
    → dp.enabled ≡ true
    → lookup q.ip dp.blocked_ips ≡ some t
    → q.since ≤ t + dp.block_duration
    → check_fingerprint q dp ≡ (dp, rate_limited)
unfolding check_fingerprint check_blocked
check_refused q t dp on b h = ground arith

-- From a state that does not know the first request, and within its window: as many requests of its
-- fingerprint as the threshold says pass, the next one is reported as an attack and blocks the
-- address, and until the block has run out every request from the address, whatever its
-- fingerprint, is refused.
pub burst_blocked :
    (dp : DosProtector) (first : Request) (rs : List Request) (last q : Request)
    → Quiet first dp
    → All (Repeats first (first.now + dp.window_size)) rs
    → Repeats first (first.now + dp.window_size) last
    → length (first ∷ rs) ≡ dp.threshold
    → q.ip ≡ first.ip
    → q.since ≤ last.blocked_at + dp.block_duration
    → let (dp1, vs) = check_all (first ∷ rs) dp in
      let (dp2, v) = check_fingerprint last dp1 in
      (vs ≡ replicate dp.threshold allowed)
      × (v ≡ attack)
      × (check_fingerprint q dp2 ≡ (dp2, rate_limited))
unfolding check_all
burst_blocked dp first rs last q quiet all again full ip soon =
    let (passed, counts, limit, window, block) =
      Counting-run first rs (fresh_fingerprint first) (started first dp)
        (started-Counting first dp quiet) all (omega arith) in
    let f = record (fresh_fingerprint first) { count = 1 + length rs } in
    let dp1 = (check_all rs (started first dp)).0 in
    let dp2 = (check_fingerprint last dp1).0 in
    let (attacked, on, blocked, length_kept) =
      check_attack first last f dp1 counts (again.0, again.1, omega arith) (omega arith) in
    let at_q : lookup q.ip dp2.blocked_ips ≡ some last.blocked_at = rw ip blocked in
    rw (check_first first dp quiet) (
      ap (◌∷◌ allowed) passed ∙ ap (λ n. replicate n allowed) full,
      attacked,
      check_refused q last.blocked_at dp2 on at_q (omega arith),
    )
