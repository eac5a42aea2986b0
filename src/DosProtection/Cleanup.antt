-- ===== src/DosProtection/Cleanup.antt =====
-- core/security/dos_protection.go: the cleanup and the verdicts after it.
use muxcore.Common.{
  ℕ, ◌+◌, ◌≤◌, String, ◌≡◌, inl, inr, Bool, true, false, Option, none, some, arith, ltb, leb,
  if◌then◌else◌, Bool-cases,
}
use muxcore.Common.Dict.{
  Dict, lookup, delete, keep_if, Distinct, lookup-keep_if, insert-Distinct, delete-Distinct,
}
use muxcore.Common.Keys.{string_key}
use muxcore.DosProtection.{
  Fingerprint, DosProtector, Verdict, Request, request_id, count_request, count_it, check_blocked,
  check_fingerprint, cleanup,
}

-- The maps have each key once, as Go's maps do.
pub record Inv (dp : DosProtector) : Type 0 where
  pub fingerprints_distinct : Distinct dp.fingerprints
  pub blocked_distinct : Distinct dp.blocked_ips

count_request-Inv :
    (r : Request) (o : Option Fingerprint) (dp : DosProtector)
    → Inv dp
    → Inv (count_request r o dp).0
unfolding count_request
count_request-Inv r none dp v = record {
  fingerprints_distinct = insert-Distinct (request_id r) _ dp.fingerprints v.fingerprints_distinct;
  blocked_distinct = v.blocked_distinct;
}
count_request-Inv r (some f) dp v = ground (
  arith,
  insert-Distinct (request_id r) (record f { count = f.count + 1 }) dp.fingerprints,
  insert-Distinct (request_id r) (record f { timestamp = r.now; count = 1 }) dp.fingerprints,
  insert-Distinct r.ip r.blocked_at dp.blocked_ips,
)

check_blocked-Inv :
    (r : Request) (b : Option ℕ) (dp : DosProtector) → Inv dp → Inv (check_blocked r b dp).0
unfolding check_blocked
check_blocked-Inv r none dp v = count_request-Inv r _ dp v
check_blocked-Inv r (some t) dp v =
    let dp' = record dp { blocked_ips = delete r.ip dp.blocked_ips } in
    elim (Bool-cases (ltb (t + dp.block_duration) r.since)) [
      | inl over ↦ rw over (
          count_request-Inv r _ dp' (record {
            fingerprints_distinct = v.fingerprints_distinct;
            blocked_distinct = delete-Distinct r.ip dp.blocked_ips v.blocked_distinct;
          }))
      | inr still ↦ rw still v
    ]

if_both {ℓ κ} :
    {A : Type ℓ} {x y : A} (P : A → Type κ) (b : Bool) → P x → P y → P (if b then x else y)
if_both P true h k = h
if_both P false h k = k

pub check_fingerprint-Inv :
    (r : Request) (dp : DosProtector) → Inv dp → Inv (check_fingerprint r dp).0
unfolding check_fingerprint
check_fingerprint-Inv r dp v =
    if_both (λ (p : DosProtector × Verdict). Inv p.0) dp.enabled
      (check_blocked-Inv r (lookup r.ip dp.blocked_ips) dp v) v

abbrev live : ℕ → DosProtector → Fingerprint → Bool
live t dp f = leb t (f.timestamp + dp.window_size)

-- The verdict of the counting section, on the cleaned map of fingerprints and on the whole one.
count_it-cleanup :
    (t : ℕ) (r : Request) (dp : DosProtector) (bs bs' : Dict String ℕ)
    → t ≤ r.now
    → Distinct dp.fingerprints
    → (count_it r
        (record dp { fingerprints = keep_if (live t dp) dp.fingerprints; blocked_ips = bs })).1
      ≡ (count_it r (record dp { blocked_ips = bs' })).1
unfolding count_request
count_it-cleanup t r dp bs bs' h d =
    ground (arith, lookup-keep_if (live t dp) (request_id r) dp.fingerprints d)

check_blocked-cleanup :
    (t : ℕ) (r : Request) (dp : DosProtector)
    → Inv dp
    → t ≤ r.since
    → t ≤ r.now
    → (check_blocked r (lookup r.ip (cleanup t dp).blocked_ips) (cleanup t dp)).1
      ≡ (check_blocked r (lookup r.ip dp.blocked_ips) dp).1
unfolding check_blocked cleanup
check_blocked-cleanup t r dp v h k =
    let kept = keep_if (λ n. leb t (n + dp.block_duration)) dp.blocked_ips in
    let d = v.fingerprints_distinct in
    ground (
      arith,
      lookup-keep_if (λ n. leb t (n + dp.block_duration)) r.ip dp.blocked_ips v.blocked_distinct,
      count_it-cleanup t r dp kept dp.blocked_ips k d,
      count_it-cleanup t r dp (delete r.ip kept) (delete r.ip dp.blocked_ips) k d,
      count_it-cleanup t r dp kept (delete r.ip dp.blocked_ips) k d,
    )

-- A cleanup that ran no later than a request's clock readings does not change its verdict.
pub check_fingerprint-cleanup :
    (t : ℕ) (r : Request) (dp : DosProtector)
    → Inv dp
    → t ≤ r.since
    → t ≤ r.now
    → (check_fingerprint r (cleanup t dp)).1 ≡ (check_fingerprint r dp).1
unfolding check_fingerprint cleanup
check_fingerprint-cleanup t r dp v h k = ground (arith, check_blocked-cleanup t r dp v h k)
