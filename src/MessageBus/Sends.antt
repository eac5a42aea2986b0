-- ===== src/MessageBus/Sends.antt =====
-- core/bus/enhanced_message_bus.go: when a message is sent.
use muxcore.Common.{
  ℕ, zero, suc, ◌+◌, ◌≤◌, ◌<◌, String, ◌≡◌, refl, subst, ◌≢◌, ◌↔◌, inl, inr, Bool, true, false, not,
  ◌&&◌, Option, none, some, List, [], ◌∷◌, arith, ltb, if◌then◌else◌, Bool-cases, All, lt→ltb,
  if_cases,
}
use muxcore.Common.Dict.{Dict}
use muxcore.Common.Keys.{string_key, number_key}
use native.Mathlib.Decide.{dec_le}
use muxcore.Common.Int.{ℤ}
use muxcore.MessageBus.Bus.{EnhancedMessageBus, BusError, World, broadcast_failed}
use muxcore.MessageBus.Delivery.{
  send_rounds, rounds_of, send_with_retry, is_some, count_errors, error_of, broadcast_targets,
  send_all, broadcast,
}

-- The attempt k is one of those from a to before e that are left; it succeeds, and the context is not done
-- when it and the attempts before it wait.
pub record Accepted (w : World) (conn a e k : ℕ) : Type 0 where
  pub from : a ≤ k
  pub before : k < e
  pub taken : w.accepts conn k ≡ true
  pub undone : (j : ℕ) → a ≤ j → j ≤ k → 0 < j → w.done_before j ≡ false

module _ (w : World) (conn : ℕ) where
  abbrev waits_over : ℕ → Bool
  waits_over a = ltb 0 a && w.done_before a

  not_done : (a : ℕ) → (0 < a → w.done_before a ≡ false) → waits_over a ≡ false
  not_done zero h = refl
  not_done (suc a) h = rw (lt→ltb 0 (suc a) (omega arith), h (omega arith)) refl

  not_done_back : (a : ℕ) → waits_over a ≡ false → 0 < a → w.done_before a ≡ false
  not_done_back zero h lt = absurd (omega arith)
  not_done_back (suc a) h lt = rw (lt→ltb 0 (suc a) (omega arith)) at h

  later : (a e k : ℕ) → waits_over a ≡ false → Accepted w conn (a + 1) e k → Accepted w conn a e k
  later a e k h v = record {
    from = omega (arith, v.from);
    before = v.before;
    taken = v.taken;
    undone = λ j lo hi lt. elim (dec_le (a + 1) j) [
      | yes above ↦ v.undone j above hi lt
      | no not_above ↦
          let e' : a ≡ j = omega arith in
          subst (λ (i : ℕ). w.done_before i ≡ false) e' (not_done_back a h (omega arith))
    ];
  }

  send_rounds-Accepted :
      (left a e : ℕ)
      → a + left ≡ e
      → send_rounds w conn left a ≡ none
      → (k : ℕ) × Accepted w conn a e k
  unfolding send_rounds
  send_rounds-Accepted zero a e fits h = absurd (cc)
  send_rounds-Accepted (suc left) a e fits h = elim (Bool-cases (waits_over a)) [
    | inl over ↦ absurd (ground arith)
    | inr clear ↦ elim (Bool-cases (w.accepts conn a)) [
      | inl taken ↦ (
        a,
        record {
          from = omega arith;
          before = omega arith;
          taken = taken;
          undone = λ j lo hi lt.
              let e' : a ≡ j = omega arith in
              subst (λ (i : ℕ). w.done_before i ≡ false) e' (not_done_back a clear (omega arith));
        },
      )
      | inr refused ↦
          let (k, v) = send_rounds-Accepted left (a + 1) e (omega arith) (ground arith) in
          (k, later a e k clear v)
    ]
  ]

  Accepted-send_rounds :
      (left a e k : ℕ) → a + left ≡ e → Accepted w conn a e k → send_rounds w conn left a ≡ none
  unfolding send_rounds
  Accepted-send_rounds zero a e k fits v = absurd (omega (arith, v.from, v.before))
  Accepted-send_rounds (suc left) a e k fits v =
      let clear = not_done a (v.undone a (omega arith) v.from) in
      elim (Bool-cases (w.accepts conn a)) [
        | inl taken ↦ rw (clear, taken) refl
        | inr refused ↦
            let k_not_a : a ≢ k = λ e'. let t = v.taken in absurd (cc) in
            rw (clear, refused)
              (Accepted-send_rounds left (a + 1) e k (omega arith) (record {
                from = omega (arith, v.from, k_not_a);
                before = v.before;
                taken = v.taken;
                undone = λ j lo hi lt. v.undone j (omega arith) hi lt;
              }))
      ]

  -- sendWithRetry succeeds exactly if some attempt k, from 0 up to the number of retries, is accepted, and
  -- the context is not done in the waits before the attempts up to k.
  send_with_retry_iff :
      (retries : ℤ)
      → (send_with_retry w retries conn ≡ none)
        ↔ ((k : ℕ) × Accepted w conn 0 (rounds_of retries) k)
  unfolding send_with_retry
  send_with_retry_iff retries = (
    send_rounds-Accepted (rounds_of retries) 0 (rounds_of retries) (omega arith),
    λ (k, v). Accepted-send_rounds (rounds_of retries) 0 (rounds_of retries) k (omega arith) v,
  )

  -- Some attempt of sendWithRetry is accepted in time.
  abbrev pub Sent : ℤ → Type 0
  Sent retries = (k : ℕ) × Accepted w conn 0 (rounds_of retries) k

-- What Broadcast owes the connection of an entry.
abbrev pub Owed : World → String → ℤ → String × ℕ → Type 0
Owed w exclude retries (id, conn) = id ≢ exclude → w.is_active conn ≡ true → Sent w conn retries

error_of-none : (f : ℕ → BusError) (n : ℕ) → (error_of f n ≡ none) ↔ (n ≡ 0)
unfolding error_of
error_of-none f n = ground arith

no_error :
    (o : Option BusError) (n : ℕ) → ((if is_some o then 1 else 0) + n ≡ 0) ↔ ((o ≡ none) × (n ≡ 0))
unfolding is_some
no_error none n = (λ h. (refl, omega arith), λ (e, h). omega arith)
no_error (some e) n = (λ h. absurd (omega arith), λ (e', h). absurd (cc))

both : (a b : Bool) → (not a && b) ≡ true → (a ≡ false) × (b ≡ true)
both true b h = absurd (cc)
both false b h = (refl, h)

not_both : (a b : Bool) → (not a && b) ≡ false → a ≡ false → b ≡ false
not_both true b h e = absurd (cc)
not_both false b h e = h

broadcast_errors :
    (w : World) (exclude : String) (retries : ℤ) (m : Dict String ℕ)
    → (count_errors (send_all w retries (broadcast_targets w exclude m)) ≡ 0)
      ↔ All (Owed w exclude retries) m
unfolding count_errors send_all broadcast_targets
broadcast_errors w exclude retries [] = (λ h. tt, λ h. refl)
broadcast_errors w exclude retries ((id, conn) ∷ m) =
    let (to, from) = broadcast_errors w exclude retries m in
    let (sends, sent) = send_with_retry_iff w conn retries in
    let (split, join) =
      no_error (send_with_retry w retries conn)
        (count_errors (send_all w retries (broadcast_targets w exclude m))) in
    let excluded = string_key.test id exclude in
    let excluded_iff = string_key.test_iff id exclude in
    if_cases
      (λ (l : List ℕ).
        (count_errors (send_all w retries l) ≡ 0) ↔ All (Owed w exclude retries) ((id, conn) ∷ m))
      (not excluded && w.is_active conn)
      (λ goes.
        let (other, active) = both excluded (w.is_active conn) goes in
        (
          λ h. let (first, rest) = split h in (λ ne act. sends first, to rest),
          λ (owed, rest).
              join (sent (owed (λ e. let t = excluded_iff.1 e in absurd (cc)) active), from rest),
        ))
      (λ stays. (
        λ h. (
          λ ne act. elim (Bool-cases excluded) [
            | inl same ↦ absurd (ne (excluded_iff.0 same))
            | inr other ↦
                let inactive = not_both excluded (w.is_active conn) stays other in absurd (cc)
          ],
          to h,
        ),
        λ (owed, rest). from rest,
      ))

-- Broadcast answers without an error exactly if, for every registered connection that is active and is not
-- the excluded one, some attempt from 0 up to the number of retries is accepted, and the context is not done
-- in the waits before the attempts up to it.
pub broadcast_iff :
    {P : Type 0} (w : World) (exclude : String) (b : EnhancedMessageBus P)
    → (broadcast w exclude b ≡ none) ↔ All (Owed w exclude b.retry_attempts) b.connections
unfolding broadcast
broadcast_iff w exclude b =
    let (zero_of, of_zero) =
      error_of-none broadcast_failed
        (count_errors (send_all w b.retry_attempts (broadcast_targets w exclude b.connections))) in
    let (to, from) = broadcast_errors w exclude b.retry_attempts b.connections in
    (λ h. to (zero_of h), λ h. of_zero (from h))
