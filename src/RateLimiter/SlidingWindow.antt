-- ===== src/RateLimiter/SlidingWindow.antt =====
-- core/protocols/websocket/batch_processor.go: the limit as a count over all the requests that were allowed.
use muxcore.Common.{
  ℕ, ◌+◌, ◌≤◌, ◌≡◌, refl, sym, ap, ◌∙◌, inl, inr, Bool, true, false, List, [], ◌∷◌, ◌++◌, arith,
  ltb, leb, if◌then◌else◌, Bool-cases, length, if_either, if_cases,
}
use muxcore.Common.Keys.{string_key, number_key}
use muxcore.RateLimiter.{RateLimiter, new_rate_limiter, drop_expired, allow, allow_all}

-- How many of these times are not before the window that ends now.
abbrev pub recent : ℕ → ℕ → List ℕ → ℕ
recent window now [] = 0
recent window now (t ∷ l) = (if ltb (t + window) now then 0 else 1) + recent window now l

-- A call is allowed if fewer than `limit` of those that were allowed before it are in the window.
abbrev pub answers : ℕ → ℕ → List ℕ → List ℕ → List Bool
answers limit window [] log = []
answers limit window (now ∷ times) log =
    ltb (recent window now log) limit
    ∷ answers limit window times
        (if ltb (recent window now log) limit then log ++ now ∷ [] else log)

-- From a to b the times do not fall.
abbrev Rising : ℕ → List ℕ → ℕ → Type 0
Rising a [] b = a ≤ b
Rising a (t ∷ l) b = (a ≤ t) × Rising t l b

-- The readings of a clock that does not go back.
abbrev pub Clock : ℕ → List ℕ → Type 0
Clock a [] = Unit
Clock a (t ∷ l) = (a ≤ t) × Clock t l

Rising-later : (a b n : ℕ) (l : List ℕ) → Rising a l b → b ≤ n → Rising a l n
Rising-later a b n [] r h = omega arith
Rising-later a b n (t ∷ l) (e, r) h = (e, Rising-later t b n l r h)

Rising-earlier : (a c b : ℕ) (l : List ℕ) → a ≤ c → Rising c l b → Rising a l b
Rising-earlier a c b [] h r = omega arith
Rising-earlier a c b (t ∷ l) h (e, r) = (omega arith, r)

Rising-append : (a b n : ℕ) (l : List ℕ) → Rising a l b → b ≤ n → Rising a (l ++ n ∷ []) n
Rising-append a b n [] r h = (omega arith, omega arith)
Rising-append a b n (t ∷ l) (e, r) h = (e, Rising-append t b n l r h)

drop_expired-Rising :
    (window now a b : ℕ) (l : List ℕ) → Rising a l b → Rising a (drop_expired window now l) b
unfolding drop_expired
drop_expired-Rising window now a b [] r = r
drop_expired-Rising window now a b (t ∷ l) (e, r) =
    if_either (λ (k : List ℕ). Rising a k b) (ltb (t + window) now)
      (Rising-earlier a t b (drop_expired window now l) e (drop_expired-Rising window now t b l r))
      (e, r)

recent-append :
    (window now : ℕ) (k l : List ℕ)
    → recent window now (k ++ l) ≡ recent window now k + recent window now l
recent-append window now [] l = omega arith
recent-append window now (t ∷ k) l = omega (arith, recent-append window now k l)

-- Nothing that is dropped is in a later window.
recent-drop_expired :
    (window now n : ℕ) (l : List ℕ)
    → now ≤ n
    → recent window n (drop_expired window now l) ≡ recent window n l
unfolding drop_expired
recent-drop_expired window now n [] h = refl
recent-drop_expired window now n (t ∷ l) h = ground (arith, recent-drop_expired window now n l h)

recent_all :
    (window now a b : ℕ) (l : List ℕ)
    → Rising a l b
    → now ≤ a + window
    → recent window now l ≡ length l
recent_all window now a b [] r h = refl
recent_all window now a b (t ∷ l) (e, r) h =
    let rest = recent_all window now t b l r (omega arith) in ground arith

length-drop_expired :
    (window now a b : ℕ) (l : List ℕ)
    → Rising a l b
    → length (drop_expired window now l) ≡ recent window now l
unfolding drop_expired
length-drop_expired window now a b [] r = refl
length-drop_expired window now a b (t ∷ l) (e, r) =
    if_cases (λ (k : List ℕ). length k ≡ recent window now (t ∷ l)) (ltb (t + window) now)
      (λ old. let rest = length-drop_expired window now t b l r in ground arith)
      (λ new. let rest = recent_all window now t b l r (ground arith) in ground arith)

-- The requests kept are rising, and count as all the allowed ones do in every window to come.
record Kept (now : ℕ) (rl : RateLimiter) (log : List ℕ) : Type 0 where
  rising : Rising 0 rl.requests now
  same : (n : ℕ) → now ≤ n → recent rl.window n rl.requests ≡ recent rl.window n log

allow-Kept :
    (before now : ℕ) (rl : RateLimiter) (log : List ℕ)
    → before ≤ now
    → Kept before rl log
    → ((allow now rl).1 ≡ ltb (recent rl.window now log) rl.limit)
      × Kept now
          (allow now rl).0
          (if ltb (recent rl.window now log) rl.limit then log ++ now ∷ [] else log)
      × ((allow now rl).0.window ≡ rl.window)
      × ((allow now rl).0.limit ≡ rl.limit)
unfolding allow
allow-Kept before now rl log h v =
    let kept = drop_expired rl.window now rl.requests in
    let size : length kept ≡ recent rl.window now log =
      length-drop_expired rl.window now 0 before rl.requests v.rising ∙ v.same now h in
    let rises = drop_expired-Rising rl.window now 0 before rl.requests v.rising in
    let counted : (n : ℕ) → now ≤ n → recent rl.window n kept ≡ recent rl.window n log =
      λ n later. recent-drop_expired rl.window now n rl.requests later ∙ v.same n (omega arith) in
    elim (Bool-cases (ltb (recent rl.window now log) rl.limit)) [
      | inl room ↦
          let off : leb rl.limit (length kept) ≡ false = ground arith in
          rw (room, off)
            (
              refl,
              record {
                rising = Rising-append 0 before now kept rises h;
                same = λ n later.
                    recent-append rl.window n kept (now ∷ [])
                    ∙ ap (λ (k : ℕ). k + recent rl.window n (now ∷ [])) (counted n later)
                    ∙ sym (recent-append rl.window n log (now ∷ []));
              },
              refl,
              refl,
            )
      | inr full ↦
          let on : leb rl.limit (length kept) ≡ true = ground arith in
          rw (full, on)
            (
              refl,
              record { rising = Rising-later 0 before now kept rises h; same = counted },
              refl,
              refl,
            )
    ]

allow_all-answers :
    (before : ℕ) (times : List ℕ) (rl : RateLimiter) (log : List ℕ)
    → Clock before times
    → Kept before rl log
    → allow_all times rl ≡ answers rl.limit rl.window times log
unfolding allow_all
allow_all-answers before [] rl log c v = refl
allow_all-answers before (now ∷ times) rl log (h, c) v =
    let (answer, next, sw, sl) = allow-Kept before now rl log h v in
    let log' = if ltb (recent rl.window now log) rl.limit then log ++ now ∷ [] else log in
    ap (λ (b : Bool). b ∷ allow_all times (allow now rl).0) answer
    ∙ ap (λ (l : List Bool). ltb (recent rl.window now log) rl.limit ∷ l)
        (allow_all-answers now times (allow now rl).0 log' c next
          ∙ ap (λ (k : ℕ). answers k (allow now rl).0.window times log') sl
          ∙ ap (λ (w : ℕ). answers rl.limit w times log') sw)

-- if the clock does not go back, a new RateLimiter answers Allow as if it kept every request that it allowed, and counted
-- those not before the window: a call is allowed if they are fewer than the limit.
pub allow_all_counts :
    (limit window : ℕ) (times : List ℕ)
    → Clock 0 times
    → allow_all times (new_rate_limiter limit window) ≡ answers limit window times []
unfolding new_rate_limiter
allow_all_counts limit window times c =
    allow_all-answers 0 times (new_rate_limiter limit window) [] c
      (record { rising = omega arith; same = λ n later. refl })
