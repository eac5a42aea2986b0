-- ===== src/MessageBus/Order.antt =====
-- core/bus/enhanced_message_bus.go: the queue with priorities against one list, sorted by priority.
use muxcore.Common.{
  ℕ, zero, suc, ◌%◌, ◌^◌, ◌≤◌, ◌<◌, ◌≡◌, refl, sym, ap, subst, ◌∙◌, List, [], ◌∷◌, ◌++◌, arith, ltb,
  if◌then◌else◌, length, All, lt→ltb, le→ltb,
}
use muxcore.Common.Keys.{string_key, number_key}
use mathlib.Core.List.{append_assoc, append-nil}
use muxcore.Common.Int.{ℤ, pos, negsuc}
use muxcore.MessageBus.{Message, PriorityMessageQueue, level_of, level, queue_at, set_queue}

level_of-le : (n : ℤ) → level_of n ≤ 3
unfolding level_of
level_of-le (pos n) = ground arith
level_of-le (negsuc n) = omega arith

module _ {P : Type 0} where
  -- The messages in the order in which Dequeue gives them.
  unfoldable pub contents : PriorityMessageQueue P → List (Message P)
  contents q = q.critical ++ (q.high ++ (q.normal ++ q.low))

  pub level-le : (m : Message P) → level m ≤ 3
  unfolding level
  level-le m = level_of-le m.priority

  -- Every list holds the messages of its own priority.
  pub record Inv (q : PriorityMessageQueue P) : Type 0 where
    pub low : All (λ (m : Message P). level m ≡ 0) q.low
    pub normal : All (λ (m : Message P). level m ≡ 1) q.normal
    pub high : All (λ (m : Message P). level m ≡ 2) q.high
    pub critical : All (λ (m : Message P). level m ≡ 3) q.critical
    pub sized : q.size ≡ length (contents q) % 2 ^ 64

  -- The specification: one list, into which a message goes behind all that are not below it.
  unfoldable pub insert_by_level : Message P → List (Message P) → List (Message P)
  unfolding level
  insert_by_level m [] = m ∷ []
  insert_by_level m (x ∷ l) =
      let rest = insert_by_level m l in if ltb (level x) (level m) then m ∷ x ∷ l else x ∷ rest

  insert_by_level-behind :
      (m : Message P) (k : ℕ) (a b : List (Message P))
      → All (λ (x : Message P). level x ≡ k) a
      → level m ≤ k
      → insert_by_level m (a ++ b) ≡ a ++ insert_by_level m b
  unfolding insert_by_level
  insert_by_level-behind m k [] b h le = refl
  insert_by_level-behind m k (x ∷ a) b (e, h) le =
      rw (le→ltb (level x) (level m) (omega arith))
        (ap (◌∷◌ x) (insert_by_level-behind m k a b h le))

  -- Before a list of smaller priority it goes to the front.
  insert_by_level-front :
      (m : Message P) (k : ℕ) (a b : List (Message P))
      → All (λ (x : Message P). level x ≡ k) a
      → k < level m
      → insert_by_level m b ≡ m ∷ b
      → insert_by_level m (a ++ b) ≡ m ∷ (a ++ b)
  unfolding insert_by_level
  insert_by_level-front m k [] b h lt e = e
  insert_by_level-front m k (x ∷ a) b (e, h) lt rest =
      rw (lt→ltb (level x) (level m) (omega arith)) refl

  insert_by_level-last :
      (m : Message P) (k : ℕ) (a : List (Message P))
      → All (λ (x : Message P). level x ≡ k) a
      → level m ≤ k
      → insert_by_level m a ≡ a ++ m ∷ []
  unfolding insert_by_level
  insert_by_level-last m k [] h le = refl
  insert_by_level-last m k (x ∷ a) (e, h) le =
      rw (le→ltb (level x) (level m) (omega arith)) (ap (◌∷◌ x) (insert_by_level-last m k a h le))

  insert_by_level-nil : (m : Message P) → insert_by_level m [] ≡ m ∷ []
  unfolding insert_by_level
  insert_by_level-nil m = refl

  -- The list of one priority with a message put behind it.
  behind_own :
      (m : Message P) (k : ℕ) (a b : List (Message P))
      → All (λ (x : Message P). level x ≡ k) a
      → level m ≡ k
      → insert_by_level m b ≡ m ∷ b
      → insert_by_level m (a ++ b) ≡ (a ++ m ∷ []) ++ b
  behind_own m k a b h own front =
      insert_by_level-behind m k a b h (omega arith)
      ∙ ap (λ (l : List (Message P)). a ++ l) front
      ∙ sym (append_assoc a (m ∷ []) b)

  front_low :
      (m : Message P) (a : List (Message P))
      → All (λ (x : Message P). level x ≡ 0) a
      → 0 < level m
      → insert_by_level m a ≡ m ∷ a
  front_low m a h lt =
      subst (λ (l : List (Message P)). insert_by_level m l ≡ m ∷ l) (append-nil a)
        (insert_by_level-front m 0 a [] h lt (insert_by_level-nil m))

  module _ (m : Message P) (q : PriorityMessageQueue P) (v : Inv q) where
    pub enqueue_level :
        (k : ℕ)
        → level m ≡ k
        → k ≤ 3
        → contents (set_queue k (queue_at k q ++ m ∷ []) q) ≡ insert_by_level m (contents q)
    unfolding contents set_queue queue_at
    enqueue_level zero e le = sym (
        insert_by_level-behind m 3 q.critical _ v.critical (omega arith)
        ∙ ap (λ (l : List (Message P)). q.critical ++ l)
            (insert_by_level-behind m 2 q.high _ v.high (omega arith)
              ∙ ap (λ (l : List (Message P)). q.high ++ l)
                  (insert_by_level-behind m 1 q.normal q.low v.normal (omega arith)
                    ∙ ap (λ (l : List (Message P)). q.normal ++ l)
                        (insert_by_level-last m 0 q.low v.low (omega arith)))))
    enqueue_level (suc zero) e le = sym (
        insert_by_level-behind m 3 q.critical _ v.critical (omega arith)
        ∙ ap (λ (l : List (Message P)). q.critical ++ l)
            (insert_by_level-behind m 2 q.high _ v.high (omega arith)
              ∙ ap (λ (l : List (Message P)). q.high ++ l)
                  (behind_own m 1 q.normal q.low v.normal e
                    (front_low m q.low v.low (omega arith)))))
    enqueue_level (suc (suc zero)) e le = sym (
        insert_by_level-behind m 3 q.critical _ v.critical (omega arith)
        ∙ ap (λ (l : List (Message P)). q.critical ++ l)
            (behind_own m 2 q.high (q.normal ++ q.low) v.high e (
              insert_by_level-front m 1 q.normal q.low v.normal (omega arith)
                (front_low m q.low v.low (omega arith)))))
    enqueue_level (suc (suc (suc k))) e le = sym (
        behind_own m 3 q.critical (q.high ++ (q.normal ++ q.low)) v.critical (omega arith) (
          insert_by_level-front m 2 q.high (q.normal ++ q.low) v.high (omega arith) (
            insert_by_level-front m 1 q.normal q.low v.normal (omega arith)
              (front_low m q.low v.low (omega arith)))))
