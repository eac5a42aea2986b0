-- ===== src/MessageBus/Partitions.antt =====
-- core/bus/enhanced_message_bus.go: the partition of a message.
use muxcore.Common.Lists.{get_elem?-lt, get_elem?-set}
use muxcore.Common.{
  ℕ, zero, suc, ◌<◌, ◌≡◌, refl, sym, ap, subst, ◌∙◌, Option, none, some, List, arith, ◌==◌,
  if◌then◌else◌, length, get_elem?, set,
}
use muxcore.Common.Keys.{string_key, number_key}
use native.Mathlib.Nat.{mod-lt}
use muxcore.Common.Int.{ℤ, pos, negsuc}
use muxcore.MessageBus.{
  Message, PriorityMessageQueue, enqueue, get_partition, hashed_key, enqueue_at, route,
  new_message_router,
}

module _ {P : Type 0} where
  -- The partition of a message by its key.
  get_partition-lt : (m : Message P) (n : ℕ) → 0 < n → get_partition m (pos n) < n
  unfolding get_partition
  get_partition-lt m zero h = absurd (omega arith)
  get_partition-lt m (suc n) h = mod-lt _ (omega arith)

  get_partition_key :
      (a b : Message P) (n : ℤ)
      → hashed_key a ≡ hashed_key b
      → get_partition a n ≡ get_partition b n
  unfolding get_partition
  get_partition_key a b (negsuc n) e = refl
  get_partition_key a b (pos zero) e = refl
  get_partition_key a b (pos (suc n)) e = rw e refl

  -- A router in which a message stands behind the others in one partition, the others being as before.
  pub record Routed (m : Message P) (r : List (PriorityMessageQueue P)) (i : ℕ) : Type 0 where
    pub after : List (PriorityMessageQueue P)
    pub queue : PriorityMessageQueue P
    pub returned : route m r ≡ some after
    pub found : get_elem? r i ≡ some queue
    pub changed :
        (j : ℕ) → get_elem? after j ≡ (if i == j then some (enqueue m queue) else get_elem? r j)

  route-Routed :
      (m : Message P) (r : List (PriorityMessageQueue P))
      → 0 < length r
      → Routed m r (get_partition m (pos (length r)))
  unfolding route enqueue_at
  route-Routed m r h =
      let i = get_partition m (pos (length r)) in
      let inside = get_partition-lt m (length r) h in
      let (q, found) = get_elem?-lt r i inside in
      record {
        after = set r i (enqueue m q);
        queue = q;
        returned = ap (λ (o : Option (PriorityMessageQueue P)). enqueue_at o i m r) found;
        found = found;
        changed = λ j. get_elem?-set r i j (enqueue m q) inside;
      }

  -- With at least one partition, Route puts a message into one of them and leaves the others as they were;
  -- two messages whose partition keys are equal, or their topics where they have none, get the same one.
  pub route_by_key :
      (a b : Message P) (r r' : List (PriorityMessageQueue P))
      → 0 < length r
      → length r ≡ length r'
      → hashed_key a ≡ hashed_key b
      → (i : ℕ) × (i < length r) × Routed a r i × Routed b r' i
  route_by_key a b r r' h same_length same_key =
      let i = get_partition a (pos (length r)) in
      let same_index : get_partition b (pos (length r')) ≡ i =
        ap (λ (n : ℕ). get_partition b (pos n)) (sym same_length)
        ∙ sym (get_partition_key a b (pos (length r)) same_key) in
      (
        i,
        get_partition-lt a (length r) h,
        route-Routed a r h,
        subst (Routed b r') same_index (route-Routed b r' (omega arith)),
      )

  -- Without partitions Route fails, for every message.
  pub route_nowhere : (m : Message P) → route m (new_message_router 0) ≡ none
  unfolding route new_message_router enqueue_at
  route_nowhere m = refl
