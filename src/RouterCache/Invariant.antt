-- ===== src/RouterCache/Invariant.antt =====
-- core/router/router_cache.go: what holds between two calls of the cache.
use muxcore.Common.{ℕ, ◌+◌, ◌<◌, String, ◌≡◌, inl, inr, none, some, arith, Option-cases}
use muxcore.Common.Dict.{
  lookup, Distinct, lookup-insert, lookup-delete, delete-Distinct, insert-Distinct,
}
use muxcore.Common.Keys.{string_key}
use muxcore.RouterCache.{
  Value, CacheEntry, RouterCache, remove_ptr, drop_entry, remove_entry, forget_old, store, touch,
  estimate_size,
}
use muxcore.RouterCache.Order.{
  count, count_entries, total_size, count-append_one, count-remove_ptr, count_entries-delete,
  total_size-delete, count_entries-insert_new, count_entries-insert_old, total_size-insert_new,
  total_size-insert_old, count_entries-lookup,
}

pub record Inv (c : RouterCache) : Type 0 where
  pub distinct : Distinct c.entries
  -- The list of access holds the addresses of the entries, and nothing else.
  pub listed : (p : ℕ) → count p c.access_order ≡ count_entries p c.entries
  pub keyed : (k : String) (e : CacheEntry) → lookup k c.entries ≡ some e → c.key_of e.ptr ≡ k
  pub fresh : (k : String) (e : CacheEntry) → lookup k c.entries ≡ some e → e.ptr < c.next_ptr
  pub memory : c.current_memory ≡ total_size c.entries

module _ (key : String) (e : CacheEntry) (c : RouterCache) (v : Inv c)
    (found : lookup key c.entries ≡ some e) where
  held : 0 < count e.ptr c.access_order
  held = omega (arith, v.listed e.ptr, count_entries-lookup key c.entries e found)

  pub drop_entry-Inv : Inv (drop_entry key e c)
  unfolding drop_entry
  drop_entry-Inv = record {
    distinct = delete-Distinct key c.entries v.distinct;
    listed = λ p. omega (
      arith,
      v.listed p,
      count-remove_ptr p e.ptr c.access_order held,
      count_entries-delete p key c.entries e v.distinct found,
    );
    keyed = λ k x h. v.keyed k x (ground (arith, lookup-delete key k c.entries));
    fresh = λ k x h. v.fresh k x (ground (arith, lookup-delete key k c.entries));
    memory = omega (arith, v.memory, total_size-delete key c.entries e v.distinct found);
  }

  pub touch-Inv : (now : ℕ) → Inv (touch key e now c)
  unfolding touch
  touch-Inv now =
      let e' = record e { access_time = now; hit_count = e.hit_count + 1 } in
      record {
        distinct = insert-Distinct key e' c.entries v.distinct;
        listed = λ p. omega (
          arith,
          v.listed p,
          count-remove_ptr p e.ptr c.access_order held,
          count-append_one p (remove_ptr e.ptr c.access_order) e.ptr,
          count_entries-insert_old p key e' c.entries e found,
        );
        keyed = λ k x h. ground (
          arith,
          lookup-insert key k e' c.entries,
          string_key.test_iff key k,
          v.keyed key e found,
          v.keyed k x,
        );
        fresh = λ k x h.
            ground (arith, lookup-insert key k e' c.entries, v.fresh key e found, v.fresh k x);
        memory = omega (arith, v.memory, total_size-insert_old key e' c.entries e found);
      }

pub remove_entry-Inv : (key : String) (c : RouterCache) → Inv c → Inv (remove_entry key c)
unfolding remove_entry
remove_entry-Inv key c v = elim (Option-cases (lookup key c.entries)) [
  | inl e ↦ rw (e, remove_entry) v
  | inr (x, e) ↦ rw (e, remove_entry) (drop_entry-Inv key x c v e)
]

-- The new entry in place of none.
store_new-Inv :
    (key : String) (value : Value) (expire now : ℕ) (c : RouterCache)
    → Inv c
    → lookup key c.entries ≡ none
    → Inv (store key value expire now c)
unfolding store
store_new-Inv key value expire now c v new =
    let e' : CacheEntry = record {
      ptr = c.next_ptr;
      value = value;
      expire_time = expire;
      access_time = now;
      hit_count = 0;
      size = estimate_size value;
    } in
    record {
      distinct = insert-Distinct key e' c.entries v.distinct;
      listed = λ p. omega (
        arith,
        v.listed p,
        count-append_one p c.access_order c.next_ptr,
        count_entries-insert_new p key e' c.entries new,
      );
      keyed = λ k x h. ground (
        arith,
        lookup-insert key k e' c.entries,
        string_key.test_iff key k,
        v.keyed k x,
        v.fresh k x,
      );
      fresh = λ k x h. ground (arith, lookup-insert key k e' c.entries, v.fresh k x);
      memory = omega (arith, v.memory, total_size-insert_new key e' c.entries new);
    }

-- The new entry in place of an old one, whose address has left the list of access.
store_old-Inv :
    (key : String) (value : Value) (expire now : ℕ) (c : RouterCache) (old : CacheEntry)
    → Inv c
    → lookup key c.entries ≡ some old
    → Inv (store key value expire now (forget_old (some old) c))
unfolding store forget_old
store_old-Inv key value expire now c old v found =
    let e' : CacheEntry = record {
      ptr = c.next_ptr;
      value = value;
      expire_time = expire;
      access_time = now;
      hit_count = 0;
      size = estimate_size value;
    } in
    record {
      distinct = insert-Distinct key e' c.entries v.distinct;
      listed = λ p. omega (
        arith,
        v.listed p,
        count-remove_ptr p old.ptr c.access_order (held key old c v found),
        count-append_one p (remove_ptr old.ptr c.access_order) c.next_ptr,
        count_entries-insert_old p key e' c.entries old found,
      );
      keyed = λ k x h. ground (
        arith,
        lookup-insert key k e' c.entries,
        string_key.test_iff key k,
        v.keyed k x,
        v.fresh k x,
      );
      fresh = λ k x h. ground (arith, lookup-insert key k e' c.entries, v.fresh k x);
      memory = omega (
        arith,
        v.memory,
        total_size-insert_old key e' c.entries old found,
        total_size-delete key c.entries old v.distinct found,
      );
    }

pub store-Inv :
    (key : String) (value : Value) (expire now : ℕ) (c : RouterCache)
    → Inv c
    → Inv (store key value expire now (forget_old (lookup key c.entries) c))
store-Inv key value expire now c v = elim (Option-cases (lookup key c.entries)) [
  | inl e ↦ rw e (unfold forget_old in store_new-Inv key value expire now c v e)
  | inr (old, e) ↦ rw e (store_old-Inv key value expire now c old v e)
]
