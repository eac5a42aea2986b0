-- ===== src/RouterCache/Order.antt =====
-- core/router/router_cache.go: addresses in the map and in the list of access, counted.
use muxcore.Common.{
  ℕ, ◌+◌, ◌<◌, String, ◌≡◌, refl, inl, inr, Bool, true, false, none, some, List, [], ◌∷◌, ◌++◌,
  arith, ◌==◌, Bool-cases,
}
use muxcore.Common.Dict.{Dict, lookup, insert, delete, Distinct, delete_absent}
use muxcore.Common.Keys.{string_key, same_refl}
use muxcore.RouterCache.{CacheEntry, remove_ptr}

abbrev pub one_if : Bool → ℕ
one_if true = 1
one_if false = 0

pub count : ℕ → List ℕ → ℕ
count p [] = 0
count p (q ∷ l) = one_if (q == p) + count p l

-- How often the address p is that of an entry.
pub count_entries : ℕ → Dict String CacheEntry → ℕ
count_entries p [] = 0
count_entries p ((k, e) ∷ m) = one_if (e.ptr == p) + count_entries p m

-- The memory of the entries.
pub total_size : Dict String CacheEntry → ℕ
total_size [] = 0
total_size ((k, e) ∷ m) = e.size + total_size m

count-append : (p : ℕ) (xs ys : List ℕ) → count p (xs ++ ys) ≡ count p xs + count p ys
unfolding count
count-append p [] ys = omega arith
count-append p (x ∷ xs) ys = omega (arith, count-append p xs ys)

pub count-append_one :
    (p : ℕ) (xs : List ℕ) (q : ℕ) → count p (xs ++ q ∷ []) ≡ count p xs + one_if (q == p)
unfolding count
count-append_one p xs q = omega (arith, count-append p xs (q ∷ []))

pub count-remove_ptr :
    (p q : ℕ) (l : List ℕ) → 0 < count q l → count p (remove_ptr q l) + one_if (q == p) ≡ count p l
unfolding count remove_ptr
count-remove_ptr p q [] h = elim h [ ]
count-remove_ptr p q (x ∷ l) h = ground (arith, count-remove_ptr p q l)

pub count_entries-delete :
    (p : ℕ) (k : String) (m : Dict String CacheEntry) (e : CacheEntry)
    → Distinct m
    → lookup k m ≡ some e
    → count_entries p (delete k m) + one_if (e.ptr == p) ≡ count_entries p m
unfolding count_entries lookup delete
count_entries-delete p k [] e d h = ground arith
count_entries-delete p k ((j, x) ∷ m) e d h =
    ground (arith, string_key.test_iff j k, delete_absent k m, count_entries-delete p k m e d.1)

pub total_size-delete :
    (k : String) (m : Dict String CacheEntry) (e : CacheEntry)
    → Distinct m
    → lookup k m ≡ some e
    → total_size (delete k m) + e.size ≡ total_size m
unfolding total_size lookup delete
total_size-delete k [] e d h = ground arith
total_size-delete k ((j, x) ∷ m) e d h =
    ground (arith, string_key.test_iff j k, delete_absent k m, total_size-delete k m e d.1)

pub count_entries-insert_new :
    (p : ℕ) (k : String) (v : CacheEntry) (m : Dict String CacheEntry)
    → lookup k m ≡ none
    → count_entries p (insert k v m) ≡ count_entries p m + one_if (v.ptr == p)
unfolding count_entries lookup insert
count_entries-insert_new p k v [] h = omega arith
count_entries-insert_new p k v ((j, x) ∷ m) h = ground (arith, count_entries-insert_new p k v m)

pub count_entries-insert_old :
    (p : ℕ) (k : String) (v : CacheEntry) (m : Dict String CacheEntry) (e : CacheEntry)
    → lookup k m ≡ some e
    → count_entries p (insert k v m) + one_if (e.ptr == p) ≡ count_entries p m + one_if (v.ptr == p)
unfolding count_entries lookup insert
count_entries-insert_old p k v [] e h = ground arith
count_entries-insert_old p k v ((j, x) ∷ m) e h = ground (arith, count_entries-insert_old p k v m e)

pub total_size-insert_new :
    (k : String) (v : CacheEntry) (m : Dict String CacheEntry)
    → lookup k m ≡ none
    → total_size (insert k v m) ≡ total_size m + v.size
unfolding total_size lookup insert
total_size-insert_new k v [] h = omega arith
total_size-insert_new k v ((j, x) ∷ m) h = ground (arith, total_size-insert_new k v m)

pub total_size-insert_old :
    (k : String) (v : CacheEntry) (m : Dict String CacheEntry) (e : CacheEntry)
    → lookup k m ≡ some e
    → total_size (insert k v m) + e.size ≡ total_size m + v.size
unfolding total_size lookup insert
total_size-insert_old k v [] e h = ground arith
total_size-insert_old k v ((j, x) ∷ m) e h = ground (arith, total_size-insert_old k v m e)

-- An address that is counted is that of the entry of some key.
pub entry_at :
    (p : ℕ) (m : Dict String CacheEntry)
    → Distinct m
    → 0 < count_entries p m
    → (k : String) × (e : CacheEntry) × (lookup k m ≡ some e) × (e.ptr ≡ p)
unfolding count_entries lookup
entry_at p [] d h = elim h [ ]
entry_at p ((j, x) ∷ m) d h = elim (Bool-cases (x.ptr == p)) [
  | inl here ↦ (j, x, rw (same_refl j), ground arith)
  | inr there ↦
      let (k, e, found, same) = entry_at p m d.1 (ground arith) in
      (k, e, ground (arith, string_key.test_iff j k), same)
]

pub count_entries-lookup :
    (k : String) (m : Dict String CacheEntry) (e : CacheEntry)
    → lookup k m ≡ some e
    → 0 < count_entries e.ptr m
unfolding count_entries lookup
count_entries-lookup k [] e h = cc
count_entries-lookup k ((j, x) ∷ m) e h = ground (arith, count_entries-lookup k m e)

pub count-head : (p : ℕ) (l : List ℕ) → 0 < count p (p ∷ l)
unfolding count
count-head p l = ground arith

pub count-nil : (p : ℕ) → count p [] ≡ 0
unfolding count
count-nil p = refl

pub count_entries-nil : (p : ℕ) → count_entries p [] ≡ 0
unfolding count_entries
count_entries-nil p = refl

pub count_entries-head :
    (k : String) (e : CacheEntry) (m : Dict String CacheEntry)
    → 0 < count_entries e.ptr ((k, e) ∷ m)
unfolding count_entries
count_entries-head k e m = ground arith

pub total_size-nil : total_size [] ≡ 0
unfolding total_size
total_size-nil = refl
