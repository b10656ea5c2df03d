-- ===== src/Cache/Setup.antt =====
-- internal/cache/value_cache.go: how a cache is configured, and its statistics.
use zabbix_exporter.Prelude.{
  ℕ, zero, suc, ◌^◌, ◌<◌, ◌≡◌, refl, sym, subst, Option-cases, Bool-cases, inl, inr, String, Bool,
  true, false, ◌&&◌, ◌||◌, [], ◌∷◌, Option, none, some, ℤ, pos, negsuc, ltb, leb, ◌==◌,
  if◌then◌else◌, length, replicate, All, total, Map, arith,
}
use zabbix_exporter.Time.{Time}
use zabbix_exporter.Cache.State.{ValueState}
use zabbix_exporter.Cache.Shard.{empty_shard}
use zabbix_exporter.Cache.Shard.Valid.{IsValid, IsCompact, empty-IsValid}
use zabbix_exporter.Cache.Values.{ValueCache, DeleteReason}
use zabbix_exporter.Cache.Values.Accounts.{IsConsistent}

abbrev pub min_value_cache_shards : ℕ
min_value_cache_shards = 64

abbrev pub max_value_cache_shards : ℕ
max_value_cache_shards = 256

abbrev pub default_publish_slots : ℕ
default_publish_slots = 12

abbrev pub default_miss_threshold : ℕ
default_miss_threshold = 2

pub record ValueCacheConfig : Type 0 where
  pub shard_count : ℤ
  pub publish_slots : ℤ
  pub initial_capacity : ℤ
  pub miss_threshold : ℕ
  pub has_registrar : Bool

abbrev pub default_if_zero : ℕ → ℤ → ℤ
default_if_zero d (pos n) = if n == 0 then pos d else pos n
default_if_zero d (negsuc n) = negsuc n

-- `n & (n - 1) == 0` for a count in the range of the shard counts.
unfoldable pub is_shard_count : ℤ → Option ℕ
is_shard_count (negsuc n) = none
is_shard_count (pos n) = if n == 64 || n == 128 || n == 256 then some n else none

unfoldable pub is_slot_count : ℤ → Option ℕ
is_slot_count (negsuc n) = none
is_slot_count (pos n) = if leb 1 n && ltb n (2 ^ 16) then some n else none

unfoldable pub is_capacity : ℤ → Bool
is_capacity (pos n) = true
is_capacity (negsuc n) = false

-- `none` is any of the three errors.
unfoldable pub new_value_cache : ValueCacheConfig → Option ValueCache
new_value_cache config =
    elim (is_shard_count (default_if_zero max_value_cache_shards config.shard_count)) [
      | none ↦ none
      | some shards ↦
          elim (is_slot_count (default_if_zero default_publish_slots config.publish_slots)) [
            | none ↦ none
            | some slots ↦
                if is_capacity config.initial_capacity
                then some (record {
                  shards = replicate shards empty_shard;
                  publish_slots = slots;
                  miss_threshold =
                      if config.miss_threshold == 0
                      then default_miss_threshold
                      else config.miss_threshold;
                  has_registrar = config.has_registrar;
                  next_value_version = 0;
                  entries = 0;
                })
                else none
          ]
    ]

unfoldable pub new_default_value_cache : Option ValueCache
unfolding new_value_cache
new_default_value_cache = new_value_cache (record {
  shard_count = pos 0;
  publish_slots = pos 0;
  initial_capacity = pos 0;
  miss_threshold = 0;
  has_registrar = false;
})

-- Len().
unfoldable pub cache_len : ValueCache → ℕ
cache_len c = c.entries

-- DeleteReason.String().
unfoldable pub delete_reason_name : DeleteReason → String
delete_reason_name DeleteReason.metadata_removed = "metadata_removed"
delete_reason_name DeleteReason.metadata_changed = "metadata_changed"
delete_reason_name DeleteReason.expired = "expired"
delete_reason_name DeleteReason.manual = "manual"

pub record ValueCacheStats : Type 0 where
  pub entries : ℕ
  pub valid : ℕ
  pub fresh : ℕ

abbrev pub count_valid : Map ValueState → ℕ
count_valid [] = 0
count_valid ((id, state) ∷ m) = if state.valid then suc (count_valid m) else count_valid m

abbrev pub count_fresh : Time → Map ValueState → ℕ
count_fresh at [] = 0
count_fresh at ((id, state) ∷ m) =
    if state.valid && ltb at state.expire_at then suc (count_fresh at m) else count_fresh at m

-- `at` is `now`, or the clock's time if `now` is zero.
unfoldable pub stats : ValueCache → Time → ValueCacheStats
stats c at = record {
  entries = total (λ s. length s.values) c.shards;
  valid = total (λ s. count_valid s.values) c.shards;
  fresh = total (λ s. count_fresh at s.values) c.shards;
}

empty-All :
    (n : ℕ)
    → All IsValid (replicate n empty_shard)
      × All IsCompact (replicate n empty_shard)
      × (total (λ s. length s.values) (replicate n empty_shard) ≡ 0)
empty-All zero = (tt, tt, refl)
empty-All (suc n) =
    let h = empty-All n in ((empty-IsValid, h.0), (inl (omega arith), h.1), omega (arith, h.2))

length-replicate : (n : ℕ) → length (replicate n empty_shard) ≡ n
length-replicate zero = refl
length-replicate (suc n) = omega (arith, length-replicate n)

fresh-le-valid :
    (at : Time) (m : Map ValueState)
    → (count_fresh at m < suc (count_valid m)) × (count_valid m < suc (length m))
fresh-le-valid at [] = (omega arith, omega arith)
fresh-le-valid at ((id, state) ∷ m) = ground (arith, fresh-le-valid at m)

shard_count_big : (z : ℤ) (n : ℕ) → is_shard_count z ≡ some n → (0 < n) × (n < 257)
unfolding is_shard_count
shard_count_big (negsuc k) n e = cc
shard_count_big (pos k) n e = ground arith

nothing_made : (c : ValueCache) → none ≡ some c → ⊥
nothing_made c e = cc

abbrev empty_cache : ValueCacheConfig → ℕ → ℕ → ValueCache
empty_cache config n slots = record {
  shards = replicate n empty_shard;
  publish_slots = slots;
  miss_threshold =
      if config.miss_threshold == 0 then default_miss_threshold else config.miss_threshold;
  has_registrar = config.has_registrar;
  next_value_version = 0;
  entries = 0;
}

abbrev IsFresh : ValueCache → Type 0
IsFresh c = IsConsistent c × (c.entries ≡ 0) × (length c.shards < 257) × (0 < c.miss_threshold)

empty_cache-IsFresh :
    (config : ValueCacheConfig) (n slots : ℕ)
    → (0 < n) × (n < 257)
    → IsFresh (empty_cache config n slots)
empty_cache-IsFresh config n slots h =
    let all = empty-All n in
    let size = length-replicate n in
    (
      record {
        full = omega (arith, size, h.0);
        valid = all.0;
        compact = all.1;
        counted = sym all.2;
      },
      refl,
      omega (arith, size, h.1),
      ground arith,
    )

some_cache : (a b : ValueCache) → some a ≡ some b → a ≡ b
some_cache a b e = cc

-- A cache that a configuration makes is consistent and empty, has at most 256 shards, and a
-- positive miss threshold.
pub new_value_cache-IsConsistent :
    (config : ValueCacheConfig) (c : ValueCache)
    → new_value_cache config ≡ some c
    → IsConsistent c × (c.entries ≡ 0) × (length c.shards < 257) × (0 < c.miss_threshold)
unfolding new_value_cache
new_value_cache-IsConsistent config c e =
    elim (Option-cases
      (is_shard_count (default_if_zero max_value_cache_shards config.shard_count))) [
        | inl n ↦ absurd (nothing_made c (rw (n, new_value_cache) at e))
        | inr (shards, n) ↦
            elim (Option-cases
              (is_slot_count (default_if_zero default_publish_slots config.publish_slots))) [
                | inl k ↦
                    absurd
                      (nothing_made c (rw (k, new_value_cache) at (rw (n, new_value_cache) at e)))
                | inr (slots, k) ↦ elim (Bool-cases (is_capacity config.initial_capacity)) [
                  | inr f ↦ absurd (
                      nothing_made c (
                        rw (f, new_value_cache) at
                          (rw (k, new_value_cache) at (rw (n, new_value_cache) at e))))
                  | inl t ↦
                      subst IsFresh
                        (some_cache (empty_cache config shards slots) c (
                          rw (t, new_value_cache) at
                            (rw (k, new_value_cache) at (rw (n, new_value_cache) at e))))
                        (empty_cache-IsFresh config shards slots (
                          shard_count_big
                            (default_if_zero max_value_cache_shards config.shard_count) shards n))
                ]
              ]
      ]
