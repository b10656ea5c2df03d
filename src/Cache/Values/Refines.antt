-- ===== src/Cache/Values/Refines.antt =====
-- The sharded operations against a flat map that handles one request after the other.
use zabbix_exporter.Prelude.{
  ℕ, ◌+◌, ◌<◌, ◌≡◌, refl, ◌∙◌, ap, String, List, [], ◌∷◌, Option, none, if◌then◌else◌, ite,
  text_dec, length, get_or, lookup, contains, arith,
}
use zabbix_exporter.Time.{Time}
use zabbix_exporter.Cache.State.{ValueState}
use zabbix_exporter.Cache.Shard.{empty_shard, compact_order}
use zabbix_exporter.Cache.Sweep.Laws.{replay, lookup-sweep, length-sweep}
use zabbix_exporter.Cache.Values.{
  ValueCache, DeleteReason, VersionedItem, PublishAck, delete_step, delete_versioned_step,
  miss_step, ack_step, dedup, keep_shard, shard_index, load, mark_miss, delete_items,
  delete_versioned, ack_published,
}
use zabbix_exporter.Cache.Values.Effects.{
  delete_effect, delete_versioned_effect, miss_effect, ack_effect, lookup-delete_step,
  lookup-delete_versioned_step, lookup-miss_step, lookup-ack_step, compact_order-values,
}

-- `groupItemIDs` visits each item once.
replay-dedup :
    (effect : String → Option ValueState → Option ValueState) (id : String) (seen ids : List String)
    (o : Option ValueState)
    → replay (λ j. j) effect id (dedup seen ids) o
      ≡ (if contains id seen then o else if contains id ids then effect id o else o)
unfolding replay dedup contains
replay-dedup effect id seen [] o = ground arith
replay-dedup effect id seen (j ∷ ids) o = ground (
  arith,
  replay-dedup effect id seen ids o,
  replay-dedup effect id (j ∷ seen) ids (ite (text_dec j id) (effect j o) o),
)

module _ (sum64 : String → ℕ) (c : ValueCache) (full : 0 < length c.shards) where
  index_lt : (id : String) → shard_index sum64 c id < length c.shards
  unfolding shard_index
  index_lt id = omega arith

  -- The cache after an operation that keeps the number of shards.
  load_at :
      (c' : ValueCache) (id : String)
      → length c'.shards ≡ length c.shards
      → load sum64 c' id ≡ lookup id (get_or c'.shards (shard_index sum64 c id) empty_shard).values
  unfolding load shard_index
  load_at c' id e = rw e

  same_index : (j id : String) → j ≡ id → shard_index sum64 c j ≡ 0 + shard_index sum64 c id
  same_index j id e = omega (arith, ap (shard_index sum64 c) e)

  -- The sharded deletion reads as deleting the items of a flat map in the order of the call.
  delete_items_replays :
      (ids : List String) (reason : DeleteReason) (id : String)
      → load sum64 (delete_items sum64 c ids reason).0 id
        ≡ replay (λ j. j) delete_effect id (dedup [] ids) (load sum64 c id)
  unfolding load delete_items
  delete_items_replays ids reason id =
      load_at (delete_items sum64 c ids reason).0 id
        (length-sweep (shard_index sum64 c) delete_step compact_order (dedup [] ids) 0 c.shards _)
      ∙ lookup-sweep (shard_index sum64 c) delete_step compact_order (λ j. j) delete_effect id
          (λ j s t. lookup-delete_step id j s t) compact_order-values (dedup [] ids) 0
          (shard_index sum64 c id) c.shards _ (index_lt id) (λ j e. same_index j id e)

  -- The sharded deletion by version leaves for an item what a flat map has that handles the requests
  -- of the call one after the other, each removing the item's value if its version is the one named.
  pub load-delete_versioned :
      (items : List VersionedItem) (reason : DeleteReason) (id : String)
      → load sum64 (delete_versioned sum64 c items reason).0 id
        ≡ replay (λ q. q.item_id) delete_versioned_effect id items (load sum64 c id)
  unfolding load delete_versioned
  load-delete_versioned items reason id =
      load_at (delete_versioned sum64 c items reason).0 id (
        length-sweep (λ q. shard_index sum64 c q.item_id) delete_versioned_step compact_order items
          0 c.shards _)
      ∙ lookup-sweep (λ q. shard_index sum64 c q.item_id) delete_versioned_step compact_order
          (λ q. q.item_id) delete_versioned_effect id
          (λ q s t. lookup-delete_versioned_step id q s t) compact_order-values items 0
          (shard_index sum64 c id) c.shards _ (index_lt id) (λ q e. same_index q.item_id id e)

  mark_miss_replays :
      (ids : List String) (at : Time) (id : String)
      → load sum64 (mark_miss sum64 c ids at).0 id
        ≡ replay (λ j. j) (miss_effect c.miss_threshold at) id (dedup [] ids) (load sum64 c id)
  unfolding load mark_miss
  mark_miss_replays ids at id =
      load_at (mark_miss sum64 c ids at).0 id (
        length-sweep (shard_index sum64 c) (miss_step c.miss_threshold at) keep_shard (dedup [] ids)
          0 c.shards _)
      ∙ lookup-sweep (shard_index sum64 c) (miss_step c.miss_threshold at) keep_shard (λ j. j)
          (miss_effect c.miss_threshold at) id
          (λ j s t. lookup-miss_step c.miss_threshold at id j s t) (λ s. refl) (dedup [] ids) 0
          (shard_index sum64 c id) c.shards _ (index_lt id) (λ j e. same_index j id e)

  -- The acknowledgement leaves for an item what a flat map has that handles the acknowledgements of
  -- the call one after the other. One of another generation, or of a version that was published where
  -- the source's timestamps are sent, changes nothing. Any other moves the published time to the later
  -- of both times, and the published version where the source's timestamps are sent.
  pub load-ack_published :
      (acks : List PublishAck) (id : String)
      → load sum64 (ack_published sum64 c acks).0 id
        ≡ replay (λ q. q.item_id) ack_effect id acks (load sum64 c id)
  unfolding load ack_published
  load-ack_published acks id =
      load_at (ack_published sum64 c acks).0 id
        (length-sweep (λ q. shard_index sum64 c q.item_id) ack_step keep_shard acks 0 c.shards _)
      ∙ lookup-sweep (λ q. shard_index sum64 c q.item_id) ack_step keep_shard (λ q. q.item_id)
          ack_effect id (λ q s t. lookup-ack_step id q s t) (λ s. refl) acks 0
          (shard_index sum64 c id) c.shards _ (index_lt id) (λ q e. same_index q.item_id id e)

  -- A deletion removes exactly the items that it names, and leaves every other item as it was.
  pub load-delete_items :
      (ids : List String) (reason : DeleteReason) (id : String)
      → load sum64 (delete_items sum64 c ids reason).0 id
        ≡ (if contains id ids then none else load sum64 c id)
  unfolding contains
  load-delete_items ids reason id =
      delete_items_replays ids reason id ∙ replay-dedup delete_effect id [] ids (load sum64 c id)

  -- Every item that the call names, however often it names it, has one more miss, up to the greatest
  -- uint32, and the time of the fetch. It stays valid as long as its misses are below the threshold or
  -- the fetch is not after its source time, its delay and a grace of a fifth of the delay, at least 30
  -- seconds. Every other item is as it was.
  pub load-mark_miss :
      (ids : List String) (at : Time) (id : String)
      → load sum64 (mark_miss sum64 c ids at).0 id ≡ (
          if contains id ids
          then miss_effect c.miss_threshold at id (load sum64 c id)
          else load sum64 c id)
  unfolding contains
  load-mark_miss ids at id =
      mark_miss_replays ids at id
      ∙ replay-dedup (miss_effect c.miss_threshold at) id [] ids (load sum64 c id)
