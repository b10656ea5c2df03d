-- ===== src/Cache/Shard.antt =====
-- internal/cache/shard.go: one shard, its map of values and the scan order over them.
-- `insert` and `delete` of the source are called with the shard's lock held.
pub mod Order
pub mod Valid
use zabbix_exporter.Prelude.{
  ℕ, suc, ◌+◌, ◌*◌, ◌%◌, String, Bool, true, false, ◌&&◌, ◌||◌, List, [], ◌∷◌, ◌++◌, Option, none,
  some, ltb, leb, ◌==◌, if◌then◌else◌, length, drop, keep, Map, lookup, put, erase,
}
use zabbix_exporter.Time.{int64_mod}
use zabbix_exporter.Cache.State.{ValueState}

pub record ScanKey : Type 0 where
  pub sequence : ℕ
  pub item_id : String

pub record ValueShard : Type 0 where
  pub values : Map ValueState
  pub order : List ScanKey
  pub next_sequence : ℕ
  pub tombstones : ℕ

abbrev pub empty_shard : ValueShard
empty_shard = record { values = []; order = []; next_sequence = 0; tombstones = 0 }

insert_old : ValueShard → ValueState → ValueState → ValueShard
insert_old s state current =
    let kept : ValueState = record state { scan_sequence = current.scan_sequence } in
    record s { values = put state.item_id kept s.values }

insert_new : ValueShard → ValueState → ValueShard
insert_new s state =
    let next : ℕ = (s.next_sequence + 1) % int64_mod in
    let numbered : ValueState = record state { scan_sequence = next } in
    let key : ScanKey = record { sequence = next; item_id = state.item_id } in
    record s {
      values = put state.item_id numbered s.values;
      order = s.order ++ key ∷ [];
      next_sequence = next;
    }

unfoldable pub insert : ValueShard → ValueState → ValueShard
unfolding insert_old insert_new
insert s state = elim (lookup state.item_id s.values) [
  | some current ↦ insert_old s state current
  | none ↦ insert_new s state
]

unfoldable pub delete : ValueShard → String → ValueShard × Bool
delete s id = elim (lookup id s.values) [
  | none ↦ (s, false)
  | some _ ↦ (record s { values = erase id s.values; tombstones = s.tombstones + 1 }, true)
]

-- The key still stands for a value: neither deleted nor inserted anew under a later sequence.
unfoldable pub is_live : Map ValueState → ScanKey → Bool
is_live values key = elim (lookup key.item_id values) [
  | none ↦ false
  | some state ↦ state.scan_sequence == key.sequence
]

unfoldable pub compact_order : ValueShard → ValueShard
unfolding is_live
compact_order s =
    if ltb s.tombstones 1024 || ltb (s.tombstones * 2) (length s.order)
    then s
    else record s { order = keep (is_live s.values) s.order; tombstones = 0 }

-- `sort.Search`: the first position whose sequence is beyond the given one.
unfoldable pub search_after : ℕ → List ScanKey → ℕ
search_after sequence [] = 0
search_after sequence (key ∷ keys) =
    if ltb sequence key.sequence then 0 else suc (search_after sequence keys)

unfoldable pub first_sequence_after : ValueShard → ℕ → ℕ
unfolding search_after
first_sequence_after s sequence = search_after sequence s.order
