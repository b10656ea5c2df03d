-- ===== src/Cache/Pages/Selected.antt =====
-- internal/cache/value_cache.go: the pages against the whole scan that they cut into pieces.
use zabbix_exporter.Prelude.{
  ℕ, zero, suc, ◌%◌, ◌^◌, ◌<◌, ◌≤◌, ◌≡◌, refl, sym, ap, ◌∙◌, subst, ◌⊎◌, inl, inr, Bool, true,
  false, List, [], ◌∷◌, ◌++◌, none, some, ltb, ◌==◌, if◌then◌else◌, length, length-append,
  append_nil, append_assoc, drop, take, take-append-drop, All, All-drop, arith, Option-cases,
  Bool-cases, ==_iff,
}
use zabbix_exporter.Time.{Time}
use zabbix_exporter.Cache.State.{ValueState}
use zabbix_exporter.Cache.Shard.{ScanKey, ValueShard, search_after, first_sequence_after}
use zabbix_exporter.Cache.Shard.Order.{Ascending}
use zabbix_exporter.Cache.Shard.Valid.{IsValid}
use zabbix_exporter.Cache.Values.{ValueCache}
use zabbix_exporter.Cache.Pages.{
  PublishCursor, PublishValue, PublishPage, PageResult, select, scan_keys, scan_shards, read_page,
}

-- The keys after a sequence.
abbrev pub after : ℕ → List ScanKey → List ScanKey
after seq keys = drop (search_after seq keys) keys

Ascending-above :
    (low : ℕ) (pre : List ScanKey) (key : ScanKey) (post : List ScanKey)
    → Ascending low (pre ++ key ∷ post)
    → low < key.sequence
Ascending-above low [] key post a = a.0
Ascending-above low (k ∷ pre) key post a =
    omega (arith, a.0, Ascending-above k.sequence pre key post a.1)

-- In a rising order, the keys after the sequence of one of them are those behind it.
after_key :
    (low : ℕ) (pre : List ScanKey) (key : ScanKey) (post : List ScanKey)
    → Ascending low (pre ++ key ∷ post)
    → after key.sequence (pre ++ key ∷ post) ≡ post
unfolding search_after
after_key low [] key [] a = ground arith
after_key low [] key (k ∷ post) a = ground arith
after_key low (k ∷ pre) key post a =
    ground
      (arith, after_key k.sequence pre key post a.1, Ascending-above k.sequence pre key post a.1)

drop_tail :
    (n : ℕ) (ss : List ValueShard) (s : ValueShard) (rest : List ValueShard)
    → drop n ss ≡ s ∷ rest
    → (drop (suc n) ss ≡ rest) × (suc n ≤ length ss)
drop_tail n [] s rest e = absurd (nothing_left n e)
  where
    nothing_left : (n : ℕ) → drop n [] ≡ s ∷ rest → ⊥
    nothing_left zero e = cc
    nothing_left (suc n) e = cc
drop_tail zero (x ∷ ss) s rest e = (ground arith, omega arith)
drop_tail (suc n) (x ∷ ss) s rest e = let h = drop_tail n ss s rest e in (h.0, omega (arith, h.1))

small_index : (i n : ℕ) → i ≤ n → n < 2 ^ 16 → i % 2 ^ 16 ≡ i
small_index i n h b = omega arith

module _ (eligible : ValueState → Bool) (at : Time) where
  -- The values that the keys of a shard select, in their order.
  unfoldable pub picked : ValueShard → List ScanKey → List PublishValue
  picked s [] = []
  picked s (key ∷ keys) = elim (select eligible at s key) [
    | none ↦ picked s keys
    | some v ↦ v ∷ picked s keys
  ]

  -- The whole scan from a place on: what is selected in the first shard after a sequence, and in
  -- the other shards after 0.
  unfoldable pub picked_from : ℕ → List ValueShard → List PublishValue
  unfolding picked
  picked_from sequence [] = []
  picked_from sequence (s ∷ ss) = picked s (after sequence s.order) ++ picked_from 0 ss

  -- The rest of the scan behind a page's cursor.
  abbrev pub rest_of : List ValueShard → PublishCursor → List PublishValue
  rest_of shards cursor = picked_from cursor.sequence (drop cursor.shard shards)

module _ (eligible : ValueState → Bool) (at : Time) (limit : ℕ) where
  -- A full page stops behind one of the keys; another has room left.
  abbrev Scanning : ValueShard → ℕ → List ScanKey → PublishPage → PublishPage × Bool → Type 0
  Scanning s index keys p r =
      ((r.1 ≡ true)
        × (length r.0.values ≡ limit)
        × (r.0.done ≡ p.done)
        × ((pre : List ScanKey) × (key : ScanKey) × (post : List ScanKey) × (keys
              ≡ pre ++ key ∷ post)
            × (r.0.next ≡ record { shard = index; sequence = key.sequence })
            × (p.values ++ picked eligible at s keys ≡ r.0.values ++ picked eligible at s post)))
      ⊎ ((r.1 ≡ false)
          × (length r.0.values < limit)
          × (r.0.done ≡ p.done)
          × (p.values ++ picked eligible at s keys ≡ r.0.values))

  -- The first key handled: `p'` is the page behind it, and `vs` what it selects.
  Scanning-more :
      (s : ValueShard) (index : ℕ) (key : ScanKey) (keys : List ScanKey) (p p' : PublishPage)
      (vs : List PublishValue) (r : PublishPage × Bool)
      → (p.values ++ vs) ++ picked eligible at s keys ≡ p'.values ++ picked eligible at s keys
      → p'.done ≡ p.done
      → Scanning s index keys p' r
      → (picked eligible at s (key ∷ keys) ≡ vs ++ picked eligible at s keys)
      → Scanning s index (key ∷ keys) p r
  Scanning-more s index key keys p p' vs r e d (inl (t, n, f, (pre, k, post, split, next, all))) h =
      inl (
        t,
        n,
        f ∙ d,
        (
          key ∷ pre,
          k,
          post,
          ap (◌∷◌ key) split,
          next,
          ap (λ xs. p.values ++ xs) h
              ∙ sym (append_assoc p.values vs (picked eligible at s keys))
              ∙ e
              ∙ all,
        ),
      )
  Scanning-more s index key keys p p' vs r e d (inr (t, n, f, all)) h = inr (
    t,
    n,
    f ∙ d,
    ap (λ xs. p.values ++ xs) h
        ∙ sym (append_assoc p.values vs (picked eligible at s keys))
        ∙ e
        ∙ all,
  )

  scan_keys-Scanning :
      (s : ValueShard) (index : ℕ) (keys : List ScanKey) (p : PublishPage)
      → length p.values < limit
      → Scanning s index keys p (scan_keys eligible at limit s index keys p)
  unfolding scan_keys picked
  scan_keys-Scanning s index [] p lt = inr (refl, lt, refl, append_nil p.values)
  scan_keys-Scanning s index (key ∷ keys) p lt = elim (Option-cases (select eligible at s key)) [
    | inl n ↦
        let p' : PublishPage = record p {
          next = record { shard = index; sequence = key.sequence };
        } in
        Scanning-more s index key keys p p' [] _
          (ap (λ xs. xs ++ picked eligible at s keys) (append_nil p.values)) refl
          (rw (n, scan_keys) (scan_keys-Scanning s index keys p' lt)) (rw (n, picked) refl)
    | inr (v, n) ↦
        let p' : PublishPage = record {
          values = p.values ++ v ∷ [];
          next = record { shard = index; sequence = key.sequence };
          done = p.done;
        } in
        let size = length-append p.values (v ∷ []) in
        elim (Bool-cases (length p'.values == limit)) [
          | inl t ↦
              rw (n, scan_keys)
                (rw (t, scan_keys)
                  (inl (
                    refl,
                    (==_iff (length p'.values) limit).0 t,
                    refl,
                    (
                      [],
                      key,
                      keys,
                      refl,
                      refl,
                      rw (n, picked)
                          (sym (append_assoc p.values (v ∷ []) (picked eligible at s keys))),
                    ),
                  )))
          | inr f ↦
              Scanning-more s index key keys p p' (v ∷ []) _ refl refl
                (rw (n, scan_keys)
                  (rw (f, scan_keys) (scan_keys-Scanning s index keys p' (ground arith))))
                (rw (n, picked) refl)
        ]
  ]

  -- Behind the key that filled the page.
  rest_of_key :
      (all : List ValueShard) (index n : ℕ) (s : ValueShard) (ss : List ValueShard)
      (pre : List ScanKey) (key : ScanKey) (post : List ScanKey)
      → drop index all ≡ s ∷ ss
      → Ascending 0 s.order
      → drop n s.order ≡ pre ++ key ∷ post
      → rest_of eligible at all (record { shard = index; sequence = key.sequence })
        ≡ picked eligible at s post ++ picked_from eligible at 0 ss
  unfolding picked_from
  rest_of_key all index n s ss pre key post e a split =
      let whole : s.order ≡ (take n s.order ++ pre) ++ key ∷ post =
        sym (take-append-drop n s.order)
        ∙ ap (λ xs. take n s.order ++ xs) split
        ∙ sym (append_assoc (take n s.order) pre (key ∷ post)) in
      let behind : after key.sequence s.order ≡ post =
        ap (after key.sequence) whole
        ∙ after_key 0 (take n s.order ++ pre) key post (subst (Ascending 0) whole a) in
      ap (picked_from eligible at key.sequence) e
      ∙ ap (λ xs. picked eligible at s xs ++ picked_from eligible at 0 ss) behind

  -- The page read from a place in the scan, and the scan behind it, are the scan from that place.
  abbrev Paged : List ValueShard → List PublishValue → PublishPage → Type 0
  Paged all scan p =
      (scan ≡ p.values ++ rest_of eligible at all p.next)
      × (length p.values ≤ limit)
      × (if p.done then rest_of eligible at all p.next ≡ [] else length p.values ≡ limit)

  scan_shards-Paged :
      (all : List ValueShard) (index sequence : ℕ) (ss : List ValueShard) (p : PublishPage)
      → drop index all ≡ ss
      → length all < 2 ^ 16
      → All IsValid ss
      → length p.values < limit
      → p.done ≡ false
      → p.next ≡ record { shard = index; sequence = sequence }
      → Paged all
          (p.values ++ picked_from eligible at sequence ss)
          (scan_shards eligible at limit index sequence ss p)
  unfolding scan_shards picked_from first_sequence_after
  scan_shards-Paged all index sequence [] p e big valid lt open' next =
      let none_left : rest_of eligible at all p.next ≡ [] =
        ap (rest_of eligible at all) next ∙ ap (picked_from eligible at sequence) e in
      (ap (λ xs. p.values ++ xs) (sym none_left), omega arith, none_left)
  scan_shards-Paged all index sequence (s ∷ ss) p e big valid lt open' next =
      let n : ℕ = first_sequence_after s sequence in
      let keys : List ScanKey = drop n s.order in
      elim (scan_keys-Scanning s index keys p lt) [
        | inl (t, size, done, (pre, key, post, split, stop, values)) ↦
            let rest : List PublishValue = picked_from eligible at 0 ss in
            let r : PublishPage = (scan_keys eligible at limit s index keys p).0 in
            let behind : rest_of eligible at all r.next ≡ picked eligible at s post ++ rest =
              ap (rest_of eligible at all) stop
              ∙ rest_of_key all index n s ss pre key post e (valid.0).ascending split in
            let scan : p.values ++ (picked eligible at s keys ++ rest)
                ≡ r.values ++ rest_of eligible at all r.next =
              sym (append_assoc p.values (picked eligible at s keys) rest)
              ∙ ap (λ xs. xs ++ rest) values
              ∙ append_assoc r.values (picked eligible at s post) rest
              ∙ ap (λ xs. r.values ++ xs) (sym behind) in
            rw (t, scan_shards) (scan, omega arith, rw (done ∙ open') size)
        | inr (f, size, done, values) ↦
            let rest : List PublishValue = picked_from eligible at 0 ss in
            let r : PublishPage = (scan_keys eligible at limit s index keys p).0 in
            let onward : PublishPage = record r {
              next = record { shard = suc index % 2 ^ 16; sequence = 0 };
            } in
            let tail = drop_tail index all s ss e in
            let paged =
              scan_shards-Paged all (suc index) 0 ss onward tail.0 big valid.1 size (done ∙ open') (
                ap (λ i. record { shard = i; sequence = 0 })
                  (small_index (suc index) (length all) tail.1 big)) in
            let scan : p.values ++ (picked eligible at s keys ++ rest) ≡ r.values ++ rest =
              sym (append_assoc p.values (picked eligible at s keys) rest)
              ∙ ap (λ xs. xs ++ rest) values in
            rw (f, scan_shards) (scan ∙ paged.0, paged.1, paged.2)
      ]

page_inj : (a b : PublishPage) → PageResult.page a ≡ PageResult.page b → a ≡ b
page_inj a b e = cc

drop_all : (n : ℕ) (ss : List ValueShard) → n ≡ length ss → drop n ss ≡ []
drop_all zero [] e = refl
drop_all zero (s ∷ ss) e = absurd (omega arith)
drop_all (suc n) [] e = refl
drop_all (suc n) (s ∷ ss) e = drop_all n ss (omega arith)

module _ (c : ValueCache) (eligible : ValueState → Bool) (at : Time) (cursor : PublishCursor)
    (limit : ℕ) where
  -- A page read at a cursor, with a positive limit, from a cache of fewer than 2 ^ 16 shards that
  -- are all valid: the values to be read from the cursor on are those of the page and then those to
  -- be read from its next cursor on. A page has at most `limit` values. One that is not done has
  -- exactly `limit`, and behind one that is done nothing is left.
  pub read_page-picked_from :
      (p : PublishPage)
      → 0 < limit
      → length c.shards < 2 ^ 16
      → All IsValid c.shards
      → read_page eligible at c cursor limit ≡ PageResult.page p
      → (rest_of eligible at c.shards cursor ≡ p.values ++ rest_of eligible at c.shards p.next)
        × (length p.values ≤ limit)
        × (if p.done then rest_of eligible at c.shards p.next ≡ [] else length p.values ≡ limit)
  unfolding read_page picked_from
  read_page-picked_from p room big valid e =
      elim (Bool-cases (ltb (length c.shards) cursor.shard)) [
        | inl t ↦ absurd (ground arith)
        | inr f ↦ elim (Bool-cases (cursor.shard == length c.shards)) [
          | inl t ↦
              let done : PublishPage = record { values = []; next = cursor; done = true } in
              let same : done ≡ p =
                page_inj done p (rw (f, read_page) at (rw (t, read_page) at e)) in
              let last : rest_of eligible at c.shards cursor ≡ [] =
                ap (picked_from eligible at cursor.sequence)
                  (drop_all cursor.shard c.shards ((==_iff cursor.shard (length c.shards)).0 t)) in
              subst (Paged eligible at limit c.shards (rest_of eligible at c.shards cursor)) same
                (refl, omega arith, last)
          | inr g ↦
              let start : PublishPage = record { values = []; next = cursor; done = false } in
              let ss : List ValueShard = drop cursor.shard c.shards in
              let same =
                page_inj (scan_shards eligible at limit cursor.shard cursor.sequence ss start) p
                  (rw (f, read_page) at (rw (g, read_page) at e)) in
              subst (Paged eligible at limit c.shards (rest_of eligible at c.shards cursor)) same (
                scan_shards-Paged eligible at limit c.shards cursor.shard cursor.sequence ss start
                  refl big (All-drop IsValid cursor.shard c.shards valid) room refl refl)
        ]
      ]
