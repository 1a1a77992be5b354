-- ===== src/Lsm/Compact/Spread.antt =====
-- The tombstones that the output tables get cover what the tombstones cover (src/lsm/compact.rs).
use trine_kv.Prelude.{
  ℕ, ◌≡◌, refl, sym, ap, ◌∙◌, Bool, true, false, ◌&&◌, List, [], ◌∷◌, ◌++◌, Option, none, some, any,
  arith, Bool-cases, Option-cases, inl, inr,
}
use trine_kv.Keys.{Bytes, Sequence, KeyRange}
use trine_kv.RangeTombstone.{key_is_in_range, range_intersection}
use trine_kv.RangeTombstone.Bounds.{in_intersection, range_intersection_lem, ranges_overlap_sound}
use trine_kv.Lsm.{Tombstone, MemtableEntry, covers_visible_point}
use trine_kv.Lsm.Cover.{covers}
use trine_kv.Lsm.Compact.Payloads.{
  CompactionChunk, CompactionTablePayload, with_range, tombstone_for_output_span, assign,
}

abbrev pub payload_tombstones : List CompactionTablePayload → List Tombstone
payload_tombstones [] = []
payload_tombstones (p ∷ ps) = p.range_tombstones ++ payload_tombstones ps

abbrev pub payload_records : List CompactionTablePayload → List MemtableEntry
payload_records [] = []
payload_records (p ∷ ps) = p.point_records ++ payload_records ps

abbrev pub chunk_list_records : List CompactionChunk → List MemtableEntry
chunk_list_records [] = []
chunk_list_records (c ∷ cs) = c.point_records ++ chunk_list_records cs

module _ (key : Bytes) (point_sequence : Sequence) (point_batch_index : ℕ) (read : Sequence) where
  abbrev pub cov : Tombstone → Bool
  cov = covers key point_sequence point_batch_index read

  -- Another range that holds the key as well keeps the cover.
  same_cover :
      (t : Tombstone) (r : KeyRange)
      → key_is_in_range key r ≡ key_is_in_range key t.range
      → cov (record t { range = r }) ≡ cov t
  unfolding covers_visible_point
  same_cover t r h = ground (arith, h)

  cover-in_range : (t : Tombstone) → cov t ≡ true → key_is_in_range key t.range ≡ true
  unfolding covers_visible_point
  cover-in_range t h = ground (arith, h)

  in_both :
      (t : Tombstone) (span r : KeyRange)
      → range_intersection t.range span ≡ some r
      → key_is_in_range key r ≡ (key_is_in_range key t.range && key_is_in_range key span)
  in_both t span r e = sym (ap (in_intersection key) e) ∙ range_intersection_lem key t.range span

  intersected :
      (span : KeyRange) (t out : Tombstone) (o : Option KeyRange)
      → range_intersection t.range span ≡ o
      → with_range t o ≡ some out
      → cov out ≡ true
      → cov t ≡ true
  intersected span t out none e h k = cc
  intersected span t out (some r) e h k =
      let made : Tombstone = record t { range = r } in
      let same : made ≡ out = ground (arith, h) in
      let here : cov made ≡ true = ap cov same ∙ k in
      let inside : key_is_in_range key r ≡ true = cover-in_range made here in
      let both = in_both t span r e in
      let agree : key_is_in_range key r ≡ key_is_in_range key t.range =
        ground (arith, inside, both) in
      sym (same_cover t r agree) ∙ here

  -- What a span gets of a tombstone covers no more than the tombstone.
  pub span_sound :
      (full : Bool) (span : KeyRange) (t out : Tombstone)
      → tombstone_for_output_span full span t ≡ some out
      → cov out ≡ true
      → cov t ≡ true
  unfolding tombstone_for_output_span
  span_sound false span t out h k = let same : t ≡ out = ground (arith, h) in ap cov same ∙ k
  span_sound true span t out h k = intersected span t out (range_intersection t.range span) refl h k

  met :
      (span : KeyRange) (t : Tombstone) (o : Option KeyRange)
      → range_intersection t.range span ≡ o
      → key_is_in_range key span ≡ true
      → cov t ≡ true
      → (out : Tombstone) × (with_range t o ≡ some out) × (cov out ≡ true)
  met span t none e h k =
      let inside = cover-in_range t k in
      let gone : (key_is_in_range key t.range && key_is_in_range key span) ≡ false =
        sym (range_intersection_lem key t.range span) ∙ ap (in_intersection key) e in
      ground (arith, inside, h, gone)
  met span t (some r) e h k =
      let inside = cover-in_range t k in
      let both = in_both t span r e in
      let agree : key_is_in_range key r ≡ key_is_in_range key t.range =
        ground (arith, inside, both, h) in
      (record t { range = r }, refl, same_cover t r agree ∙ k)

  -- A span that holds the key gets the cover of the key.
  pub span_complete :
      (full : Bool) (span : KeyRange) (t : Tombstone)
      → key_is_in_range key span ≡ true
      → cov t ≡ true
      → (out : Tombstone) × (tombstone_for_output_span full span t ≡ some out) × (cov out ≡ true)
  unfolding tombstone_for_output_span
  span_complete false span t h k =
      let overlap = ranges_overlap_sound key t.range span (ground (arith, cover-in_range t k, h)) in
      (t, ground (arith, overlap.0), k)
  span_complete true span t h k = met span t (range_intersection t.range span) refl h k

  pub assign_sound :
      (full : Bool) (span : KeyRange) (ts : List Tombstone) (ms : List Bool)
      → any cov (assign full span ts ms).0 ≡ true
      → any cov ts ≡ true
  assign_sound full span [] ms h = h
  assign_sound full span (t ∷ ts) [] h = cc
  assign_sound full span (t ∷ ts) (m ∷ ms) h =
      elim (Option-cases (tombstone_for_output_span full span t)) [
        | inl e ↦ ground (arith, assign_sound full span ts ms (ground (arith, e, h)))
        | inr (out, e) ↦ elim (Bool-cases (cov out)) [
          | inl here ↦ ground (arith, span_sound full span t out e here)
          | inr gone ↦ ground (arith, assign_sound full span ts ms (ground (arith, e, gone, h)))
        ]
      ]
