-- ===== src/Compaction/Spans.antt =====
-- The span of some tables holds their key bounds (src/compaction.rs).
use trine_kv.Prelude.{
  some-injective, ◌≡◌, refl, sym, ◌∙◌, subst, true, false, List, [], ◌∷◌, Option, none, some, All,
  arith, Bool-cases, inl, inr,
}
use trine_kv.Prelude.Order.{compare_bytes-IsOrder}
use trine_kv.Keys.{Bytes}
use trine_kv.RangeTombstone.{bytes_lt}
use trine_kv.Lsm.Compact.Merge.{not_lt_trans, bytes_lt_irrefl}
use trine_kv.Compaction.{CompactionTable, KeySpan, widen, span_of}

-- The key bounds of a table lie in a span.
abbrev pub Holds : KeySpan → Bytes → Bytes → Type 0
Holds span smallest largest =
    (bytes_lt smallest span.smallest ≡ false) × (bytes_lt span.largest largest ≡ false)

lt_asym : (a b : Bytes) → bytes_lt a b ≡ true → bytes_lt b a ≡ false
lt_asym a b h = ground (arith, h, compare_bytes-IsOrder.preorder.cmp_swap a b)

widen-Holds :
    (o : Option KeySpan) (t : CompactionTable)
    → Holds (widen o t) t.smallest_user_key t.largest_user_key
widen-Holds none t = (bytes_lt_irrefl t.smallest_user_key, bytes_lt_irrefl t.largest_user_key)
widen-Holds (some span) t = (
  elim (Bool-cases (bytes_lt t.smallest_user_key span.smallest)) [
    | inl y ↦ rw y (bytes_lt_irrefl t.smallest_user_key)
    | inr n ↦ rw n n
  ],
  elim (Bool-cases (bytes_lt t.largest_user_key span.largest)) [
    | inl y ↦ rw y (lt_asym t.largest_user_key span.largest y)
    | inr n ↦ rw n (bytes_lt_irrefl t.largest_user_key)
  ],
)

widen-wider :
    (span : KeySpan) (t : CompactionTable) → Holds (widen (some span) t) span.smallest span.largest
widen-wider span t = (
  elim (Bool-cases (bytes_lt t.smallest_user_key span.smallest)) [
    | inl y ↦ rw y (lt_asym t.smallest_user_key span.smallest y)
    | inr n ↦ rw n (bytes_lt_irrefl span.smallest)
  ],
  elim (Bool-cases (bytes_lt t.largest_user_key span.largest)) [
    | inl y ↦ rw y (bytes_lt_irrefl span.largest)
    | inr n ↦ rw n n
  ],
)

Holds-wider :
    (r s : KeySpan) (smallest largest : Bytes)
    → Holds s smallest largest
    → Holds r s.smallest s.largest
    → Holds r smallest largest
Holds-wider r s smallest largest (a, b) (c, d) =
    (not_lt_trans smallest s.smallest r.smallest a c, not_lt_trans r.largest s.largest largest d b)

-- A span that has been built holds its tables, and the span that it started from.
pub span_of-Holds :
    (o : Option KeySpan) (ts : List CompactionTable) (r : KeySpan)
    → span_of o ts ≡ some r
    → All (λ t. Holds r t.smallest_user_key t.largest_user_key) ts
      × ((s : KeySpan) → o ≡ some s → Holds r s.smallest s.largest)
span_of-Holds o [] r h = (
  tt,
  λ s same.
      subst (λ (u : KeySpan). Holds u s.smallest s.largest) (some-injective s r (sym same ∙ h))
        (bytes_lt_irrefl s.smallest, bytes_lt_irrefl s.largest),
)
span_of-Holds o (t ∷ ts) r h =
    let (rest, from) = span_of-Holds (some (widen o t)) ts r h in
    let wider = from (widen o t) refl in
    (
      (
        Holds-wider r (widen o t) t.smallest_user_key t.largest_user_key (widen-Holds o t) wider,
        rest,
      ),
      λ s same.
          Holds-wider r (widen o t) s.smallest s.largest
            (subst (λ u. Holds (widen u t) s.smallest s.largest) (sym same) (widen-wider s t))
            wider,
    )
