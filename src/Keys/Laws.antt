-- ===== src/Keys/Laws.antt =====
-- The order of internal keys (src/internal_key.rs).
use trine_kv.Prelude.{◌≤◌, compare, ◌≡◌, ap, ◌↔◌, arith}
use trine_kv.Prelude.Order.{
  IsOrder, IsPreorder, compare_bytes, compare_bytes-IsOrder, compare-IsOrder, lex-IsPreorder,
  on-IsPreorder, flip-IsPreorder,
}
use trine_kv.Prelude.Sort.{Leq}
use trine_kv.Keys.{
  Bytes, u32_max, u64_max, ValueKind, kind_rank, InternalKey, compare_keys,
  first_internal_key_for_user, last_internal_key_for_user,
}

newest_first : IsPreorder (λ (a b : InternalKey). compare b.sequence a.sequence)
newest_first =
    flip-IsPreorder (on-IsPreorder (λ (k : InternalKey). k.sequence) compare-IsOrder.preorder)

latest_in_batch_first : IsPreorder (λ (a b : InternalKey). compare b.batch_index a.batch_index)
latest_in_batch_first =
    flip-IsPreorder (on-IsPreorder (λ (k : InternalKey). k.batch_index) compare-IsOrder.preorder)

kind_rank-injective : (a b : ValueKind) → kind_rank a ≡ kind_rank b → a ≡ b
kind_rank-injective a b h = ground arith

-- The comparison of internal keys is a total order: reflexive, antisymmetric, transitive, and
-- keys that compare equal are identical.
pub compare_keys-IsOrder : IsOrder compare_keys
unfolding compare_keys
compare_keys-IsOrder = record {
  preorder =
      lex-IsPreorder
        (on-IsPreorder (λ (k : InternalKey). k.user_key) compare_bytes-IsOrder.preorder)
        (lex-IsPreorder newest_first (
          lex-IsPreorder latest_in_batch_first
            (on-IsPreorder (λ (k : InternalKey). kind_rank k.kind) compare-IsOrder.preorder)));
  eq_of_cmp = λ a b h. ground (
    arith,
    compare_bytes-IsOrder.eq_of_cmp a.user_key b.user_key,
    kind_rank-injective a.kind b.kind,
  );
}

-- A key whose numbers fit their machine types lies between the first and the last internal key
-- of a user key, the ends included, exactly when it is a record of that user key.
pub bracket_iff :
    (user_key : Bytes) (k : InternalKey)
    → k.sequence ≤ u64_max
    → k.batch_index ≤ u32_max
    → (Leq compare_keys (first_internal_key_for_user user_key) k
        × Leq compare_keys k (last_internal_key_for_user user_key))
      ↔ (k.user_key ≡ user_key)
unfolding compare_keys first_internal_key_for_user last_internal_key_for_user
bracket_iff user_key k hs hb = (
  λ (h1, h2). ground (
    arith,
    compare_bytes-IsOrder.cmp_swap user_key k.user_key,
    compare_bytes-IsOrder.eq_of_cmp k.user_key user_key,
  ),
  λ e. ground (
    arith,
    compare_bytes-IsOrder.cmp_refl user_key,
    ap (λ (u : Bytes). compare_bytes user_key u) e,
    ap (λ (u : Bytes). compare_bytes u user_key) e,
  ),
)
