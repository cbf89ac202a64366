-- ===== src/Index/Lookup.antt =====
-- The binary search of lib/src/index.rs finds what a look through the whole table finds.
use jj.Prelude.{
  subst, ℕ, zero, suc, ◌+◌, ◌-◌, ◌≤◌, ◌<◌, ◌≡◌, refl, ap, sym, ◌∙◌, ◌⊎◌, inl, inr, true, false,
  none, some, [], ◌∷◌, arith, Bool-cases, Option-cases, length, get_elem?, get_elem?_lt,
  lt-length_of_get_elem?, list_eq, nat_eq, ◌==◌, nat_beq, nat_beq_iff, eq_of_beq, ne_of_beq,
}
use jj.Prelude.Outcome.{done, ◌>>=◌}
use jj.Prelude.Order.{text_ord, Ordering-cases}
use Prim.Native.Nat.Ordering.{lt, eq, gt}
use jj.Prelude.BTree
use jj.Prelude.BTree.{BTree, IsSorted, IsBelow}
use jj.OpStore.{CommitId}
use jj.Index.Search.{u32_add, midpoint, Lookup, found_pos, search_loop, binary_search}

-- An entry that stands later has a greater id.
IsBelow-get_elem? :
    (k : CommitId) (l : Lookup) (i : ℕ) (e : CommitId × ℕ)
    → IsBelow k l
    → get_elem? l i ≡ some e
    → text_ord.cmp k e.0 ≡ lt
IsBelow-get_elem? k [] i e b h = cc
IsBelow-get_elem? k (x ∷ l) zero e b h = let same : x ≡ e = cc in rw (← same) b.0
IsBelow-get_elem? k (x ∷ l) (suc i) e b h = IsBelow-get_elem? k l i e b.1 h

cmp-get_elem? :
    (l : Lookup) (i j : ℕ) (a b : CommitId × ℕ)
    → IsSorted l
    → get_elem? l i ≡ some a
    → get_elem? l j ≡ some b
    → i < j
    → text_ord.cmp a.0 b.0 ≡ lt
cmp-get_elem? [] i j a b s p q h = cc
cmp-get_elem? (x ∷ l) i zero a b s p q h = absurd (omega arith)
cmp-get_elem? (x ∷ l) zero (suc j) a b s p q h =
    let same : x ≡ a = cc in rw (← same) (IsBelow-get_elem? x.0 l j b s.0 q)
cmp-get_elem? (x ∷ l) (suc i) (suc j) a b s p q h = cmp-get_elem? l i j a b s.1 p q (omega arith)

get-get_elem? :
    (l : Lookup) (i : ℕ) (id : CommitId) (pos : ℕ)
    → IsSorted l
    → get_elem? l i ≡ some (id, pos)
    → BTree.get l id ≡ some pos
get-get_elem? [] i id pos s h = cc
get-get_elem? ((k, v) ∷ l) zero id pos s h =
    ground (arith, BTree.get-cons k id v l s.0, text_ord.cmp_refl id)
get-get_elem? ((k, v) ∷ l) (suc i) id pos s h = ground (
  arith,
  get-get_elem? l i id pos s.1,
  BTree.get-cons k id v l s.0,
  IsBelow-get_elem? k l i (id, pos) s.0 h,
  text_ord.eq_of_cmp id k,
  text_ord.cmp_refl k,
)

get_elem?-get :
    (l : Lookup) (id : CommitId) (pos : ℕ)
    → BTree.get l id ≡ some pos
    → (i : ℕ) × (get_elem? l i ≡ some (id, pos))
unfolding BTree.get
get_elem?-get [] id pos h = cc
get_elem?-get ((k, v) ∷ l) id pos h = elim (Ordering-cases (text_ord.cmp id k)) [
  | inl e ↦ let found : none ≡ some pos = rw (e, BTree.get) at h in cc
  | inr (inl e) ↦
      let found : some v ≡ some pos = rw (e, BTree.get) at h in (0, cc (text_ord.eq_of_cmp id k e))
  | inr (inr e) ↦
      let found : BTree.get l id ≡ some pos = rw (e, BTree.get) at h in
      let (i, g) = get_elem?-get l id pos found in (suc i, g)
]

module _ (l : Lookup) (s : IsSorted l) (id : CommitId) where
  -- The entry of the id, if there is one, is in the range.
  abbrev InRange : ℕ → ℕ → Type 0
  InRange low high = (k pos : ℕ) → get_elem? l k ≡ some (id, pos) → (low ≤ k) × (k ≤ high)

  InRange-above :
      (low high mid : ℕ) (e : CommitId × ℕ)
      → get_elem? l mid ≡ some e
      → text_ord.cmp id e.0 ≡ gt
      → InRange low high
      → InRange (mid + 1) high
  InRange-above low high mid e at_mid c r k pos h = (
    ground (arith, at_mid, cmp-get_elem? l k mid (id, pos) e s h at_mid, text_ord.cmp_refl id),
    (r k pos h).1,
  )

  InRange-below :
      (low high mid : ℕ) (e : CommitId × ℕ)
      → get_elem? l mid ≡ some e
      → (text_ord.cmp id e.0 ≡ lt) ⊎ (text_ord.cmp id e.0 ≡ eq)
      → InRange low high
      → InRange low mid
  InRange-below low high mid e at_mid c r k pos h = (
    (r k pos h).0,
    ground (arith, cmp-get_elem? l mid k e (id, pos) s at_mid h, text_ord.gt_of_lt e.0 id),
  )

  -- At a range of one entry, that entry decides.
  found_pos_lem :
      (mid : ℕ) (e : CommitId × ℕ)
      → get_elem? l mid ≡ some e
      → InRange mid mid
      → found_pos id e ≡ BTree.get l id
  unfolding found_pos
  found_pos_lem mid (j, pos) at_mid r = elim (Bool-cases (j == id)) [
    | inl same ↦
        let e = eq_of_beq j id same in rw same (sym (get-get_elem? l mid id pos s (rw e at at_mid)))
    | inr other ↦ elim (Option-cases (BTree.get l id)) [
      | inl absent ↦ rw (other, absent) refl
      | inr (q, found) ↦
          let (k, at_k) = get_elem?-get l id q found in
          let (above, below) = r k q at_k in
          let at : k ≡ mid = omega arith in
          absurd (ne_of_beq j id other (same_id q (rw at at at_k)))
    ]
  ]
    where
      same_id : (q : ℕ) → get_elem? l mid ≡ some (id, q) → j ≡ id
      same_id q h = cc

  module _ (fuel low high : ℕ) (e : CommitId × ℕ)
      (at_mid : get_elem? l (midpoint low high) ≡ some e) where
    last_round :
        nat_beq high low ≡ true → search_loop (suc fuel) l id low high ≡ done (found_pos id e)
    unfolding search_loop
    last_round one = rw (at_mid, one) refl

    round_above :
        nat_beq high low ≡ false
        → text_ord.cmp id e.0 ≡ gt
        → search_loop (suc fuel) l id low high
          ≡ search_loop fuel l id (u32_add (midpoint low high) 1) high
    unfolding search_loop
    round_above more c = rw (at_mid, more, ◌>>=◌, c) refl

    round_below :
        nat_beq high low ≡ false
        → (text_ord.cmp id e.0 ≡ lt) ⊎ (text_ord.cmp id e.0 ≡ eq)
        → search_loop (suc fuel) l id low high ≡ search_loop fuel l id low (midpoint low high)
    unfolding search_loop
    round_below more (inl c) = rw (at_mid, more, ◌>>=◌, c) refl
    round_below more (inr c) = rw (at_mid, more, ◌>>=◌, c) refl

  search_loop_lem :
      (fuel low high : ℕ)
      → length l ≤ 2_147_483_648
      → low ≤ high
      → high < length l
      → high - low < fuel
      → InRange low high
      → search_loop fuel l id low high ≡ done (BTree.get l id)
  search_loop_lem zero low high z a b f r = absurd (omega arith)
  search_loop_lem (suc fuel) low high z a b f r =
      let mid = midpoint low high in
      let (e, at_mid) = get_elem?_lt l mid (omega arith) in
      elim (Bool-cases (nat_beq high low)) [
        | inl one ↦
            let same : high ≡ low = (nat_beq_iff high low).0 one in
            let m : mid ≡ low = omega arith in
            let n : mid ≡ high = omega arith in
            last_round fuel low high e at_mid one
            ∙ ap done
                (found_pos_lem mid e at_mid (λ k pos h. let (x, y) = r k pos h in (rw m x, rw n y)))
        | inr more ↦
            let apart : low < high = ground arith in
            let below : (text_ord.cmp id e.0 ≡ lt) ⊎ (text_ord.cmp id e.0 ≡ eq)
                → search_loop (suc fuel) l id low high ≡ done (BTree.get l id) =
              λ c.
                round_below fuel low high e at_mid more c
                ∙ search_loop_lem fuel low mid z (omega arith) (omega arith) (omega arith)
                    (InRange-below low high mid e at_mid c r) in
            elim (Ordering-cases (text_ord.cmp id e.0)) [
              | inl c ↦ below (inl c)
              | inr (inl c) ↦ below (inr c)
              | inr (inr c) ↦
                  round_above fuel low high e at_mid more c
                  ∙ search_loop_lem fuel (u32_add mid 1) high z (omega arith) (omega arith)
                      (omega arith)
                      (let next : mid + 1 ≡ u32_add mid 1 = omega arith in
                        subst (λ k. InRange k high) next (InRange-above low high mid e at_mid c r))
            ]
      ]

-- In a table of at most 2^31 entries that is sorted by commit id, the binary search, with bounds of 32
-- bits, ends without a panic and finds the position that a look through all entries finds, or nothing
-- if that finds nothing.
pub binary_search_lem :
    (lookup : Lookup) (commit_id : CommitId)
    → length lookup ≤ 2_147_483_648
    → IsSorted lookup
    → binary_search lookup commit_id ≡ done (BTree.get lookup commit_id)
unfolding binary_search
binary_search_lem [] id z s = unfold BTree.get in refl
binary_search_lem (e ∷ es) id z s =
    let n : length (e ∷ es) - 1 ≡ length es = omega arith in
    rw n (
      search_loop_lem (e ∷ es) s id (length (e ∷ es)) 0 (length es) z (omega arith) (omega arith)
        (omega arith)
        (λ k pos h. (omega arith, omega (arith, lt-length_of_get_elem? (e ∷ es) k (id, pos) h))))
