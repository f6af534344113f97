-- ===== src/Node/Mutations/Expiry.antt =====
-- `ExpireTemporary` deletes the nodes that are expired and no others.
use Prim.Native.Nat.{ℕ}
use mathlib.Core.Path.{◌≡◌, refl, ◌∙◌, sym, ap}
use mathlib.Core.Logic.{inl, inr}
use mathlib.Core.Bool.{Bool, true, false, not}
use mathlib.Core.List.{List, [], ◌∷◌}
use mathlib.Core.Option.{Option}
use native.Mathlib.Omega.{arith}
use j_ui.Base.{◌==◌, nat_equality, nat_same_iff, All, elem, keep, Bool-cases}
use j_ui.Base.Map.{is_some}
use j_ui.Base.Text.{Text}
use j_ui.Model.{Node}
use j_ui.Store.Nodes.{Tables, written, has_node_id, find_node, node_key, delete_node}
use j_ui.Store.Nodes.Sorted.{IsBelow, IsSorted}
use j_ui.Store.Nodes.Restore.{without}
use j_ui.Node.Panel.{Panel, Setup, done, Act, pure, ◌>>=◌, ◌>>◌, query, tick, record_event}
use j_ui.Node.Panel.Stability.{Stable-event}
use j_ui.Node.Mutations.{delete, is_expired, expire_each, expire_temporary}
use j_ui.Node.Mutations.Atomic.{Answer-cases}
use j_ui.Node.Mutations.Rollback.{delete-done}

abbrev ids : List Node → List ℕ
ids [] = []
ids (n ∷ nodes) = n.id ∷ ids nodes

-- The nodes whose ids are not in the list.
abbrev others : List ℕ → List Node → List Node
others gone nodes = keep (λ n. not (elem n.id gone)) nodes

all-kept : (nodes : List Node) → nodes ≡ others [] nodes
all-kept [] = refl
all-kept (n ∷ nodes) = ap (λ l. n ∷ l) (all-kept nodes)

others-keep :
    (id : ℕ) (gone : List ℕ) (nodes : List Node)
    → others gone (keep (λ n. not (has_node_id id n)) nodes) ≡ others (id ∷ gone) nodes
others-keep id gone [] = refl
others-keep id gone (n ∷ nodes) = elim (Bool-cases (n.id == id)) [
  | inl same ↦
      let back : (id == n.id) ≡ true =
        (nat_same_iff id n.id).1 (sym ((nat_same_iff n.id id).0 same)) in
      rw (same, back) (others-keep id gone nodes)
  | inr other ↦
      ground (arith, other, others-keep id gone nodes, nat_same_iff n.id id, nat_same_iff id n.id)
]

delete_node-others :
    (id : ℕ) (gone : List ℕ) (t u : Tables)
    → delete_node id t ≡ written u
    → others gone u.nodes ≡ others (id ∷ gone) t.nodes
unfolding delete_node
delete_node-others id gone t u e = elim (Bool-cases (not (is_some (find_node id t)))) [
  | inl missing ↦ absurd (ground (arith, rw missing at e))
  | inr there ↦
      let made : without id t ≡ u = ground (arith, rw there at e) in
      ap (λ (v : Tables). others gone v.nodes) (sym made) ∙ others-keep id gone t.nodes
]

-- An id above the others is not among them.
elem_above :
    (k : ℕ) (p : Node → Bool) (nodes : List Node)
    → All (IsBelow node_key k) nodes
    → elem k (ids (keep p nodes)) ≡ false
elem_above k p [] a = refl
elem_above k p (n ∷ nodes) a = ground (arith, elem_above k p nodes a.1, a.0, nat_same_iff n.id k)

others_above :
    (k : ℕ) (gone : List ℕ) (nodes : List Node)
    → All (IsBelow node_key k) nodes
    → others (k ∷ gone) nodes ≡ others gone nodes
others_above k gone [] a = refl
others_above k gone (n ∷ nodes) a =
    ground (arith, others_above k gone nodes a.1, a.0, nat_same_iff k n.id)

-- Without the nodes of a test, by their ids.
others-ids :
    (p : Node → Bool) (nodes : List Node)
    → IsSorted node_key nodes
    → others (ids (keep p nodes)) nodes ≡ keep (λ n. not (p n)) nodes
others-ids p [] s = refl
others-ids p (n ∷ nodes) s =
    let rest = ids (keep p nodes) in
    elim (Bool-cases (p n)) [
      | inl out ↦
          let own : (n.id == n.id) ≡ true = (nat_same_iff n.id n.id).1 refl in
          let first : ids (keep p (n ∷ nodes)) ≡ n.id ∷ rest = rw out refl in
          let dropped : others (n.id ∷ rest) (n ∷ nodes) ≡ others (n.id ∷ rest) nodes =
            rw own refl in
          let kept : keep (λ m. not (p m)) (n ∷ nodes) ≡ keep (λ m. not (p m)) nodes =
            rw out refl in
          ap (λ g. others g (n ∷ nodes)) first
          ∙ dropped
          ∙ others_above n.id rest nodes s.0
          ∙ others-ids p nodes s.1
          ∙ sym kept
      | inr stays ↦
          let first : ids (keep p (n ∷ nodes)) ≡ rest = rw stays refl in
          let above = elem_above n.id p nodes s.0 in
          let here : others rest (n ∷ nodes) ≡ n ∷ others rest nodes = rw above refl in
          let kept : keep (λ m. not (p m)) (n ∷ nodes) ≡ n ∷ keep (λ m. not (p m)) nodes =
            rw stays refl in
          ap (λ g. others g (n ∷ nodes)) first
          ∙ here
          ∙ ap (λ l. n ∷ l) (others-ids p nodes s.1)
          ∙ sym kept
    ]

module _ {Host A : Type 0} where
  -- A success of two actions, one after the other, is one of both.
  then-done :
      (m : Act Host (Unit {0})) (n : Act Host A) (p : Panel Host) (a : A)
      → ((m >> n) p).0 ≡ done a
      → ((m p).0 ≡ done tt) × ((m >> n) p ≡ n (m p).1)
  unfolding ◌>>=◌
  then-done m n p a e = elim (Answer-cases (m p).0) [
    | inl (u, ok) ↦ (ok, rw ok refl)
    | inr (f, bad) ↦ absurd (ground (arith, rw bad at e))
  ]

module _ {Host : Type 0} (setup : Setup Host) (parse_time : Text → Option ℕ) (now : ℕ) where
  expire_each-done :
      (nodes : List Node) (p : Panel Host)
      → (expire_each setup parse_time now nodes p).0 ≡ done tt
      → (expire_each setup parse_time now nodes p).1.tables.nodes
        ≡ others (ids (keep (is_expired setup parse_time now) nodes)) p.tables.nodes
  unfolding expire_each pure
  expire_each-done [] p e = all-kept p.tables.nodes
  expire_each-done (node ∷ nodes) p e = elim (Bool-cases (is_expired setup parse_time now node)) [
    | inr fresh ↦ rw (fresh, expire_each) (expire_each-done nodes p (rw (fresh, expire_each) at e))
    | inl old ↦
        let event = record_event setup.down "info" "temporary_node_expired" in
        let rest = expire_each setup parse_time now nodes in
        let outer =
          then-done (delete setup node.id >> event) rest p tt (rw (old, expire_each) at e) in
        let inner = then-done (delete setup node.id) event p tt outer.0 in
        let q = ((delete setup node.id >> event) p).1 in
        let later =
          expire_each-done nodes q (ap (λ r. r.0) (sym outer.1) ∙ rw (old, expire_each) at e) in
        let same : q.tables ≡ (delete setup node.id p).1.tables =
          ap (λ r. r.1.tables) inner.1
          ∙ (Stable-event setup.down "info" "temporary_node_expired").same _ in
        let gone = ids (keep (is_expired setup parse_time now) nodes) in
        rw (old, expire_each)
          (ap (λ r. r.1.tables.nodes) outer.1
            ∙ later
            ∙ ap (λ (t : Tables). others gone t.nodes) same
            ∙ delete_node-others node.id gone p.tables _ (delete-done setup node.id p inner.0))
  ]

  -- Over nodes in the order of their ids, a run of `ExpireTemporary` that succeeds leaves the nodes that
  -- are not expired, and them only.
  pub expire_temporary-done :
      (p : Panel Host)
      → IsSorted node_key p.tables.nodes
      → (expire_temporary setup parse_time now p).0 ≡ done tt
      → (expire_temporary setup parse_time now p).1.tables.nodes
        ≡ keep (λ n. not (is_expired setup parse_time now n)) p.tables.nodes
  unfolding expire_temporary ◌>>=◌ query
  expire_temporary-done p s e = elim (Bool-cases (setup.down p.world.ticks)) [
    | inl fails ↦ absurd (ground (arith, rw fails at e))
    | inr runs ↦ rw runs (
        expire_each-done p.tables.nodes (tick p) (rw runs at e)
        ∙ others-ids (is_expired setup parse_time now) p.tables.nodes s)
  ]
