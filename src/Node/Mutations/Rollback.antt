-- ===== src/Node/Mutations/Rollback.antt =====
-- Deletion, update and creation of a node either take place or leave the tables as they were.
use Prim.Native.Nat.{ℕ, suc}
use mathlib.Core.Path.{◌≡◌, refl, ◌∙◌, sym, ap, subst}
use mathlib.Core.Logic.{inl, inr}
use mathlib.Core.Option.{some}
use native.Mathlib.Omega.{arith}
use j_ui.Base.{Bool-cases, Option-cases}
use j_ui.Model.{Node, Client}
use j_ui.Store.Nodes.{
  Tables, Written, written, conflict, refused, no_rows, find_node, clients_of, create_node,
  update_node, delete_node, restore_node,
}
use j_ui.Store.Nodes.Restore.{IsSound, without, restore_node-delete}
use j_ui.Store.Nodes.Back.{update_node-back, delete_node-create}
use j_ui.Node.Panel.{Panel, Setup, Answer, done, failed, ◌>>=◌, query, tick}
use j_ui.Node.Mutations.{changed, delete, commit_update, commit_create}
use j_ui.Node.Mutations.Atomic.{IsAtomic, transaction, transaction-IsAtomic, transaction-done}

-- A change without an answer has done what the statement does.
pub changed-written :
    (r : Written Tables) (u : Unit {0}) (t : Tables) → changed r ≡ written (u, t) → r ≡ written t
changed-written (written t') u t e = ground (arith, e)
changed-written conflict u t e = cc e
changed-written refused u t e = cc e
changed-written no_rows u t e = cc e

plain :
    (before : Tables) (r : Written Tables) (a : Answer (Unit {0})) (t : Tables)
    → IsAtomic before (λ u t. changed r ≡ written (u, t)) a t
    → IsAtomic before (λ u t. r ≡ written t) a t
plain before r (done u) t h = changed-written r u t h
plain before r (failed f) t h = h

module _ {Host : Type 0} (setup : Setup Host) where
  delete_rows-IsAtomic :
      (id : ℕ) (previous : Node) (p : Panel Host)
      → IsSound p.tables
      → find_node id p.tables ≡ some previous
      → (let m =
            transaction setup
              (λ t. changed (delete_node id t))
              (λ u t. changed (restore_node previous (clients_of id p.tables) t)) in
          IsAtomic p.tables (λ u t. delete_node id p.tables ≡ written t) (m p).0 (m p).1.tables)
  delete_rows-IsAtomic id previous p s there =
      let back = restore_node-delete id p.tables previous s there in
      plain _ _ _ _ (
        transaction-IsAtomic setup (λ t. changed (delete_node id t))
          (λ u t. changed (restore_node previous (clients_of id p.tables) t)) p
          λ u t w.
            let same : without id p.tables ≡ t =
              ground (arith, sym back.0 ∙ changed-written (delete_node id p.tables) u t w) in
            subst
              (λ v.
                changed (restore_node previous (clients_of id p.tables) v) ≡ written (tt, p.tables))
              same (ap changed back.1))

  -- In sound tables: what `Delete` does to the tables is the deletion, or, with an error that is not
  -- joined with one of a compensation, nothing.
  pub delete-IsAtomic :
      (id : ℕ) (p : Panel Host)
      → IsSound p.tables
      → IsAtomic p.tables
          (λ u t. delete_node id p.tables ≡ written t)
          (delete setup id p).0
          (delete setup id p).1.tables
  unfolding delete ◌>>=◌ query
  delete-IsAtomic id p s = elim (Bool-cases (setup.down p.world.ticks)) [
    | inl fails ↦ rw fails refl
    | inr runs ↦ elim (Option-cases (find_node id p.tables)) [
      | inl gone ↦ rw (runs, gone) refl
      | inr (previous, there) ↦ elim (Bool-cases (setup.down (suc p.world.ticks))) [
        | inl fails ↦ rw (runs, there, fails) refl
        | inr ready ↦
            rw (runs, there, ready) (delete_rows-IsAtomic id previous (tick (tick p)) s there)
      ]
    ]
  ]

  pub delete-done :
      (id : ℕ) (p : Panel Host)
      → (delete setup id p).0 ≡ done tt
      → delete_node id p.tables ≡ written (delete setup id p).1.tables
  unfolding delete ◌>>=◌ query
  delete-done id p e = elim (Bool-cases (setup.down p.world.ticks)) [
    | inl fails ↦ absurd (ground (arith, rw fails at e))
    | inr runs ↦ elim (Option-cases (find_node id p.tables)) [
      | inl gone ↦ absurd (ground (arith, rw (runs, gone) at e))
      | inr (previous, there) ↦ elim (Bool-cases (setup.down (suc p.world.ticks))) [
        | inl fails ↦ absurd (ground (arith, rw (runs, there, fails) at e))
        | inr ready ↦
            rw (runs, there, ready)
              (changed-written _ tt _ (
                transaction-done setup (λ t. changed (delete_node id t))
                  (λ u t. changed (restore_node previous (clients_of id p.tables) t))
                  (tick (tick p)) tt (rw (runs, there, ready) at e)))
      ]
    ]
  ]

  -- In sound tables, with a candidate that has the id of the node that was read: what the write in
  -- `updateLocked` and its compensation do to the tables is the update, or, with an error that is not
  -- joined with one of a compensation, nothing.
  pub commit_update-IsAtomic :
      (previous candidate : Node) (p : Panel Host)
      → IsSound p.tables
      → find_node previous.id p.tables ≡ some previous
      → candidate.id ≡ previous.id
      → IsAtomic p.tables
          (λ u t. update_node candidate p.tables ≡ written t)
          (commit_update setup previous candidate p).0
          (commit_update setup previous candidate p).1.tables
  unfolding commit_update
  commit_update-IsAtomic previous candidate p s f e = plain _ _ _ _ (
      transaction-IsAtomic setup (λ t. changed (update_node candidate t))
        (λ u t. changed (update_node previous t)) p
        λ u t w. ap changed (
          update_node-back previous candidate p.tables t s f e
            (changed-written (update_node candidate p.tables) u t w)))

  -- In sound tables: what the write in `Create` and its compensation do to the tables is the creation
  -- of the node that is returned, or, with an error that is not joined with one of a compensation,
  -- nothing.
  pub commit_create-IsAtomic :
      (node : Node) (client : Client) (p : Panel Host)
      → IsSound p.tables
      → IsAtomic p.tables
          (λ new t. create_node node client p.tables ≡ written (new, t))
          (commit_create setup node client p).0
          (commit_create setup node client p).1.tables
  unfolding commit_create
  commit_create-IsAtomic node client p s =
      transaction-IsAtomic setup (create_node node client) (λ new t. changed (delete_node new.id t))
        p λ new t w. ap changed (delete_node-create node client p.tables new t s w)
