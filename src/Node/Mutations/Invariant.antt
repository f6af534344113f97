-- ===== src/Node/Mutations/Invariant.antt =====
-- The transactions on nodes, in any order and with any failures, keep the tables sound.
use Prim.Native.Nat.{ℕ}
use mathlib.Core.Path.{◌≡◌, refl, sym, subst}
use mathlib.Core.Logic.{inl, inr}
use mathlib.Core.Bool.{Bool, true, false}
use mathlib.Core.List.{List, [], ◌∷◌}
use mathlib.Core.Option.{Option}
use j_ui.Base.{if◌then◌else◌, Bool-cases}
use j_ui.Base.Text.{Text}
use j_ui.Model.{Node, Client}
use j_ui.Store.Nodes.{
  Tables, Written, written, conflict, refused, no_rows, create_node, update_node, delete_node,
  restore_node,
}
use j_ui.Store.Nodes.Restore.{IsSound}
use j_ui.Store.Nodes.Kept.{delete_node-IsSound}
use j_ui.Store.Nodes.Sound.{create_node-IsSound, update_node-IsSound}
use j_ui.Store.Nodes.Restored.{restore_node-IsSound}
use j_ui.Node.Panel.{
  Panel, Setup, Fault, Answer, done, failed, Act, continue, ◌>>=◌, statement, commit, tick,
  run_steps, compensate, record_event, unless_failed, or_else,
}
use j_ui.Node.Panel.Stability.{Stable, Stable-event, stable_rules}
use j_ui.Node.Reconcile.Stability.{reconcile-Stable}
use j_ui.Node.Mutations.{
  changed, delete, commit_update, commit_create, expire_each, expire_temporary,
}
use j_ui.Node.Mutations.Rollback.{changed-written}

-- The action leaves sound tables sound.
record Keeps {Host A : Type 0} (m : Act Host A) : Type 0 where
  after : (p : Panel Host) → IsSound p.tables → IsSound (m p).1.tables

module _ {Host A B : Type 0} where
  Keeps-continue :
      (r : Answer A) (f : A → Act Host B) (p : Panel Host)
      → ((a : A) → Keeps (f a))
      → IsSound p.tables
      → IsSound (continue r f p).1.tables
  Keeps-continue (done a) f p k s = (k a).after p s
  Keeps-continue (failed fault) f p k s = s

  Keeps-bind :
      (m : Act Host A) (f : A → Act Host B) → Keeps m → ((a : A) → Keeps (f a)) → Keeps (m >>= f)
  unfolding ◌>>=◌
  Keeps-bind m f k l = record { after = λ p s. Keeps-continue (m p).0 f (m p).1 l (k.after p s) }

module _ {Host A : Type 0} where
  Keeps-Stable : (m : Act Host A) → Stable m → Keeps m
  Keeps-Stable m s = record { after = λ p h. subst IsSound (sym (s.same p)) h }

  Keeps-commit :
      (r : Written (A × Tables)) (p : Panel Host)
      → ((a : A) (u : Tables) → r ≡ written (a, u) → IsSound u)
      → IsSound p.tables
      → IsSound (commit r p).1.tables
  Keeps-commit (written (a, u)) p k s = k a u refl
  Keeps-commit conflict p k s = s
  Keeps-commit refused p k s = s
  Keeps-commit no_rows p k s = s

  Keeps-statement :
      (down : ℕ → Bool) (change : Tables → Written (A × Tables))
      → ((t : Tables) (a : A) (u : Tables) → IsSound t → change t ≡ written (a, u) → IsSound u)
      → Keeps {Host = Host} (statement down change)
  unfolding statement
  Keeps-statement down change k = record {
    after = λ p s. elim (Bool-cases (down p.world.ticks)) [
      | inl fails ↦ rw (fails, statement) s
      | inr runs ↦
          rw (runs, statement)
            (Keeps-commit (change p.tables) (tick p) (λ a u e. k p.tables a u s e) s)
    ];
  }

  Keeps-if : (c : Bool) (m n : Act Host A) → Keeps m → Keeps n → Keeps (if c then m else n)
  Keeps-if true m n k l = k
  Keeps-if false m n k l = l

  Keeps-unless :
      (r : Answer (Unit {0})) (handle : Fault → Act Host A) (n : Act Host A) (p : Panel Host)
      → ((f : Fault) → Keeps (handle f))
      → Keeps n
      → IsSound p.tables
      → IsSound (unless_failed r n handle p).1.tables
  Keeps-unless (done u) handle n p k l s = l.after p s
  Keeps-unless (failed f) handle n p k l s = (k f).after p s

  Keeps-else :
      (m : Act Host (Unit {0})) (handle : Fault → Act Host A) (n : Act Host A)
      → Keeps m
      → ((f : Fault) → Keeps (handle f))
      → Keeps n
      → Keeps (or_else m handle n)
  unfolding or_else
  Keeps-else m handle n j k l = record {
    after = λ p s. Keeps-unless (m p).0 handle n (m p).1 k l (j.after p s);
  }

  ended :
      (down : ℕ → Bool) (b : Bool) (x y : Answer A) (q : Panel Host)
      → IsSound q.tables
      → (let r : Answer A × Panel Host =
            if b then (x, q) else (y, (record_event down "error" "rollback_incomplete" q).1) in
          IsSound r.1.tables)
  ended down true x y q s = s
  ended down false x y q s =
      subst IsSound (sym ((Stable-event down "error" "rollback_incomplete").same q)) s

  Keeps-compensate :
      (down : ℕ → Bool) (e : Fault) (undo again : Act Host (Unit {0}))
      → Keeps undo
      → Keeps again
      → Keeps {A = A} (compensate down e (undo ∷ again ∷ []))
  unfolding compensate run_steps record_event
  Keeps-compensate down e undo again k l = record {
    after = λ p s.
        let sound = l.after (undo p).1 (k.after p s) in ended down _ _ _ (again (undo p).1).1 sound;
  }

ruleset keeps = (
  Keeps-bind, Keeps-if, Keeps-else, Keeps-compensate, Keeps-Stable, stable_rules, reconcile-Stable,
)

module _ {Host : Type 0} (setup : Setup Host) where
  Keeps-changed :
      (change : Tables → Written Tables)
      → ((t u : Tables) → IsSound t → change t ≡ written u → IsSound u)
      → Keeps {Host = Host} (statement setup.down (λ t. changed (change t)))
  Keeps-changed change k =
      Keeps-statement setup.down _ λ t a u s e. k t u s (changed-written (change t) a u e)

  Keeps-delete_rows :
      (id : ℕ) → Keeps {Host = Host} (statement setup.down (λ t. changed (delete_node id t)))
  Keeps-delete_rows id = Keeps-changed (delete_node id) (delete_node-IsSound id)

  Keeps-update_rows :
      (n : Node) → Keeps {Host = Host} (statement setup.down (λ t. changed (update_node n t)))
  Keeps-update_rows n = Keeps-changed (update_node n) (update_node-IsSound n)

  Keeps-restore_rows :
      (n : Node) (clients : List Client)
      → Keeps {Host = Host} (statement setup.down (λ t. changed (restore_node n clients t)))
  Keeps-restore_rows n clients =
      Keeps-changed (restore_node n clients) (restore_node-IsSound n clients)

  Keeps-create_rows :
      (n : Node) (client : Client)
      → Keeps {Host = Host} (statement setup.down (create_node n client))
  Keeps-create_rows n client = Keeps-statement setup.down _ (create_node-IsSound n client)

  Keeps-delete : (id : ℕ) → Keeps (delete setup id)
  unfolding delete
  Keeps-delete id = search (keeps, Keeps-delete_rows, Keeps-restore_rows) depth 12

  Keeps-update : (previous candidate : Node) → Keeps (commit_update setup previous candidate)
  unfolding commit_update
  Keeps-update previous candidate = search (keeps, Keeps-update_rows) depth 12

  Keeps-create : (n : Node) (client : Client) → Keeps (commit_create setup n client)
  unfolding commit_create
  Keeps-create n client = search (keeps, Keeps-create_rows, Keeps-delete_rows) depth 12

  module _ (parse_time : Text → Option ℕ) (now : ℕ) where
    Keeps-expire_each : (nodes : List Node) → Keeps (expire_each setup parse_time now nodes)
    unfolding expire_each
    Keeps-expire_each [] = search keeps
    Keeps-expire_each (n ∷ nodes) =
        let event = Keeps-Stable _ (Stable-event setup.down "info" "temporary_node_expired") in
        Keeps-if _ _ _
          (Keeps-bind _ _ (Keeps-bind _ _ (Keeps-delete n.id) λ u. event)
            λ u. Keeps-expire_each nodes)
          (Keeps-expire_each nodes)

    Keeps-expire : Keeps (expire_temporary setup parse_time now)
    unfolding expire_temporary
    Keeps-expire = search (keeps, Keeps-expire_each) depth 9

-- What may be asked of the service, with the time at which the expiry is looked at.
pub data Request : Type 0 where
  deletion : ℕ → Request
  creation : Node → Client → Request
  change : Node → Node → Request
  expiry : ℕ → Request

module _ {Host : Type 0} (setup : Setup Host) (parse_time : Text → Option ℕ) where
  -- The panel after a request, whatever it answers.
  abbrev pub serve : Request → Panel Host → Panel Host
  serve (deletion id) p = (delete setup id p).1
  serve (creation node client) p = (commit_create setup node client p).1
  serve (change previous candidate) p = (commit_update setup previous candidate p).1
  serve (expiry now) p = (expire_temporary setup parse_time now p).1

  abbrev pub serve_all : List Request → Panel Host → Panel Host
  serve_all [] p = p
  serve_all (request ∷ requests) p = serve_all requests (serve request p)

  serve-IsSound :
      (request : Request) (p : Panel Host) → IsSound p.tables → IsSound (serve request p).tables
  serve-IsSound (deletion id) p s = (Keeps-delete setup id).after p s
  serve-IsSound (creation node client) p s = (Keeps-create setup node client).after p s
  serve-IsSound (change previous candidate) p s = (Keeps-update setup previous candidate).after p s
  serve-IsSound (expiry now) p s = (Keeps-expire setup parse_time now).after p s

  -- Whatever is deleted, created, changed and let expire, one after the other, and whatever statement
  -- or interface fails in between: sound tables stay sound.
  pub serve_all-IsSound :
      (requests : List Request) (p : Panel Host)
      → IsSound p.tables
      → IsSound (serve_all requests p).tables
  serve_all-IsSound [] p s = s
  serve_all-IsSound (request ∷ requests) p s =
      serve_all-IsSound requests (serve request p) (serve-IsSound request p s)
