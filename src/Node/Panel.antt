-- ===== src/Node/Panel.antt =====
-- What the transactions of internal/node/service.go act on: the tables, the firewall's world, and what
-- lies behind the interfaces. An action returns an answer or a fault.
pub mod Stability
use Prim.Native.Nat.{ℕ, zero, suc}
use Prim.Native.String.{String}
use mathlib.Core.Bool.{Bool, true, false, ◌&&◌}
use mathlib.Core.List.{List, [], ◌∷◌}
use mathlib.Core.Option.{Option, none, some}
use j_ui.Base.{◌==◌, if◌then◌else◌}
use j_ui.Base.Text.{Text, text_equality}
use j_ui.Model.{Node, Client, Outbound}
use j_ui.Store.Nodes.{Tables, Written, written, conflict, refused, no_rows}
use j_ui.Node.Sync.{World, Failure, Result, ok, err, Manager}

-- `landingConfig`; the rule base stands for its encoding.
pub record Landing : Type 0 where
  pub enabled : Bool
  pub inbound_id : ℕ
  pub uri : Text
  pub include : List Text
  pub exclude : List Text
  pub base : Text

-- What a landing URI names.
pub record Endpoint : Type 0 where
  pub server : Text
  pub port : ℕ
  pub uuid : Text
  pub server_name : Text
  pub public_key : Text
  pub short_id : Text
  pub flow : Text

-- `singbox.AIRouting`.
pub record AiRouting : Type 0 where
  pub endpoint : Endpoint
  pub inbound_ids : List ℕ
  pub include : List Text
  pub exclude : List Text
  pub base : Text

-- `singbox.NodeWithClients`.
pub record Item : Type 0 where
  pub node : Node
  pub clients : List Client

pub record TemporaryNode : Type 0 where
  pub node : Node
  pub clients : List Client
  pub outbound : Option Outbound

-- `engine.Listener`.
pub record Listener : Type 0 where
  pub network : String
  pub host : Text
  pub port : ℕ

pub record Event : Type 0 where
  pub level : String
  pub code : String

-- Events and configuration versions stand newest first.
pub record Panel (Host : Type 0) : Type 0 where
  pub tables : Tables
  pub world : World Host
  pub landing : Option Landing
  pub events : List Event
  pub versions : List (Text × Bool)

-- What the service is given. A statement fails where `down` says so of its number; `generate` is
-- `singbox.GenerateWithAIRouting`, `apply` is the engine's and `runtime` the temporary one's.
pub record Setup (Host : Type 0) : Type 0 where
  pub manager : Manager Host
  pub down : ℕ → Bool
  pub local_listen : Text → Bool
  pub parse_landing : Text → Option Endpoint
  pub generate : List Item → List Outbound → Option AiRouting → Option Text
  pub apply : Text → List Listener → Host → Bool × Host
  pub runtime : Option (List TemporaryNode → Host → Bool × Host)

pub data Fault : Type 0 where
  database conflicting missing invalid landing_uri no_inbound generation engine_apply
        runtime_apply :
      Fault
  firewall : Failure → Fault
  -- `errors.Join`.
  joined : Fault → Fault → Fault

pub data Answer (A : Type 0) : Type 0 where
  done : A → Answer A
  failed : Fault → Answer A

abbrev pub Act : Type 0 → Type 0 → Type 0
Act Host A = Panel Host → Answer A × Panel Host

module _ {Host A : Type 0} where
  unfoldable pub pure : A → Act Host A
  pure a p = (done a, p)

  unfoldable pub fail : Fault → Act Host A
  fail fault p = (failed fault, p)

module _ {Host A B : Type 0} where
  abbrev pub continue : Answer A → (A → Act Host B) → Act Host B
  continue (done a) f p = f a p
  continue (failed fault) f p = (failed fault, p)

  infixl 5 ◌>>=◌ ◌>>◌
  unfoldable pub ◌>>=◌ : Act Host A → (A → Act Host B) → Act Host B
  ◌>>=◌ m f p = continue (m p).0 f (m p).1

  abbrev pub ◌>>◌ : Act Host A → Act Host B → Act Host B
  m >> n = m >>= λ _. n

-- The newest entries.
abbrev pub newest : {A : Type 0} → ℕ → List A → List A
newest zero xs = []
newest (suc n) [] = []
newest (suc n) (x ∷ xs) = x ∷ newest n xs

abbrev pub firewall_answer : Result (Unit {0}) → Answer (Unit {0})
firewall_answer (ok u) = done tt
firewall_answer (err e) = failed (firewall e)

abbrev pub kept_version : Option (Text × Bool) → Text → Bool
kept_version none config = false
kept_version (some (latest, healthy)) config = latest == config && healthy

abbrev pub first : {A : Type 0} → List A → Option A
first [] = none
first (x ∷ xs) = some x

-- The fault of a step of the compensation joins the fault so far; beside it, whether all went well.
abbrev pub after_step : Fault × Bool → Answer (Unit {0}) → Fault × Bool
after_step so_far (done u) = so_far
after_step so_far (failed f) = (joined so_far.0 f, false)

module _ {Host : Type 0} where
  -- The panel after one statement.
  abbrev pub tick : Panel Host → Panel Host
  tick p = record p { world = record p.world { ticks = suc p.world.ticks } }

  -- A query.
  unfoldable pub query : {A : Type 0} → (ℕ → Bool) → (Panel Host → Answer A) → Act Host A
  query down read p = (if down p.world.ticks then failed database else read p, tick p)

  abbrev pub commit : {A : Type 0} → Written (A × Tables) → Act Host A
  commit (written (a, tables)) p = (done a, record p { tables = tables })
  commit conflict p = (failed conflicting, p)
  commit refused p = (failed database, p)
  commit no_rows p = (failed missing, p)

  -- A statement, or a transaction, that changes the tables.
  unfoldable pub statement :
      {A : Type 0} → (ℕ → Bool) → (Tables → Written (A × Tables)) → Act Host A
  statement down change p =
      if down p.world.ticks then (failed database, tick p) else commit (change p.tables) (tick p)

  -- `RecordEvent`, whose error the callers drop: the row, then the removal of all but 200.
  unfoldable pub record_event : (ℕ → Bool) → String → String → Act Host (Unit {0})
  record_event down level code p =
      let p₁ = tick p in
      let p₂ : Panel Host = record (tick p₁) {
        events = record { level = level; code = code } ∷ p.events;
      } in
      if down p.world.ticks
      then (done tt, p₁)
      else if down p₁.world.ticks
      then (done tt, p₂)
      else (done tt, record p₂ { events = newest 200 p₂.events })

  -- `SaveConfigVersion` with `healthy`: a version like the latest is not saved again, and ten stay.
  unfoldable pub save_config_version : (ℕ → Bool) → Text → Act Host (Unit {0})
  save_config_version down config p =
      let p₁ = tick p in
      if down p.world.ticks
      then (failed database, p₁)
      else if kept_version (first p.versions) config
      then (done tt, p₁)
      else (done tt, record p₁ { versions = newest 10 ((config, true) ∷ p.versions) })

  -- Each step runs, whatever became of the others.
  unfoldable pub run_steps :
      Fault × Bool → List (Act Host (Unit {0})) → Panel Host → (Fault × Bool) × Panel Host
  run_steps so_far [] p = (so_far, p)
  run_steps so_far (step ∷ steps) p = let r = step p in run_steps (after_step so_far r.0) steps r.1

  unfoldable pub compensate :
      {A : Type 0} → (ℕ → Bool) → Fault → List (Act Host (Unit {0})) → Act Host A
  unfolding run_steps record_event
  compensate down primary steps p =
      let r = run_steps (primary, true) steps p in
      if r.0.1
      then (failed r.0.0, r.1)
      else (failed r.0.0, (record_event down "error" "rollback_incomplete" r.1).1)

  abbrev pub unless_failed :
      {A : Type 0} → Answer (Unit {0}) → Act Host A → (Fault → Act Host A) → Act Host A
  unless_failed (done u) then_do handle = then_do
  unless_failed (failed f) then_do handle = handle f

  -- `if err := m(); err != nil { return handle(err) }`.
  unfoldable pub or_else :
      {A : Type 0} → Act Host (Unit {0}) → (Fault → Act Host A) → Act Host A → Act Host A
  or_else m handle then_do p = unless_failed (m p).0 then_do handle (m p).1
