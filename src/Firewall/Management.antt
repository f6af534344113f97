-- ===== src/Firewall/Management.antt =====
-- The rule for the port of the panel, and the file that records whether J-UI owns it.
use Prim.Native.Nat.{ℕ}
use Prim.Native.String.{String}
use mathlib.Core.Path.{◌≡◌, refl, ◌∙◌, sym, ap}
use mathlib.Core.Logic.{inl, inr}
use mathlib.Core.Bool.{Bool, true, false, ◌&&◌, ◌||◌}
use mathlib.Core.Option.{Option, none, some}
use native.Mathlib.Omega.{arith}
use j_ui.Base.{◌==◌, leb, if◌then◌else◌, nat_equality, string_equality, Bool-cases, Option-cases}
use j_ui.Base.Text.{Text}
use j_ui.Firewall.Manager.{Opening, Manager}
use j_ui.Firewall.{owned, borrowed}

pub record ManagementState : Type 0 where
  pub protocol : String
  pub port : ℕ
  pub ownership : String
  pub backend : String

-- What `os.ReadFile` finds.
pub data Content : Type 0 where
  absent unreadable : Content
  content : Text → Content

-- The file, over the state of the host; `false` is an error. `decode` is `json.Unmarshal`, and `write`
-- the encoding, the temporary file and its renaming.
pub record StateFile (Host : Type 0) : Type 0 where
  pub read : Host → Content
  pub decode : Text → Option ManagementState
  pub write : ManagementState → Host → Bool × Host
  pub remove : Host → Bool × Host

-- `LoadManagementState`: no file, another error, or the state.
pub data Loaded : Type 0 where
  missing faulty : Loaded
  loaded : ManagementState → Loaded

unfoldable pub is_valid_state : ManagementState → Bool
is_valid_state s =
    s.protocol == "tcp"
    && (leb 1 s.port && (leb s.port 65535 && (s.ownership == owned || s.ownership == borrowed)))

abbrev pub checked : Option ManagementState → Loaded
checked none = faulty
checked (some s) = if is_valid_state s then loaded s else faulty

-- A state that was owned, for the same port.
abbrev pub was_owned : Loaded → ℕ → Bool
was_owned missing port = false
was_owned faulty port = false
was_owned (loaded s) port = s.port == port && s.ownership == owned

owns :
    (was : Bool) (ownership : String)
    → ((if was then owned else ownership) == owned) ≡ (was || ownership == owned)
owns true ownership = refl
owns false ownership = refl

recorded-valid :
    (port : ℕ) (o : Opening) (was : Bool)
    → (leb 1 port && leb port 65535) ≡ true
    → (o.ownership == owned || o.ownership == borrowed) ≡ true
    → is_valid_state (record {
      protocol = "tcp";
      port = port;
      ownership = if was then owned else o.ownership;
      backend = o.backend;
    })
      ≡ true
unfolding is_valid_state
recorded-valid port o true p q = ground (arith, p)
recorded-valid port o false p q = ground (arith, p, q)

module _ {Host : Type 0} (manager : Manager Host) (file : StateFile Host) where
  abbrev pub loaded_content : Content → Loaded
  loaded_content absent = missing
  loaded_content unreadable = faulty
  loaded_content (content text) = checked (file.decode text)

  unfoldable pub load_management_state : Host → Loaded
  load_management_state h = loaded_content (file.read h)

  -- What is recorded for an opening.
  abbrev pub recorded : ℕ → Opening → Loaded → ManagementState
  recorded port o previous = record {
    protocol = "tcp";
    port = port;
    ownership = if was_owned previous port then owned else o.ownership;
    backend = o.backend;
  }

  abbrev pub record_opening : ℕ → Option Opening → Host → Option Opening × Host
  record_opening port none h = (none, h)
  record_opening port (some o) h =
      let w = file.write (recorded port o (load_management_state h)) h in
      if w.0
      then (some o, w.1)
      else if o.ownership == owned
      then (none, (manager.close "tcp" port o.backend w.1).1)
      else (none, w.1)

  unfoldable pub ensure_management : ℕ → Host → Option Opening × Host
  unfolding load_management_state
  ensure_management port h = let r = manager.ensure "tcp" port h in record_opening port r.0 r.1

  abbrev pub close_loaded : Loaded → Host → Bool × Host
  close_loaded missing h = (true, h)
  close_loaded faulty h = (false, h)
  close_loaded (loaded s) h =
      if s.ownership == owned
      then (let c = manager.close s.protocol s.port s.backend h in
          if c.0 then file.remove c.1 else (false, c.1))
      else file.remove h

  unfoldable pub close_management : Host → Bool × Host
  unfolding load_management_state
  close_management h = close_loaded (load_management_state h) h

  unrecorded :
      (ownership : String) (a b : Host) (o : Opening)
      → (let r : Option Opening × Host = if ownership == owned then (none, a) else (none, b) in r.0)
        ≡ some o
      → ⊥
  unrecorded ownership a b o e = elim (Bool-cases (ownership == owned)) [
    | inl own ↦ ground (arith, rw own at e)
    | inr other ↦ ground (arith, rw other at e)
  ]

  -- Where the file reads back what was written to it: what `CloseManagement` does on the host that a
  -- successful `EnsureManagement` left is to close the port, if the opening or the state recorded
  -- before for this port was owned, by the backend of the opening, and then to remove the file.
  pub close_management-ensure :
      ((s : ManagementState) (h : Host)
        → (file.write s h).0 ≡ true
        → is_valid_state s ≡ true
        → load_management_state (file.write s h).1 ≡ loaded s)
      → (port : ℕ) (h : Host) (o : Opening) → (leb 1 port && leb port 65535) ≡ true
      → (o.ownership == owned || o.ownership == borrowed) ≡ true
      → (ensure_management port h).0 ≡ some o
      → (let before = load_management_state (manager.ensure "tcp" port h).1 in
          let after = (ensure_management port h).1 in
          let closed = manager.close "tcp" port o.backend after in
          close_management after ≡ (
            if was_owned before port || o.ownership == owned
            then if closed.0 then file.remove closed.1 else (false, closed.1)
            else file.remove after))
  unfolding ensure_management close_management
  close_management-ensure back port h o p q e =
      let m = manager.ensure "tcp" port h in
      let before = load_management_state m.1 in
      elim (Option-cases m.0) [
        | inl refused ↦ absurd (ground (arith, rw (refused, ensure_management) at e))
        | inr (found, opened) ↦ elim (Bool-cases (file.write (recorded port found before) m.1).0) [
          | inr unwritten ↦
              absurd
                (unrecorded found.ownership _ _ o (rw (opened, ensure_management, unwritten) at e))
          | inl wrote ↦
              let same : found ≡ o = ground (arith, rw (opened, ensure_management, wrote) at e) in
              let state = recorded port o before in
              let saved =
                ap (λ x. (file.write (recorded port x before) m.1).0) (sym same) ∙ wrote in
              let valid = recorded-valid port o (was_owned before port) p q in
              rw
                (
                  opened ∙ ap some same,
                  ensure_management,
                  saved,
                  close_management,
                  back state m.1 saved valid,
                  owns (was_owned before port) o.ownership,
                )
                refl
        ]
      ]
