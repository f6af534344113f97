-- ===== src/Firewall/Firewalld.antt =====
-- The commands of internal/firewall/firewall.go for firewalld.
use Prim.Native.Nat.{ℕ}
use Prim.Native.String.{String}
use mathlib.Core.Bool.{Bool, true, false, ◌||◌}
use mathlib.Core.List.{List, [], ◌∷◌, ◌++◌}
use j_ui.Base.{if◌then◌else◌, nat_equality, elem}
use j_ui.Base.Map.{is_some}
use j_ui.Base.Run.{pure, attempt, ◌>>=◌, ◌>>◌}
use j_ui.Base.Scan.{fields}
use j_ui.Base.Text.{Text, codes, texts, text_equality}
use j_ui.Firewall.Manager.{Opening}
use j_ui.Firewall.{Runner, Command, command, owned, backend_firewalld, port_spec}

-- A `firewall-cmd` on the permanent configuration.
abbrev pub permanent : List Text → List Text
permanent words = codes "firewall-cmd" ∷ codes "--permanent" ∷ words

-- The same on the policy of J-UI.
abbrev pub of_policy : Text → List Text
of_policy word = permanent (codes "--policy=jui" ∷ word ∷ [])

abbrev pub reload : List Text
reload = texts ("firewall-cmd" ∷ "--reload" ∷ [])

unfoldable pub contains_field : Text → Text → Bool
unfolding fields
contains_field output wanted = elem wanted (fields output)

module _ {Host : Type 0} (runner : Runner Host) where
  -- Asks for a setting and adds it where the query fails; whether it was added.
  unfoldable pub ensure_setting : Text → Text → Command Host Bool
  ensure_setting query add = do
    found ← attempt (command runner (of_policy query))
    if is_some found then pure false else command runner (of_policy add) >> pure true

  unfoldable pub ensure_policy : Command Host Bool
  unfolding contains_field
  ensure_policy = do
    policies ← command runner (permanent (codes "--get-policies" ∷ []))
    if contains_field policies (codes "jui")
        then pure false
        else command runner (permanent (codes "--new-policy=jui" ∷ [])) >> pure true

  unfoldable pub reload_if : Bool → Command Host Opening
  reload_if changed = do
    if changed then command runner reload >> pure tt else pure (tt {0})
    pure (record { ownership = owned; backend = backend_firewalld })

  unfoldable pub firewalld_ensure : String → ℕ → Command Host Opening
  firewalld_ensure protocol port = do
    created ← ensure_policy
    ingress ← ensure_setting (codes "--query-ingress-zone=ANY") (codes "--add-ingress-zone=ANY")
    egress ← ensure_setting (codes "--query-egress-zone=HOST") (codes "--add-egress-zone=HOST")
    opened ←
        ensure_setting (codes "--query-port=" ++ port_spec protocol port)
          (codes "--add-port=" ++ port_spec protocol port)
    reload_if (created || ingress || egress || opened)

  unfoldable pub firewalld_remove : Text → Command Host (Unit {0})
  firewalld_remove spec = do
    found ← attempt (command runner (of_policy (codes "--query-port=" ++ spec)))
    if is_some found
        then command runner (of_policy (codes "--remove-port=" ++ spec))
          >> command runner reload
          >> pure tt
        else pure tt

  unfoldable pub firewalld_close : String → ℕ → Command Host (Unit {0})
  unfolding contains_field
  firewalld_close protocol port = do
    policies ← command runner (permanent (codes "--get-policies" ∷ []))
    if contains_field policies (codes "jui")
        then firewalld_remove (port_spec protocol port)
        else pure tt
