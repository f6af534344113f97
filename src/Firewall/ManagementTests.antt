-- ===== src/Firewall/ManagementTests.antt =====
-- A run of the panel's port, and the theorem at it.
use mathlib.Core.Path.{◌≡◌, refl, ap}
use mathlib.Core.Bool.{Bool, true, false, ◌&&◌}
use mathlib.Core.List.{[]}
use mathlib.Core.Option.{some}
use native.Mathlib.Omega.{arith}
use text.Mathlib.TextEquality.{eq_iff}
use j_ui.Base.{◌==◌, nat_equality, string_equality, nat_same_iff, if◌then◌else◌}
use j_ui.Firewall.Manager.{Opening, Manager}
use j_ui.Firewall.Management
use j_ui.Firewall.Management.{
  ManagementState, Content, StateFile, loaded, is_valid_state, load_management_state,
  ensure_management, close_management,
}

-- The state that the file of this run can hold.
abbrev state : ManagementState
state = record { protocol = "tcp"; port = 2096; ownership = "owned"; backend = "ufw" }

abbrev is_state : ManagementState → Bool
is_state s =
    s.protocol == "tcp" && (s.port == 2096 && (s.ownership == "owned" && s.backend == "ufw"))

-- Whether the file is there.
abbrev file : StateFile Bool
file = record {
  read = λ there. if there then Management.content [] else Management.absent;
  decode = λ text. some state;
  write = λ s there. (is_state s, is_state s);
  remove = λ there. (there, false);
}

abbrev manager : Manager Bool
manager = record {
  backend = λ h. (some "ufw", h);
  ensure = λ protocol port h. (some (record { ownership = "owned"; backend = "ufw" }), h);
  close = λ protocol port backend h. (true, h);
}

is_state-state : (s : ManagementState) → is_state s ≡ true → state ≡ s
is_state-state s e = ground (
  arith,
  e,
  eq_iff s.protocol "tcp",
  eq_iff s.ownership "owned",
  eq_iff s.backend "ufw",
  nat_same_iff s.port 2096,
)

reads_back :
    (s : ManagementState) (h : Bool)
    → (file.write s h).0 ≡ true
    → is_valid_state s ≡ true
    → load_management_state manager file (file.write s h).1 ≡ loaded s
unfolding load_management_state is_valid_state
reads_back s h e v = rw e (ap loaded (is_state-state s e))

abbrev opening : Opening
opening = record { ownership = "owned"; backend = "ufw" }

opened : (ensure_management manager file 2096 false).0 ≡ some opening
unfolding ensure_management load_management_state
opened = refl

close_management-ensure_example :
    close_management manager file (ensure_management manager file 2096 false).1 ≡ (true, false)
unfolding ensure_management load_management_state
close_management-ensure_example =
    Management.close_management-ensure manager file reads_back 2096 false opening refl refl opened
