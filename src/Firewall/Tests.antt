-- ===== src/Firewall/Tests.antt =====
-- Runs of internal/firewall on concrete inputs, and the theorems at those inputs.
use Prim.Native.Nat.{ℕ}
use Prim.Native.String.{String}
use mathlib.Core.Path.{◌≡◌, refl, ap, ◌∙◌}
use mathlib.Core.Logic.{◌↔◌, inl, inr}
use mathlib.Core.Bool.{Bool, true, false, not, ◌||◌}
use mathlib.Core.List.{List, [], ◌∷◌, ◌++◌}
use mathlib.Core.Option.{Option, none, some}
use native.Mathlib.Omega.{arith}
use j_ui.Base.{◌==◌, if◌then◌else◌, nat_equality, keep, Bool-cases}
use j_ui.Base.Int.{ℤ, pos, negsuc, int_text}
use j_ui.Base.Numbers.{itoa_injective}
use j_ui.Base.Run.{pure, ◌>>=◌}
use j_ui.Base.Scan.{split}
use j_ui.Base.Text.{Text, codes, texts, text_equality, text_same, text_same_iff, itoa, digits_of}
use j_ui.Model.{Node}
use j_ui.Firewall.Ufw.{
  ufw_line_has_marker, ufw_borrowed_rule, insert_down, sort_down, ufw_delete_all,
}
use j_ui.Firewall.Ufw.Marker
use j_ui.Firewall.Ufw.Status
use j_ui.Firewall.Ufw.Delete
use j_ui.Firewall.Nft.Statements
use j_ui.Firewall.Nft.Statements.Words
use j_ui.Firewall.Nft.{NftObject, valid_nft_identifier, valid_nft_reference, delete_args}
use j_ui.Firewall.System.{system}
use j_ui.Firewall.{Runner, Shell, command, rule_marker, port_spec}
use j_ui.Node.Sync.{World, sync_firewall}
use j_ui.Node.Sync.Answers as SyncAnswers

-- A host whose state is the list of the comments of its rules, and which knows the numbers 1 and 3.
abbrev number_of : Text → Option ℤ
number_of text =
    if text_same text (codes "1")
    then some (pos 1)
    else if text_same text (codes "3")
    then some (pos 3)
    else none

abbrev deleted : Option ℤ → List Text → Option Text × List Text
deleted none h = (none, h)
deleted (some n) h = (some [], Delete.delete_at 1 n h)

abbrev run_ufw : List Text → List Text → Option Text × List Text
run_ufw [] h = (none, h)
run_ufw (ufw ∷ []) h = (none, h)
run_ufw (ufw ∷ force ∷ []) h = (some (codes "Status: active"), h)
run_ufw (ufw ∷ force ∷ delete ∷ []) h = (none, h)
run_ufw (ufw ∷ force ∷ delete ∷ text ∷ words) h = deleted (number_of text) h

abbrev runner : Runner (List Text)
runner = record { run = run_ufw; finds = λ name h. true }

int_text-pos :
    (n : ℤ) (k : ℕ) (c : ℕ) (s : Text)
    → itoa k ≡ c ∷ s
    → (c == b'-') ≡ false
    → int_text n ≡ itoa k
    → n ≡ pos k
unfolding int_text
int_text-pos (pos n) k c s d h e = ap pos (itoa_injective n k e)
int_text-pos (negsuc n) k c s d h e = ground (arith, d, h, e)

number_of-text :
    (n : ℤ) (h : List Text) (output : Text)
    → (run_ufw (Delete.delete_words n) h).0 ≡ some output
    → (run_ufw (Delete.delete_words n) h).1 ≡ Delete.delete_at 1 n h
number_of-text n h output e = elim (Bool-cases (text_same (int_text n) (codes "1"))) [
  | inl one ↦
      let same =
        int_text-pos n 1 b'1' [] (unfold itoa digits_of in refl) refl
          ((text_same_iff _ _).0 one ∙ (unfold itoa digits_of in refl)) in
      rw (one, same) refl
  | inr other ↦ elim (Bool-cases (text_same (int_text n) (codes "3"))) [
    | inl three ↦
        let same =
          int_text-pos n 3 b'3' [] (unfold itoa digits_of in refl) refl
            ((text_same_iff _ _).0 three ∙ (unfold itoa digits_of in refl)) in
        rw (other, three, same) refl
    | inr none_of ↦ absurd (ground (arith, rw (other, none_of) at e))
  ]
]

abbrev rules : List Text
rules = codes "jui-tcp-80" ∷ codes "ssh" ∷ codes "jui-tcp-80" ∷ []

abbrev shell : Shell (List Text)
shell = record { host = rules; log = [] }

abbrev ours : Text → Bool
ours c = text_same c (codes "jui-tcp-80")

ufw_delete_all-done :
    (ufw_delete_all runner (λ c. c) (sort_down (Delete.numbers ours 1 rules)) shell).0 ≡ some tt
unfolding ufw_delete_all sort_down insert_down command ◌>>=◌ pure int_text itoa digits_of text_same
ufw_delete_all-done = refl

ufw_delete_all-keep_example :
    (ufw_delete_all runner (λ c. c) (sort_down (Delete.numbers ours 1 rules)) shell).1.host
    ≡ keep (λ c. not (ours c)) rules
ufw_delete_all-keep_example =
    Delete.ufw_delete_all-keep runner (λ c. c) (λ h. h) number_of-text ours shell
      ufw_delete_all-done

abbrev protocol : String
protocol = "tcp"

-- The rule of port 80 is not that of port 8080.
ufw_line_has_marker_example :
    (ufw_line_has_marker
        (codes "[ 1] 80/tcp ALLOW IN Anywhere " ++ (codes "# " ++ (rule_marker "tcp" 8080 ++ [])))
        (rule_marker "tcp" 80)
      ≡ true)
    ↔ ((protocol ≡ protocol) × (◌≡◌ {A = ℕ} 80 8080))
ufw_line_has_marker_example =
    Marker.ufw_line_has_marker_iff (codes "[ 1] 80/tcp ALLOW IN Anywhere ") [] "tcp" "tcp" 80 8080
      refl refl refl (inl refl) (inl refl)

abbrev status : Text
status = codes "80/tcp ALLOW Anywhere\n80/tcp (v6) ALLOW Anywhere (v6)"

ufw_borrowed_rule_example :
    ufw_borrowed_rule status "tcp" 80
    ≡ Status.reference (port_spec "tcp" 80) (itoa 80) (split b'\n' status)
ufw_borrowed_rule_example = Status.ufw_borrowed_rule-reference status "tcp" 80

abbrev marked : Text → Text → NftObject
marked table comment = record {
  chain = none;
  rule = some (record {
    family = codes "inet";
    table = table;
    chain = codes "input";
    handle = pos 7;
    comment = comment;
  });
}

abbrev objects : List NftObject
objects =
    marked (codes "filter") (codes "jui-tcp-80")
    ∷ marked (codes "a b") (codes "ssh")
    ∷ marked (codes "nat") (codes "jui-tcp-80")
    ∷ []

abbrev deletion : List Text
deletion = texts (
    "delete" ∷ "rule" ∷ "inet" ∷ "filter" ∷ "input" ∷ "handle" ∷ "7" ∷ ";" ∷ "delete" ∷ "rule"
    ∷ "inet" ∷ "nat" ∷ "input" ∷ "handle" ∷ "7" ∷ [])

deletes_marked : delete_args (codes "jui-tcp-80") [] objects ≡ some deletion
unfolding delete_args valid_nft_identifier valid_nft_reference text_same int_text itoa digits_of
deletes_marked = refl

-- Statements that end at ";" and at a newline.
abbrev attach_letter : ℕ → List Text → List Text
attach_letter c [] = (c ∷ []) ∷ []
attach_letter c (s ∷ statements) = (c ∷ s) ∷ statements

abbrev read_statements : Text → List Text
read_statements [] = [] ∷ []
read_statements (c ∷ s) =
    if c == b';' || c == b'\n' then [] ∷ read_statements s else attach_letter c (read_statements s)

read_statements-plain : (s : Text) → Words.all_plain s ≡ true → read_statements s ≡ s ∷ []
read_statements-plain [] h = refl
read_statements-plain (c ∷ s) h =
    let plain : (c == b';' || c == b'\n') ≡ false = ground (arith, h) in
    rw plain (ap (attach_letter c) (read_statements-plain s (ground (arith, h))))

read_statements-separated :
    (s t : Text)
    → Words.all_plain s ≡ true
    → read_statements (s ++ (b';' ∷ t)) ≡ s ∷ read_statements t
read_statements-separated [] t h = refl
read_statements-separated (c ∷ s) t h =
    let plain : (c == b';' || c == b'\n') ≡ false = ground (arith, h) in
    rw plain (ap (attach_letter c) (read_statements-separated s t (ground (arith, h))))

delete_args_example :
    Words.run_statements read_statements deletion
    ≡ Statements.delete_statements (Statements.owned_rules (codes "jui-tcp-80") objects)
delete_args_example =
    Statements.delete_args-statements read_statements read_statements-plain
      read_statements-separated (codes "jui-tcp-80") deletion objects deletes_marked

abbrev node : Node
node = record {
  id = 1;
  name = codes "hy_9000";
  protocol = "hysteria2";
  listen = codes "::";
  port = 9000;
  enabled = true;
  public_host_override = [];
  outbound_id = none;
  settings = [];
  secret = [];
  status = "running";
}

abbrev world : World (Shell (List Text))
world = record { rules = []; host = shell; verified = false; ticks = 0; calls = [] }

sync_firewall-IsClean_example :
    SyncAnswers.IsClean
      (sync_firewall
        (system runner (λ c. c) (λ text. none))
        (λ t. false)
        (λ listen. false)
        (node ∷ [])
        world).0
sync_firewall-IsClean_example =
    SyncAnswers.sync_firewall-IsClean runner (λ c. c) (λ text. none) (λ t. false) (λ listen. false)
      (node ∷ []) world
