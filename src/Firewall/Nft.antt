-- ===== src/Firewall/Nft.antt =====
-- The commands of internal/firewall/firewall.go for nftables. The decoding of its JSON is a parameter.
pub mod Statements
use Prim.Native.Nat.{ℕ}
use Prim.Native.String.{String}
use mathlib.Core.Bool.{Bool, true, false, not, ◌&&◌, ◌||◌}
use mathlib.Core.List.{List, [], ◌∷◌, ◌++◌}
use mathlib.Core.Option.{Option, none, some}
use j_ui.Base.{◌==◌, leb, if◌then◌else◌, nat_equality, elem}
use j_ui.Base.Int.{ℤ, pos, int_leb, int_text}
use j_ui.Base.Map.{is_some}
use j_ui.Base.Run.{Run, pure, fail, attempt, ◌>>=◌, ◌>>◌}
use j_ui.Base.Text.{Text, codes, texts, text_equality, text_before, after_first, itoa}
use j_ui.Firewall.Manager.{Opening}
use j_ui.Firewall.{Runner, Command, command, lookup, owned, backend_nftables, rule_marker}

pub record NftChain : Type 0 where
  pub family : Text
  pub table : Text
  pub name : Text
  pub hook : Text
  pub policy : Text

pub record NftRule : Type 0 where
  pub family : Text
  pub table : Text
  pub chain : Text
  pub handle : ℤ
  pub comment : Text

-- An element of `nftRuleset.Objects`.
pub record NftObject : Type 0 where
  pub chain : Option NftChain
  pub rule : Option NftRule

pub record NftChainRef : Type 0 where
  pub family : Text
  pub table : Text
  pub chain : Text

abbrev pub is_identifier_letter : ℕ → Bool
is_identifier_letter c =
    (leb b'a' c && leb c b'z')
    || (leb b'A' c && leb c b'Z')
    || (leb b'0' c && leb c b'9')
    || c == b'_'
    || c == b'-'
    || c == b'.'

abbrev pub all_letters : Text → Bool
all_letters [] = true
all_letters (c ∷ s) = if is_identifier_letter c then all_letters s else false

unfoldable pub valid_nft_identifier : Text → Bool
valid_nft_identifier value = not (value == []) && all_letters value

unfoldable pub valid_nft_reference : Text → Text → Text → Bool
unfolding valid_nft_identifier
valid_nft_reference family table chain =
    (family == codes "inet" || family == codes "ip" || family == codes "ip6")
    && (valid_nft_identifier table && valid_nft_identifier chain)

abbrev pub drops_input : Option NftChain → Option NftChainRef
drops_input none = none
drops_input (some c) =
    if c.hook == codes "input"
      && (c.policy == codes "drop" && valid_nft_reference c.family c.table c.name)
    then some (record { family = c.family; table = c.table; chain = c.name })
    else none

unfoldable pub drop_chains : List NftObject → List NftChainRef
unfolding valid_nft_reference
drop_chains [] = []
drop_chains (o ∷ objects) = elim (drops_input o.chain) [
  | none ↦ drop_chains objects
  | some c ↦ c ∷ drop_chains objects
]

-- The keys of the map `existing`.
abbrev pub is_marked_in : Text → NftChainRef → Option NftRule → Bool
is_marked_in marker c none = false
is_marked_in marker c (some r) =
    r.comment == marker && (r.family == c.family && (r.table == c.table && r.chain == c.chain))

unfoldable pub is_existing : Text → NftChainRef → List NftObject → Bool
is_existing marker c [] = false
is_existing marker c (o ∷ objects) =
    if is_marked_in marker c o.rule then true else is_existing marker c objects

abbrev pub chain_key : NftChainRef → Text
chain_key c = c.family ++ (b'/' ∷ (c.table ++ (b'/' ∷ c.chain)))

unfoldable pub insert_chain : NftChainRef → List NftChainRef → List NftChainRef
insert_chain c [] = c ∷ []
insert_chain c (d ∷ chains) =
    if text_before (chain_key c) (chain_key d) then c ∷ d ∷ chains else d ∷ insert_chain c chains

unfoldable pub sort_chains : List NftChainRef → List NftChainRef
unfolding insert_chain
sort_chains [] = []
sort_chains (c ∷ chains) = insert_chain c (sort_chains chains)

-- A command behind those before it.
abbrev pub then_command : List Text → List Text → List Text
then_command [] more = more
then_command (w ∷ words) more = (w ∷ words) ++ (codes ";" ∷ more)

-- The arguments that open the port in the chains that drop and have no rule of J-UI.
unfoldable pub insert_args : String → ℕ → List NftObject → List Text → List NftChainRef → List Text
unfolding is_existing
insert_args protocol port objects args [] = args
insert_args protocol port objects args (c ∷ chains) =
    insert_args protocol port objects
      (if is_existing (rule_marker protocol port) c objects
        then args
        else then_command args (
            codes "insert"
            ∷ codes "rule"
            ∷ c.family
            ∷ c.table
            ∷ c.chain
            ∷ codes protocol
            ∷ codes "dport"
            ∷ itoa port
            ∷ codes "accept"
            ∷ codes "comment"
            ∷ rule_marker protocol port
            ∷ []))
      chains

-- The rule of J-UI that an object is; its handle is positive.
abbrev pub owned_rule : Text → Option NftRule → Option NftRule
owned_rule marker none = none
owned_rule marker (some r) =
    if not (r.comment == marker) || not (int_leb (pos 1) r.handle) then none else some r

-- The arguments that delete the rules of J-UI; a reference that is no identifier is an error.
unfoldable pub delete_args : Text → List Text → List NftObject → Option (List Text)
unfolding valid_nft_reference
delete_args marker args [] = some args
delete_args marker args (o ∷ objects) =
    let skip = delete_args marker args objects in
    elim (owned_rule marker o.rule) [
      | none ↦ skip
      | some r ↦
          let next =
            delete_args marker
              (then_command args (
                codes "delete"
                ∷ codes "rule"
                ∷ r.family
                ∷ r.table
                ∷ r.chain
                ∷ codes "handle"
                ∷ int_text r.handle
                ∷ []))
              objects in
          if valid_nft_reference r.family r.table r.chain then next else none
    ]

-- `decode` is `json.Unmarshal` into a ruleset.
module _ {Host : Type 0} (runner : Runner Host) (decode : Text → Option (List NftObject)) where
  abbrev pub nft : List Text → Command Host Text
  nft words = command runner (codes "nft" ∷ words)

  abbrev pub decoded : Option (List NftObject) → Command Host (List NftObject)
  decoded none = fail
  decoded (some objects) = pure objects

  unfoldable pub nft_ruleset : Command Host (List NftObject)
  nft_ruleset = do
    output ← nft (texts ("-j" ∷ "-a" ∷ "list" ∷ "ruleset" ∷ []))
    decoded (decode output)

  abbrev pub opened : Command Host Opening
  opened = pure (record { ownership = owned; backend = backend_nftables })

  -- A list command, and where it fails the command that creates what is missing.
  unfoldable pub ensure_object : List Text → List Text → Command Host (Unit {0})
  ensure_object query create = do
    found ← attempt (nft query)
    if is_some found then pure tt else nft create >> pure tt

  -- Where some input chain drops.
  unfoldable pub open_in_chains : List Text → Command Host Opening
  open_in_chains [] = opened
  open_in_chains (w ∷ words) = nft (w ∷ words) >> opened

  -- Where no input chain drops: a rule in J-UI's own chain.
  unfoldable pub open_in_own_chain : String → ℕ → Command Host Opening
  open_in_own_chain protocol port = do
    ensure_object (texts ("list" ∷ "table" ∷ "inet" ∷ "jui" ∷ []))
        (texts ("add" ∷ "table" ∷ "inet" ∷ "jui" ∷ []))
    ensure_object (texts ("list" ∷ "chain" ∷ "inet" ∷ "jui" ∷ "input" ∷ [])) (
        texts (
          "add" ∷ "chain" ∷ "inet" ∷ "jui" ∷ "input" ∷ "{" ∷ "type" ∷ "filter" ∷ "hook" ∷ "input"
          ∷ "priority" ∷ "-5" ∷ ";" ∷ "}" ∷ []))
    output ← nft (texts ("list" ∷ "chain" ∷ "inet" ∷ "jui" ∷ "input" ∷ []))
    if is_some (after_first (codes "comment \"" ++ (rule_marker protocol port ++ b'"' ∷ [])) output)
        then opened
        else nft (
            texts ("add" ∷ "rule" ∷ "inet" ∷ "jui" ∷ "input" ∷ [])
            ++ (codes protocol
                ∷ codes "dport"
                ∷ itoa port
                ∷ codes "accept"
                ∷ codes "comment"
                ∷ rule_marker protocol port
                ∷ []))
          >> opened

  abbrev pub open_by_chains : String → ℕ → List NftObject → List NftChainRef → Command Host Opening
  open_by_chains protocol port objects [] = open_in_own_chain protocol port
  open_by_chains protocol port objects (c ∷ chains) =
      open_in_chains (insert_args protocol port objects [] (c ∷ chains))

  unfoldable pub nft_ensure : String → ℕ → Command Host Opening
  unfolding sort_chains drop_chains
  nft_ensure protocol port = do
    found ← lookup runner "nft"
    if not found
        then fail
        else nft_ruleset >>= λ objects.
            open_by_chains protocol port objects (sort_chains (drop_chains objects))

  abbrev pub delete_by_args : Option (List Text) → Command Host (Unit {0})
  delete_by_args none = fail
  delete_by_args (some []) = pure tt
  delete_by_args (some (w ∷ words)) = nft (w ∷ words) >> pure tt

  unfoldable pub nft_close : String → ℕ → Command Host (Unit {0})
  unfolding delete_args
  nft_close protocol port = do
    found ← lookup runner "nft"
    if not found
        then fail
        else nft_ruleset >>= λ objects.
            delete_by_args (delete_args (rule_marker protocol port) [] objects)
