-- ===== src/Vpngate/Sanitize/Permitted.antt =====
-- The invariant of the loop of `SanitizeOpenVPN`, and the lines that write no directive.
use Prim.Native.Nat.{ℕ}
use mathlib.Core.Path.{◌≡◌, refl, ◌∙◌, ap}
use mathlib.Core.Logic.{◌≢◌, inl, inr}
use mathlib.Core.Bool.{Bool, true, false, not, ◌||◌}
use mathlib.Core.List.{List, [], ◌∷◌, ◌++◌, map}
use native.Mathlib.Omega.{arith}
use j_ui.Base.{◌==◌, nat_equality, elem, All, All-append, Bool-cases, Option-cases}
use j_ui.Base.Text.{Text, codes, text_equality, text_same_iff}
use j_ui.Base.Scan.{join}
use j_ui.Vpngate.Sanitize.{
  State, Result, ok, err, ◌>>=◌, forbidden_directives, allowed_directives, allowed_blocks, is_tun,
  closing_tag, equal_fold, normalize_proto, port_of, begins, block_line, open_block, add_remote,
  set_proto,
}
use j_ui.Vpngate.Sanitize.Lines.{Without}
use j_ui.Vpngate.Sanitize.Reading.{
  fresh, read_line, read_lines, read_lines-append, read_line-open, read_line-inside,
  open_block-Opens,
}
use j_ui.Vpngate.Sanitize.Remotes.{
  IsKind, IsRemote, port_of-le, normalize_proto-IsKind, remote_protocol-IsKind,
}

-- A directive that may stand in the output: its word is on the list of the allowed and not on that of
-- the forbidden, is neither `remote` nor `proto`, and `dev` has the one argument `tun`.
pub record Permitted (lower : ℕ → ℕ) (line : Text) : Type 0 where
  pub word : Text
  pub args : List Text
  pub is_line : line ≡ join (b' ' ∷ []) (word ∷ args)
  pub allowed : elem (map lower word) allowed_directives ≡ true
  pub not_forbidden : elem (map lower word) forbidden_directives ≡ false
  pub not_remote : map lower word ≢ codes "remote"
  pub not_proto : map lower word ≢ codes "proto"
  pub tun : map lower word ≡ codes "dev" → is_tun args ≡ true

abbrev pub Ensures {ℓ κ} : {A : Type ℓ} → (A → Type κ) → Result A → Type κ
Ensures P (ok a) = P a
Ensures P (err e) = Unit

pub bind-Ensures {ℓ ℓ' κ κ'} :
    {A : Type ℓ} {B : Type ℓ'} (P : A → Type κ) (Q : B → Type κ') (m : Result A) (f : A → Result B)
    → Ensures P m
    → ((a : A) → P a → Ensures Q (f a))
    → Ensures Q (m >>= f)
bind-Ensures P Q (ok a) f p h = h a p
bind-Ensures P Q (err e) f p h = tt

module _ (is_ipv4 : Text → Bool) (lower : ℕ → ℕ) (same_fold : ℕ → ℕ → Bool) (ip : Text) where
  -- The closing of a block, as the sanitizer sees it.
  abbrev pub closes : Text → Text → Bool
  closes block line = equal_fold is_ipv4 lower same_fold line (closing_tag block)

  -- The output so far, read as a configuration, has permitted directives only.
  pub record Inv (s : State) : Type 0 where
    pub directives : List Text
    pub reads :
        read_lines closes fresh s.output ≡ record { block = s.block; directives = directives }
    pub safe : All (Permitted lower) directives
    pub one_line : All (Without b'\n') s.output
    pub remotes : All (IsRemote ip IsKind) s.remotes
    pub kind : IsKind s.protocol

  -- One more line in the output.
  pub Inv-add :
      (s : State) (i : Inv s) (line block : Text) (ds : List Text)
      → Without b'\n' line
      → read_line closes (record { block = s.block; directives = i.directives }) line
        ≡ record { block = block; directives = ds }
      → All (Permitted lower) ds
      → Inv (record s { output = s.output ++ line ∷ []; block = block })
  unfolding read_lines
  Inv-add s i line block ds clean e safe = record {
    directives = ds;
    reads =
        read_lines-append closes fresh s.output (line ∷ [])
        ∙ ap (λ r. read_line closes r line) i.reads
        ∙ e;
    safe = safe;
    one_line = All-append (Without b'\n') s.output (line ∷ []) i.one_line (clean, tt);
    remotes = i.remotes;
    kind = i.kind;
  }

  pub block_line-Inv :
      (s : State) (line : Text)
      → (s.block == []) ≡ false
      → Without b'\n' line
      → Inv s
      → Inv (block_line is_ipv4 lower same_fold s line)
  unfolding block_line
  block_line-Inv s line h clean i =
      Inv-add s i line _ i.directives clean (read_line-inside closes i.directives s.block line h)
        i.safe

  pub no_block : (s : State) → (s.block == []) ≡ true → s.block ≡ []
  no_block s h = (text_same_iff s.block []).0 h

  pub open_block-Inv :
      (s : State) (name : Text)
      → (s.block == []) ≡ true
      → Inv s
      → Ensures Inv (open_block is_ipv4 lower same_fold s name)
  unfolding open_block
  open_block-Inv s name h i =
      elim (Bool-cases (begins b'/' name || not (elem name allowed_blocks))) [
        | inl bad ↦ rw (bad, open_block) tt
        | inr fine ↦
            let o = open_block-Opens name (ground arith) in
            let e : read_line closes (record { block = s.block; directives = i.directives })
                  (b'<' ∷ (name ++ b'>' ∷ []))
                ≡ record { block = name; directives = i.directives } =
              ap
                (λ b.
                  read_line closes (record { block = b; directives = i.directives })
                    (b'<' ∷ (name ++ b'>' ∷ [])))
                (no_block s h)
              ∙ read_line-open closes i.directives _ name o.is_name in
            rw (fine, open_block)
              (Inv-add s i (b'<' ∷ (name ++ b'>' ∷ [])) name i.directives o.one_line e i.safe)
      ]

  pub add_remote-Inv :
      (s : State) (args : List Text)
      → Inv s
      → Ensures Inv (add_remote is_ipv4 lower same_fold ip s args)
  unfolding add_remote
  add_remote-Inv s [] i = tt
  add_remote-Inv s (host ∷ []) i = tt
  add_remote-Inv s (host ∷ port ∷ more) i = elim (Option-cases (port_of port)) [
    | inl bad ↦ rw (bad, add_remote) tt
    | inr (n, e) ↦
        let range = port_of-le port n e in
        rw (e, add_remote)
          (record {
            directives = i.directives;
            reads = i.reads;
            safe = i.safe;
            one_line = i.one_line;
            remotes = All-append (IsRemote ip IsKind) s.remotes _ i.remotes (
              record {
                same_ip = refl;
                low = range.0;
                high = range.1;
                kind = remote_protocol-IsKind is_ipv4 lower same_fold s.protocol more i.kind;
              },
              tt,
            );
            kind = i.kind;
          })
  ]

  pub set_proto-Inv :
      (s : State) (args : List Text)
      → Inv s
      → Ensures Inv (set_proto is_ipv4 lower same_fold s args)
  unfolding set_proto
  set_proto-Inv s [] i = tt
  set_proto-Inv s (p ∷ []) i = elim (Bool-cases (normalize_proto is_ipv4 lower same_fold p == [])) [
    | inl bad ↦ rw (bad, set_proto) tt
    | inr fine ↦
        rw (fine, set_proto)
          (record {
            directives = i.directives;
            reads = i.reads;
            safe = i.safe;
            one_line = i.one_line;
            remotes = i.remotes;
            kind = normalize_proto-IsKind is_ipv4 lower same_fold p;
          })
  ]
  set_proto-Inv s (p ∷ q ∷ more) i = tt
