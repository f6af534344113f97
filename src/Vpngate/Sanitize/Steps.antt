-- ===== src/Vpngate/Sanitize/Steps.antt =====
-- The body of the loop of `SanitizeOpenVPN` keeps the invariant.
use Prim.Native.Nat.{ℕ}
use mathlib.Core.Path.{◌≡◌, refl, ◌∙◌, sym, ap}
use mathlib.Core.Logic.{inl, inr}
use mathlib.Core.Bool.{Bool, true, false, not, ◌&&◌, ◌||◌}
use mathlib.Core.List.{List, [], ◌∷◌, ◌++◌, map}
use mathlib.Core.Option.{none}
use native.Mathlib.Omega.{arith}
use j_ui.Base.{◌==◌, nat_equality, nat_same_iff, elem, All, All-append, Bool-cases, Option-cases}
use j_ui.Base.Text.{Text, codes, text_same, text_equality, text_same_iff, trim_space}
use j_ui.Base.Scan.{join, fields}
use j_ui.Vpngate.Sanitize.{
  State, forbidden_directives, allowed_directives, is_tun, block_name, begins, directive,
  config_line, scan_line, scan_lines,
}
use j_ui.Vpngate.Sanitize.Lines.{
  Without, NonEmpty, trim_space-Without, fields-Without, fields-NonEmpty, join-Without,
}
use j_ui.Vpngate.Sanitize.Reading.{read_line, read_line-directive, block_name-none, begins-join}
use j_ui.Vpngate.Sanitize.Permitted.{
  Permitted, Ensures, bind-Ensures, closes, Inv, Inv-add, block_line-Inv, no_block, open_block-Inv,
  add_remote-Inv, set_proto-Inv,
}

module _ (is_ipv4 : Text → Bool) (lower : ℕ → ℕ) (same_fold : ℕ → ℕ → Bool)
    (lower_mark : lower b'<' ≡ b'<') (ip : Text) where
  abbrev Holds : State → Type 0
  Holds = Inv is_ipv4 lower same_fold ip

  abbrev shuts : Text → Text → Bool
  shuts = closes is_ipv4 lower same_fold ip

  -- An allowed word does not begin with the mark of a block.
  allowed-begins :
      (word : Text) → elem (map lower word) allowed_directives ≡ true → begins b'<' word ≡ false
  unfolding text_same
  allowed-begins [] h = refl
  allowed-begins (c ∷ word) h = elim (Bool-cases (c == b'<')) [
    | inr other ↦ other
    | inl same ↦
        let e : lower c ≡ b'<' = ap lower ((nat_same_iff c b'<').0 same) ∙ lower_mark in
        absurd (ground (arith, e, h))
  ]

  Permitted-block_name :
      (word : Text) (args : List Text)
      → NonEmpty word
      → elem (map lower word) allowed_directives ≡ true
      → block_name (join (b' ' ∷ []) (word ∷ args)) ≡ none
  Permitted-block_name word args ne h =
      block_name-none _ (begins-join b'<' word args ne ∙ allowed-begins word h)

  -- A line of the words of a directive that passed every test.
  add_directive-Inv :
      (s : State) (word : Text) (args : List Text)
      → (s.block == []) ≡ true
      → NonEmpty word
      → All (Without b'\n') (word ∷ args)
      → Permitted lower (join (b' ' ∷ []) (word ∷ args))
      → elem (map lower word) allowed_directives ≡ true
      → Holds s
      → Holds (record s { output = s.output ++ join (b' ' ∷ []) (word ∷ args) ∷ [] })
  add_directive-Inv s word args h ne clean p allowed i =
      let line = join (b' ' ∷ []) (word ∷ args) in
      let e : read_line shuts (record { block = s.block; directives = i.directives }) line
          ≡ record { block = s.block; directives = i.directives ++ line ∷ [] } =
        let at : s.block ≡ [] = no_block is_ipv4 lower same_fold ip s h in
        ap (λ b. read_line shuts (record { block = b; directives = i.directives }) line) at
        ∙ read_line-directive shuts i.directives line (Permitted-block_name word args ne allowed)
        ∙ ap (λ b. record { block = b; directives = i.directives ++ line ∷ [] }) (sym at) in
      Inv-add is_ipv4 lower same_fold ip s i line s.block (i.directives ++ line ∷ [])
        (join-Without b'\n' (b' ' ∷ []) (word ∷ args) refl clean) e
        (All-append (Permitted lower) i.directives (line ∷ []) i.safe (p, tt))

  directive-Inv :
      (s : State) (words : List Text)
      → (s.block == []) ≡ true
      → All NonEmpty words
      → All (Without b'\n') words
      → Holds s
      → Ensures Holds (directive is_ipv4 lower same_fold ip s words)
  unfolding directive
  directive-Inv s [] h ne clean i = i
  directive-Inv s (word ∷ args) h ne clean i =
      let name = map lower word in
      elim (Bool-cases (elem name forbidden_directives)) [
        | inl bad ↦ rw (bad, directive) tt
        | inr free ↦ elim (Bool-cases (name == codes "remote")) [
          | inl remote ↦
              rw (free, remote, directive) (add_remote-Inv is_ipv4 lower same_fold ip s args i)
          | inr not_remote ↦ elim (Bool-cases (name == codes "proto")) [
            | inl proto ↦
                rw (free, not_remote, proto, directive)
                  (set_proto-Inv is_ipv4 lower same_fold ip s args i)
            | inr not_proto ↦ elim (Bool-cases (elem name allowed_directives)) [
              | inr bad ↦ rw (free, not_remote, not_proto, bad, directive) tt
              | inl allowed ↦ elim (Bool-cases (name == codes "dev" && not (is_tun args))) [
                | inl bad ↦ rw (free, not_remote, not_proto, allowed, bad, directive) tt
                | inr tun ↦
                    rw (free, not_remote, not_proto, allowed, tun, directive)
                      (add_directive-Inv s word args h ne.0 clean
                        (record {
                          word = word;
                          args = args;
                          is_line = refl;
                          allowed = allowed;
                          not_forbidden = free;
                          not_remote = λ e. cc ((text_same_iff _ _).1 e, not_remote);
                          not_proto = λ e. cc ((text_same_iff _ _).1 e, not_proto);
                          tun = λ e. ground (arith, (text_same_iff _ _).1 e, tun);
                        })
                        allowed i)
              ]
            ]
          ]
        ]
      ]

  config_line-Inv :
      (s : State) (line : Text)
      → Without b'\n' line
      → Holds s
      → Ensures Holds (config_line is_ipv4 lower same_fold ip s line)
  unfolding config_line
  config_line-Inv s line clean i = elim (Bool-cases (s.block == [])) [
    | inr inside ↦
        rw (inside, config_line) (block_line-Inv is_ipv4 lower same_fold ip s line inside clean i)
    | inl outside ↦ elim (Option-cases (block_name line)) [
      | inl plain ↦
          rw (outside, plain, config_line)
            (directive-Inv s (fields line) outside (fields-NonEmpty line)
              (fields-Without b'\n' line clean) i)
      | inr (name, e) ↦
          rw (outside, e, config_line)
            (open_block-Inv is_ipv4 lower same_fold ip s (map lower name) outside i)
    ]
  ]

  scan_line-Inv :
      (s : State) (raw : Text)
      → Without b'\n' raw
      → Holds s
      → Ensures Holds (scan_line is_ipv4 lower same_fold ip s raw)
  unfolding scan_line
  scan_line-Inv s raw clean i =
      let line = trim_space raw in
      elim (Bool-cases (line == [] || begins b'#' line || begins b';' line)) [
        | inl skip ↦ rw (skip, scan_line) i
        | inr take ↦
            rw (take, scan_line) (config_line-Inv s line (trim_space-Without b'\n' raw clean) i)
      ]

  pub scan_lines-Inv :
      (s : State) (lines : List Text)
      → All (Without b'\n') lines
      → Holds s
      → Ensures Holds (scan_lines is_ipv4 lower same_fold ip s lines)
  unfolding scan_lines
  scan_lines-Inv s [] clean i = i
  scan_lines-Inv s (l ∷ lines) clean i =
      bind-Ensures Holds Holds (scan_line is_ipv4 lower same_fold ip s l) _
        (scan_line-Inv s l clean.0 i) λ s' i'. scan_lines-Inv s' lines clean.1 i'
