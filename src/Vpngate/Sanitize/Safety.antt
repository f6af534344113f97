-- ===== src/Vpngate/Sanitize/Safety.antt =====
-- What `SanitizeOpenVPN` lets through.
use Prim.Native.Nat.{ℕ}
use mathlib.Core.Path.{◌≡◌, refl, ◌∙◌, ap, subst}
use mathlib.Core.Logic.{inl, inr}
use mathlib.Core.Bool.{Bool, true, false}
use mathlib.Core.List.{List, [], ◌∷◌, ◌++◌}
use native.Mathlib.Omega.{arith}
use j_ui.Base.{◌==◌, nat_equality, All, All-append, Bool-cases}
use j_ui.Base.Text.{Text, codes, text_equality, itoa}
use j_ui.Base.Scan.{join, pieces, scan_pieces}
use j_ui.Vpngate.Sanitize.{
  Remote, State, ok, final_lines, scan_lines, finish, sanitize_open_vpn, fill_protocols,
  choose_and_write,
}
use j_ui.Vpngate.Sanitize.Lines.{
  Without, append-Without, pieces-Without, scan_pieces-Without, itoa-Without,
}
use j_ui.Vpngate.Sanitize.Reading.{fresh, read_lines, read_lines-append, read_lines-final}
use j_ui.Vpngate.Sanitize.Remotes.{
  IsProtocol, IsRemote, fill_protocols-IsRemote, choose_among-holds,
}
use j_ui.Vpngate.Sanitize.Permitted.{Permitted, Ensures, bind-Ensures, closes, Inv, no_block}
use j_ui.Vpngate.Sanitize.Steps.{scan_lines-Inv}

module _ (is_ipv4 : Text → Bool) (lower : ℕ → ℕ) (same_fold : ℕ → ℕ → Bool) (ip : Text) where
  abbrev Holds : State → Type 0
  Holds = Inv is_ipv4 lower same_fold ip

  abbrev shuts : Text → Text → Bool
  shuts = closes is_ipv4 lower same_fold ip

  append_texts-Without :
      (s t u : Text)
      → Without b'\n' s
      → Without b'\n' t
      → Without b'\n' u
      → Without b'\n' (s ++ t ++ u)
  append_texts-Without s t u h k l =
      append-Without b'\n' (s ++ t) u (append-Without b'\n' s t h k) l

  final_lines-Without :
      (r : Remote)
      → Without b'\n' r.protocol
      → Without b'\n' r.ip
      → All (Without b'\n') (final_lines r)
  unfolding final_lines
  final_lines-Without r p a = (
    p,
    (
      append_texts-Without (codes "remote ") r.ip (b' ' ∷ itoa r.port) refl a (itoa-Without r.port),
      (refl, (refl, (refl, (refl, (refl, (refl, tt)))))),
    ),
  )

  IsProtocol-Without : (p : Text) → IsProtocol p → Without b'\n' p
  IsProtocol-Without p h = elim h [ inl e ↦ rw e refl | inr e ↦ rw e refl ]

  -- What a configuration that passed is: lines, read as the sanitizer reads them, with no block left
  -- open, permitted directives first and the fixed lines last, for a remote at the expected address.
  pub record Sanitized (text : Text) (selected : Remote) : Type 0 where
    pub lines : List Text
    pub is_text : text ≡ join (b'\n' ∷ []) lines ++ b'\n' ∷ []
    pub one_line : All (Without b'\n') lines
    pub directives : List Text
    pub reads :
        read_lines shuts fresh lines
        ≡ record { block = []; directives = directives ++ final_lines selected }
    pub safe : All (Permitted lower) directives
    pub remote : IsRemote ip IsProtocol selected

  abbrev Good : Text × Remote → Type 0
  Good out = Sanitized out.0 out.1

  close_output :
      (s : State) (selected : Remote)
      → Without b'\n' ip
      → s.block ≡ []
      → Holds s
      → IsRemote ip IsProtocol selected
      → Sanitized (join (b'\n' ∷ []) (s.output ++ final_lines selected) ++ b'\n' ∷ []) selected
  close_output s selected clean e i r = record {
    lines = s.output ++ final_lines selected;
    is_text = refl;
    one_line = All-append (Without b'\n') s.output (final_lines selected) i.one_line (
        final_lines-Without selected (IsProtocol-Without selected.protocol r.kind)
          (rw r.same_ip clean));
    directives = i.directives;
    reads =
        read_lines-append shuts fresh s.output (final_lines selected)
        ∙ ap (λ x. read_lines shuts x (final_lines selected)) i.reads
        ∙ ap
            (λ b.
              read_lines shuts (record { block = b; directives = i.directives })
                (final_lines selected))
            e
        ∙ read_lines-final shuts i.directives selected;
    safe = i.safe;
    remote = r;
  }

  choose_and_write-Sanitized :
      (s : State) (remotes : List Remote)
      → Without b'\n' ip
      → s.block ≡ []
      → Holds s
      → All (IsRemote ip IsProtocol) remotes
      → Ensures Good (choose_and_write is_ipv4 lower same_fold s remotes)
  unfolding choose_and_write
  choose_and_write-Sanitized s [] clean e i a = tt
  choose_and_write-Sanitized s (r ∷ remotes) clean e i a =
      close_output s _ clean e i (choose_among-holds (IsRemote ip IsProtocol) r (r ∷ remotes) a.0 a)

  finish-Sanitized :
      (s : State) (too_long : Bool)
      → Without b'\n' ip
      → Holds s
      → Ensures Good (finish is_ipv4 lower same_fold s too_long)
  unfolding finish
  finish-Sanitized s true clean i = tt
  finish-Sanitized s false clean i = elim (Bool-cases (s.block == [])) [
    | inr inside ↦ rw (inside, finish) tt
    | inl outside ↦
        rw (outside, finish)
          (choose_and_write-Sanitized s (fill_protocols s.protocol s.remotes) clean
            (no_block is_ipv4 lower same_fold ip s outside) i
            (fill_protocols-IsRemote ip s.protocol s.remotes i.kind i.remotes))
  ]

  sanitize_open_vpn-Sanitized :
      (raw : Text)
      → lower b'<' ≡ b'<'
      → Without b'\n' ip
      → Ensures Good (sanitize_open_vpn is_ipv4 lower same_fold raw ip)
  unfolding sanitize_open_vpn
  sanitize_open_vpn-Sanitized raw mark clean = elim (Bool-cases (is_ipv4 ip)) [
    | inr bad ↦ rw (bad, sanitize_open_vpn) tt
    | inl fine ↦
        rw (fine, sanitize_open_vpn)
          (bind-Ensures Holds Good
            (scan_lines is_ipv4 lower same_fold ip
              (record { output = []; protocol = []; remotes = []; block = [] })
              (scan_pieces (pieces raw)).0)
            _
            (scan_lines-Inv is_ipv4 lower same_fold mark ip _ _
              (scan_pieces-Without b'\n' (pieces raw) (pieces-Without raw))
              (record {
                directives = [];
                reads = unfold read_lines in refl;
                safe = tt;
                one_line = tt;
                remotes = tt;
                kind = inl refl;
              }))
            λ s i. finish-Sanitized s (scan_pieces (pieces raw)).1 clean i)
  ]

-- Where `SanitizeOpenVPN` accepts a text, the result is a sequence of lines that, read with the
-- sanitizer's own view of where a block ends, leaves no block open and holds only permitted
-- directives, then the eight fixed lines with the selected remote, whose address is the expected one,
-- whose port is from 1 to 65535 and whose protocol is UDP or TCP. It is assumed that lower case leaves
-- `<` alone and that an IPv4 address has no newline.
pub sanitize_open_vpn_lem :
    (is_ipv4 : Text → Bool) (lower : ℕ → ℕ) (same_fold : ℕ → ℕ → Bool) (raw ip text : Text)
    (selected : Remote)
    → lower b'<' ≡ b'<'
    → ((t : Text) → is_ipv4 t ≡ true → Without b'\n' t)
    → sanitize_open_vpn is_ipv4 lower same_fold raw ip ≡ ok (text, selected)
    → Sanitized is_ipv4 lower same_fold ip text selected
sanitize_open_vpn_lem is_ipv4 lower same_fold raw ip text selected mark address e =
    let fine : is_ipv4 ip ≡ true = unfold sanitize_open_vpn in ground arith in
    subst (Ensures (λ (out : Text × Remote). Sanitized is_ipv4 lower same_fold ip out.0 out.1)) e
      (sanitize_open_vpn-Sanitized is_ipv4 lower same_fold ip raw mark (address ip fine))
