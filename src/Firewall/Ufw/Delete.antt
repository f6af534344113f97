-- ===== src/Firewall/Ufw/Delete.antt =====
-- The deletion of UFW rules by their numbers, which shift with each deletion.
use Prim.Native.Nat.{ℕ, suc, ◌<◌}
use mathlib.Core.Path.{◌≡◌, refl, ◌∙◌, ap}
use mathlib.Core.Logic.{inl, inr}
use mathlib.Core.Bool.{Bool, not}
use mathlib.Core.List.{List, [], ◌∷◌, ◌++◌}
use mathlib.Core.Option.{some}
use native.Mathlib.Omega.{arith}
use j_ui.Base.{◌==◌, if◌then◌else◌, nat_equality, nat_same_iff, All, keep, Bool-cases, Option-cases}
use j_ui.Base.Int.{ℤ, pos, negsuc, int_text}
use j_ui.Base.Run.{pure, ◌>>=◌}
use j_ui.Base.Text.{Text, codes}
use j_ui.Firewall.{Runner, Shell, command}
use j_ui.Firewall.Ufw.{insert_down, sort_down, ufw_delete_all}

module _ {A : Type 0} where
  -- The list without the element whose number it is, where the first has the number `first`.
  abbrev pub delete_at : ℕ → ℤ → List A → List A
  delete_at first n [] = []
  delete_at first (pos n) (x ∷ xs) = if n == first then xs else x ∷ delete_at (suc first) (pos n) xs
  delete_at first (negsuc n) (x ∷ xs) = x ∷ xs

  abbrev delete_each : ℕ → List ℤ → List A → List A
  delete_each first [] xs = xs
  delete_each first (n ∷ ns) xs = delete_each first ns (delete_at first n xs)

  -- The numbers of the marked elements.
  abbrev pub numbers : (A → Bool) → ℕ → List A → List ℤ
  numbers marked first [] = []
  numbers marked first (x ∷ xs) =
      if marked x then pos first ∷ numbers marked (suc first) xs else numbers marked (suc first) xs

  delete_each-append :
      (first : ℕ) (ns ms : List ℤ) (xs : List A)
      → delete_each first (ns ++ ms) xs ≡ delete_each first ms (delete_each first ns xs)
  delete_each-append first [] ms xs = refl
  delete_each-append first (n ∷ ns) ms xs = delete_each-append first ns ms (delete_at first n xs)

abbrev IsAbove : ℕ → ℤ → Type 0
IsAbove k (pos n) = k < n
IsAbove k (negsuc n) = ⊥

insert_down-IsAbove :
    (k : ℕ) (n : ℤ) (ns : List ℤ)
    → IsAbove k n
    → All (IsAbove k) ns
    → All (IsAbove k) (insert_down n ns)
unfolding insert_down
insert_down-IsAbove k n [] h a = (h, tt)
insert_down-IsAbove k n (m ∷ ns) h a = ground (arith, insert_down-IsAbove k n ns h a.1)

sort_down-IsAbove : (k : ℕ) (ns : List ℤ) → All (IsAbove k) ns → All (IsAbove k) (sort_down ns)
unfolding sort_down
sort_down-IsAbove k [] a = tt
sort_down-IsAbove k (n ∷ ns) (h, a) =
    insert_down-IsAbove k n (sort_down ns) h (sort_down-IsAbove k ns a)

-- The least number goes last.
insert_down-least :
    (k : ℕ) (ns : List ℤ) → All (IsAbove k) ns → insert_down (pos k) ns ≡ ns ++ pos k ∷ []
unfolding insert_down
insert_down-least k [] a = refl
insert_down-least k (pos n ∷ ns) (h, a) = ground (arith, insert_down-least k ns a, h)
insert_down-least k (negsuc n ∷ ns) (h, a) = absurd h

module _ {A : Type 0} where
  delete_each-cons :
      (first : ℕ) (ns : List ℤ) (x : A) (xs : List A)
      → All (IsAbove first) ns
      → delete_each first ns (x ∷ xs) ≡ x ∷ delete_each (suc first) ns xs
  delete_each-cons first [] x xs h = refl
  delete_each-cons first (pos n ∷ ns) x xs (h, hs) = elim (Bool-cases (n == first)) [
    | inl same ↦ absurd (ground (arith, same, h))
    | inr other ↦ rw other (delete_each-cons first ns x (delete_at (suc first) (pos n) xs) hs)
  ]
  delete_each-cons first (negsuc n ∷ ns) x xs (h, hs) = absurd h

  numbers-IsAbove :
      (marked : A → Bool) (k first : ℕ) (xs : List A)
      → k < first
      → All (IsAbove k) (numbers marked first xs)
  numbers-IsAbove marked k first [] h = tt
  numbers-IsAbove marked k first (x ∷ xs) h =
      ground (arith, numbers-IsAbove marked k (suc first) xs)

  -- From the greatest number down, each deletion leaves the smaller numbers valid.
  delete_each-keep :
      (marked : A → Bool) (first : ℕ) (xs : List A)
      → delete_each first (sort_down (numbers marked first xs)) xs ≡ keep (λ x. not (marked x)) xs
  unfolding sort_down
  delete_each-keep marked first [] = refl
  delete_each-keep marked first (x ∷ xs) =
      let above =
        sort_down-IsAbove first (numbers marked (suc first) xs)
          (numbers-IsAbove marked first (suc first) xs (omega arith)) in
      let rest =
        delete_each-cons first (sort_down (numbers marked (suc first) xs)) x xs above
        ∙ ap (λ l. x ∷ l) (delete_each-keep marked (suc first) xs) in
      elim (Bool-cases (marked x)) [
        | inr plain ↦ rw plain rest
        | inl ours ↦ rw ours (
            ap (λ ns. delete_each first ns (x ∷ xs))
              (insert_down-least first (sort_down (numbers marked (suc first) xs)) above)
            ∙ delete_each-append first (sort_down (numbers marked (suc first) xs)) (pos first ∷ [])
                (x ∷ xs)
            ∙ ap (delete_at first (pos first)) rest
            ∙ ground (arith, nat_same_iff first first))
      ]

-- The command that deletes one rule.
abbrev pub delete_words : ℤ → List Text
delete_words n = codes "ufw" ∷ codes "--force" ∷ codes "delete" ∷ int_text n ∷ []

module _ {Host A : Type 0} (runner : Runner Host) (lower : ℕ → ℕ) (rules : Host → List A)
    (obeys : (n : ℤ) (h : Host) (output : Text)
      → (runner.run (delete_words n) h).0 ≡ some output
      → rules (runner.run (delete_words n) h).1 ≡ delete_at 1 n (rules h)) where
  ufw_delete_all-rules :
      (ns : List ℤ) (s : Shell Host)
      → (ufw_delete_all runner lower ns s).0 ≡ some tt
      → rules (ufw_delete_all runner lower ns s).1.host ≡ delete_each 1 ns (rules s.host)
  unfolding ufw_delete_all ◌>>=◌ pure command
  ufw_delete_all-rules [] s e = refl
  ufw_delete_all-rules (n ∷ ns) s e = elim (Option-cases (runner.run (delete_words n) s.host).0) [
    | inl failed ↦ absurd (ground (arith, failed, e))
    | inr (output, done) ↦
        let next : Shell Host = record s {
          host = (runner.run (delete_words n) s.host).1;
          log = delete_words n ∷ s.log;
        } in
        let later = ufw_delete_all-rules ns next (rw done at e) in
        rw done (later ∙ ap (delete_each 1 ns) (obeys n s.host output done))
  ]

  -- Where UFW deletes the rule of the number it is given, the deletions that `ufwClose` makes for the
  -- numbers of the marked rules, if none fails, leave exactly the other rules, in their order.
  pub ufw_delete_all-keep :
      (marked : A → Bool) (s : Shell Host)
      → (ufw_delete_all runner lower (sort_down (numbers marked 1 (rules s.host))) s).0 ≡ some tt
      → rules (ufw_delete_all runner lower (sort_down (numbers marked 1 (rules s.host))) s).1.host
        ≡ keep (λ x. not (marked x)) (rules s.host)
  ufw_delete_all-keep marked s e =
      ufw_delete_all-rules (sort_down (numbers marked 1 (rules s.host))) s e
      ∙ delete_each-keep marked 1 (rules s.host)
