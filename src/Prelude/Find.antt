-- ===== src/Prelude/Find.antt =====
-- A loop over an array that stops at the first entry that passes a test.
use Prim.Native.Nat.{ℕ, zero, suc, ◌<◌}
use mathlib.Core.Path.{◌≡◌, subst}
use mathlib.Core.Logic.{◌≢◌, inl, inr}
use mathlib.Core.Bool.{Bool, true, false}
use mathlib.Core.Option
use mathlib.Core.Option.{Option, none, some}
use mathlib.Core.List.{List, [], ◌∷◌}
use native.Mathlib.Omega.{arith}
use verkos.Prelude.Tests.{if◌then◌else◌, Bool-cases, Option-cases}
use verkos.Prelude.Lists.{length, get_or}

module _ {ℓ} {A : Type ℓ} where
  -- for (i = 0; i < n; i++) if (test(a[i])) …: the first index that passes
  unfoldable pub find_index : (A → Bool) → List A → Option ℕ
  find_index p [] = none
  find_index p (s ∷ ss) = if p s then some 0 else Option.map suc (find_index p ss)

  pub find_index_sound :
      (p : A → Bool) (ss : List A) (d : A) (i : ℕ)
      → find_index p ss ≡ some i
      → (p (get_or ss i d) ≡ true) × (i < length ss)
  unfolding find_index
  find_index_sound p [] d i e = absurd (ground arith)
  find_index_sound p (s ∷ ss) d i e = elim (Bool-cases (p s)) [
    | inl h ↦ ground arith
    | inr h ↦ elim (Option-cases (find_index p ss)) [
      | inl n ↦ ground arith
      | inr (j, f) ↦
          let r = find_index_sound p ss d j f in
          subst (λ k. (p (get_or (s ∷ ss) k d) ≡ true) × (k < length (s ∷ ss))) (shift h j f)
            (r.0, omega arith)
    ]
  ]
    where
      shift : p s ≡ false → (j : ℕ) → find_index p ss ≡ some j → suc j ≡ i
      shift h j f = ground arith

  -- Where some entry passes, the loop stops.
  pub find_index_complete :
      (p : A → Bool) (ss : List A) (d : A) (i : ℕ)
      → i < length ss
      → p (get_or ss i d) ≡ true
      → find_index p ss ≢ none
  unfolding find_index
  find_index_complete p [] d i h e = absurd (omega arith)
  find_index_complete p (s ∷ ss) d zero h e = ground arith
  find_index_complete p (s ∷ ss) d (suc i) h e =
      ground (arith, find_index_complete p ss d i (omega arith) e)
