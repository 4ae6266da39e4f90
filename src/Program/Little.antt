-- ===== src/Program/Little.antt =====
-- The numbers that pkg/sav/src/elf.c writes are those that pkg/stam/elf.c reads.
use verkos.Prelude.{
  ℕ, zero, ◌+◌, ◌/◌, ◌%◌, ◌^◌, ◌<◌, ◌≡◌, refl, ap, ◌∙◌, subst, List, [], ◌∷◌, arith, length,
}
use verkos.Archive.Reader.{Bytes}
use verkos.Archive.Holds.{Holds, Holds-at}
use verkos.Program.Manifest.{le32, calls_at}
use verkos.Program.Note.{put_le32, put_calls}

pub le32-put_le32 :
    (e : Bytes) (p q v : ℕ) (rest : List ℕ)
    → p ≡ q
    → v < 2 ^ 32
    → Holds e p (put_le32 v rest)
    → (le32 e q ≡ v) × Holds e (q + 4) rest
unfolding le32 put_le32
le32-put_le32 e p q v rest at h b =
    subst (λ k. (le32 e k ≡ v) × Holds e (k + 4) rest) at (value, later)
  where
    value : le32 e p ≡ v
    value =
        let one : e (p + 1) ≡ v / 2 ^ 8 % 256 = ap e (omega arith) ∙ b.1.0 in
        let two : e (p + 2) ≡ v / 2 ^ 16 % 256 = ap e (omega arith) ∙ b.1.1.0 in
        let three : e (p + 3) ≡ v / 2 ^ 24 % 256 = ap e (omega arith) ∙ b.1.1.1.0 in
        omega (arith, b.0, one, two, three, h)

    later : Holds e (p + 4) rest
    later = Holds-at e rest _ _ (omega arith) b.1.1.1.1

-- Numbers of 32 bits.
abbrev pub AreWords : List ℕ → Type 0
AreWords [] = zero ≡ zero
AreWords (c ∷ cs) = (c < 2 ^ 32) × AreWords cs

pub calls_at-put_calls :
    (e : Bytes) (cs : List ℕ) (p : ℕ) (rest : List ℕ)
    → AreWords cs
    → Holds e p (put_calls cs rest)
    → calls_at e (length cs) p ≡ cs
unfolding calls_at put_calls
calls_at-put_calls e [] p rest w b = refl
calls_at-put_calls e (c ∷ cs) p rest w b =
    let r = le32-put_le32 e p p c (put_calls cs rest) refl w.0 b in
    rw (r.0, calls_at-put_calls e cs (p + 4) rest w.1 r.1) refl
